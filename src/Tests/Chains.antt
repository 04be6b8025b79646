-- ===== src/Tests/Chains.antt =====
-- The theorems on the chains of all levels of a book, at a book with one ask.
use spectuel_backend.Prelude.{ℕ, ◌≡◌, refl, true, some, List, [], ◌∷◌, ap, arith}
use spectuel_backend.Errors.{done, state_of}
use spectuel_backend.Enums.{Side}
use spectuel_backend.Sorted.Assoc.{assoc_dict}
use spectuel_backend.PriceLevel
use spectuel_backend.PriceLevel.{PriceLevel, append_new, link_last, alloc, set_next, set_prev}
use spectuel_backend.PriceLevel.Chain.{Cell}
use spectuel_backend.PriceLevel.Append.{cell}
use spectuel_backend.OrderBook
use spectuel_backend.OrderBook.{Market, BookOrder, get_orders, side_levels, append_at, improve_best}
use spectuel_backend.OrderBook.Chains.{IsSound, replaced}
use spectuel_backend.OrderBook.Chains.Append.{append-IsSound}
use spectuel_backend.OrderBook.Chains.Moves.{
  Sound, append-Sound, remove-IsSound, empty_book-IsSound,
}
use spectuel_backend.Keeps.Engine.{run_commands}
use spectuel_backend.Keeps.Engine.Chains.{run_commands-Sound}
use spectuel_backend.Redis.Table.{table_redis, no_tables}
use spectuel_backend.Tests.Runs.{commands, start_state, ask_dict}
use spectuel_backend.Engine.Placed.{passive_limit_rests}
use spectuel_backend.Placing.{single_new}
use spectuel_backend.State.{State}
use spectuel_backend.Crossing.Levels.{Meets}
use spectuel_backend.OrderBook.Best.{BestValid, present}
use spectuel_backend.Tests.Levels.{two_nodes}
use spectuel_backend.Tests.Books.{start_market, ask_at_90, ask_market, ask_BestValid}

abbrev no_cells : Side → ℕ → List Cell
no_cells s p = []

abbrev ask_cells : Side → ℕ → List Cell
ask_cells = replaced no_cells Side.ask 90 (cell start_market.nodes.fresh 4 9 ∷ [])

start_IsSound : IsSound ⦃D = assoc_dict PriceLevel⦄ no_cells start_market
start_IsSound = empty_book-IsSound ⦃D = assoc_dict PriceLevel⦄ 50 two_nodes

abbrev asked : Market ⦃D = assoc_dict PriceLevel⦄
asked =
    (append-IsSound ⦃D = assoc_dict PriceLevel⦄ no_cells ask_at_90 90 start_market start_IsSound
      refl).0

append-IsSound_example :
    (m : Market ⦃D = assoc_dict PriceLevel⦄) × (OrderBook.append ⦃D = assoc_dict PriceLevel⦄
        ask_at_90
        (some 90)
        start_market
      ≡ done tt m)
    × IsSound ⦃D = assoc_dict PriceLevel⦄ ask_cells m
append-IsSound_example =
    append-IsSound ⦃D = assoc_dict PriceLevel⦄ no_cells ask_at_90 90 start_market start_IsSound refl

ask_IsSound : IsSound ⦃D = assoc_dict PriceLevel⦄ ask_cells asked
ask_IsSound =
    (append-IsSound ⦃D = assoc_dict PriceLevel⦄ no_cells ask_at_90 90 start_market start_IsSound
      refl).2

remove-IsSound_example :
    (m : Market ⦃D = assoc_dict PriceLevel⦄) × (OrderBook.remove ⦃D = assoc_dict PriceLevel⦄
        ask_at_90
        (some 90)
        asked
      ≡ done tt m)
    × IsSound ⦃D = assoc_dict PriceLevel⦄ (replaced ask_cells Side.ask 90 []) m
remove-IsSound_example =
    remove-IsSound ⦃D = assoc_dict PriceLevel⦄ ask_cells ask_at_90 90 2 asked ask_IsSound refl

run_commands-Sound_example :
    Sound ⦃D = assoc_dict PriceLevel⦄
      (state_of
        (run_commands ⦃D = assoc_dict PriceLevel⦄ ⦃R = table_redis⦄ 5 commands start_state)).market
run_commands-Sound_example =
    run_commands-Sound ⦃D = assoc_dict PriceLevel⦄ ⦃R = table_redis⦄ 5 commands start_state (
      append-Sound ⦃D = assoc_dict PriceLevel⦄ ask_at_90 (some 90) start_market
        (no_cells, start_IsSound))

ask_market-IsSound : IsSound ⦃D = assoc_dict PriceLevel⦄ ask_cells ask_market
ask_market-IsSound =
    let (m, appended, sound) =
      append-IsSound ⦃D = assoc_dict PriceLevel⦄ no_cells ask_at_90 90 start_market start_IsSound
        refl in
    rw (ap state_of appended) sound

no_bids :
    (k : ℕ)
    → present ⦃D = assoc_dict PriceLevel⦄
        (side_levels ⦃D = assoc_dict PriceLevel⦄ Side.bid ask_market.book)
        k
      ≡ true
    → Meets Side.ask 90 k
    → ⊥
unfolding OrderBook.append append_at improve_best PriceLevel.append append_new link_last alloc
    set_next set_prev
no_bids k e meets = cc

passive_limit_rests_example :
    (s' : State ⦃D = assoc_dict PriceLevel⦄ ⦃R = table_redis⦄) × (single_new
        ⦃D = assoc_dict PriceLevel⦄ ⦃R = table_redis⦄ 0 ask_dict start_state
      ≡ done tt s')
    × IsSound ⦃D = assoc_dict PriceLevel⦄
        (replaced ask_cells Side.ask 90
          (cell start_market.nodes.fresh 4 9 ∷ cell ask_market.nodes.fresh 1 2 ∷ []))
        s'.market
    × BestValid ⦃D = assoc_dict PriceLevel⦄ s'.market.book
    × (s'.order_store 2 ≡ some 1)
    × (s'.redis ≡ no_tables)
passive_limit_rests_example =
    passive_limit_rests ⦃D = assoc_dict PriceLevel⦄ ⦃R = table_redis⦄ 0 90 ask_dict ask_cells
      start_state refl refl (λ e. omega arith) refl ask_BestValid ask_market-IsSound refl no_bids
