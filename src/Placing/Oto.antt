-- ===== src/Placing/Oto.antt =====
-- `OTOStrategy.handle_new` (src/engine/strategies/oto_strategy.py).
use spectuel_backend.Prelude.{ℕ, Bool, true, false, none, some}
use spectuel_backend.Enums.{OrderEventType, MatchOutcome}
use spectuel_backend.PriceLevel.{PriceLevel}
use spectuel_backend.Sorted.{SortedDict}
use spectuel_backend.Redis.{Redis}
use spectuel_backend.Order.{Order, OrderDict, new_order}
use spectuel_backend.State.{M, pure, assign, create, price_of, store_add, book_append, ◌>>=◌, ◌>>◌}
use spectuel_backend.Strategy.{log_order}
use spectuel_backend.Placing.Start.{effective, is_matchable, match_new, refuse_new}

abbrev pub set_child : ℕ → Order → Order
set_child r o = record o { child = some r }

abbrev pub set_parent : ℕ → Order → Order
set_parent r o = record o { parent = some r }

module _ ⦃D : SortedDict PriceLevel⦄ ⦃R : Redis⦄ where
  -- The parent goes to the book, and both orders to the store.
  unfoldable pub place_parent : ℕ → ℕ → M (Unit {0})
  place_parent parent child = do
    log_order OrderEventType.order_placed parent
    price ← price_of parent
    book_append parent price
    store_add parent
    store_add child

  abbrev pub oto_matched : MatchOutcome → ℕ → ℕ → M (Unit {0})
  oto_matched MatchOutcome.insufficient_balance parent child = refuse_new parent
  oto_matched MatchOutcome.success parent child = pure tt
  oto_matched MatchOutcome.partial parent child = place_parent parent child
  oto_matched MatchOutcome.failure parent child = place_parent parent child

  abbrev pub oto_match_or_place : Bool → ℕ → ℕ → ℕ → M (Unit {0})
  oto_match_or_place true fuel parent child = do
    result ← match_new fuel parent
    oto_matched result.outcome parent child
  oto_match_or_place false fuel parent child = place_parent parent child

  unfoldable pub oto_new : ℕ → OrderDict → OrderDict → M (Unit {0})
  unfolding place_parent
  oto_new fuel parent_dict child_dict = do
    d ← effective parent_dict
    parent ← create (new_order d none)
    child ← create (new_order child_dict (some parent))
    assign parent (set_child child)
    assign child (set_parent parent)
    matchable ← is_matchable parent
    oto_match_or_place matchable fuel parent child
