-- ===== src/Tests/Books.antt =====
-- A book with one ask, and the theorems on books at it.
use spectuel_backend.Prelude.{ℕ, ◌≡◌, refl, ◌↔◌, true, some}
use spectuel_backend.Errors.{ok, state_of}
use spectuel_backend.Enums.{Side}
use spectuel_backend.Sorted.Assoc.{assoc_dict}
use spectuel_backend.PriceLevel.{PriceLevel}
use spectuel_backend.OrderBook
use spectuel_backend.OrderBook.{
  append_at, improve_best, remove_at, drop_level, BookOrder, OrderBook, Market, empty_book,
  side_levels,
}
use spectuel_backend.OrderBook.Best.{BestValid, present, append-BestValid, remove-BestValid}
use spectuel_backend.Crossing.{limit_crossable, stop_crossable}
use spectuel_backend.Crossing.Levels.{Meets, Reaches, limit_crossable_iff, stop_crossable_iff}
use spectuel_backend.Tests.Levels.{two_nodes}

-- A book with an ask at 90, and a state in which the order 1 of user 7 rests.
abbrev pub start_market : Market ⦃D = assoc_dict PriceLevel⦄
start_market = record { book = empty_book ⦃D = assoc_dict PriceLevel⦄ 50; nodes = two_nodes }

abbrev pub ask_at_90 : BookOrder
ask_at_90 = record { ref = 4; id = 9; side = Side.ask }

start_BestValid : BestValid ⦃D = assoc_dict PriceLevel⦄ start_market.book
start_BestValid = record { bid_best = λ k. refl; ask_best = λ k. refl }

abbrev pub ask_market : Market ⦃D = assoc_dict PriceLevel⦄
ask_market =
    state_of (OrderBook.append ⦃D = assoc_dict PriceLevel⦄ ask_at_90 (some 90) start_market)

append-BestValid_example : BestValid ⦃D = assoc_dict PriceLevel⦄ ask_market.book
append-BestValid_example =
    append-BestValid ⦃D = assoc_dict PriceLevel⦄ ask_at_90 (some 90) start_market start_BestValid

pub ask_BestValid : BestValid ⦃D = assoc_dict PriceLevel⦄ ask_market.book
ask_BestValid =
    append-BestValid ⦃D = assoc_dict PriceLevel⦄ ask_at_90 (some 90) start_market start_BestValid

remove-BestValid_example :
    BestValid ⦃D = assoc_dict PriceLevel⦄
      (state_of (OrderBook.remove ⦃D = assoc_dict PriceLevel⦄ ask_at_90 (some 90) ask_market)).book
remove-BestValid_example =
    remove-BestValid ⦃D = assoc_dict PriceLevel⦄ ask_at_90 (some 90) ask_market ask_BestValid

limit_crossable_iff_example :
    (limit_crossable ⦃D = assoc_dict PriceLevel⦄ (some 100) Side.bid ask_market.book ≡ ok true) ↔ (
      (k : ℕ) × (present ⦃D = assoc_dict PriceLevel⦄
          (side_levels ⦃D = assoc_dict PriceLevel⦄ Side.ask ask_market.book)
          k
        ≡ true)
      × Meets Side.bid 100 k)
limit_crossable_iff_example =
    limit_crossable_iff ⦃D = assoc_dict PriceLevel⦄ 100 Side.bid ask_market.book ask_BestValid

stop_crossable_iff_example :
    (stop_crossable ⦃D = assoc_dict PriceLevel⦄ (some 80) Side.bid ask_market.book ≡ ok true) ↔ (
      ((k : ℕ) × (present ⦃D = assoc_dict PriceLevel⦄
            (side_levels ⦃D = assoc_dict PriceLevel⦄ Side.ask ask_market.book)
            k
          ≡ true))
      × ((k : ℕ)
          → present ⦃D = assoc_dict PriceLevel⦄
              (side_levels ⦃D = assoc_dict PriceLevel⦄ Side.ask ask_market.book)
              k
            ≡ true
          → Reaches Side.bid 80 k))
stop_crossable_iff_example =
    stop_crossable_iff ⦃D = assoc_dict PriceLevel⦄ 80 Side.bid ask_market.book ask_BestValid
