-- ===== src/Placing/Single.antt =====
-- `SingleOrderStrategy.handle_new` (src/engine/strategies/single_strategy.py).
use spectuel_backend.Prelude.{ℕ, Bool, true, false, none}
use spectuel_backend.Enums.{OrderStatus, OrderEventType, MatchOutcome}
use spectuel_backend.PriceLevel.{PriceLevel}
use spectuel_backend.Sorted.{SortedDict}
use spectuel_backend.Redis.{Redis}
use spectuel_backend.Order.{Order, OrderDict, new_order}
use spectuel_backend.State.{M, pure, assign, create, price_of, store_add, book_append, ◌>>=◌, ◌>>◌}
use spectuel_backend.Strategy.{log_order}
use spectuel_backend.Placing.Start.{effective, is_matchable, match_new, refuse_new}

abbrev pub set_placed : Order → Order
set_placed o = record o { status = OrderStatus.placed }

module _ ⦃D : SortedDict PriceLevel⦄ ⦃R : Redis⦄ where
  -- What is not fully matched goes to the store and the book.
  unfoldable pub place_single : ℕ → M (Unit {0})
  place_single r = do
    assign r set_placed
    log_order OrderEventType.order_placed r
    store_add r
    price ← price_of r
    book_append r price

  abbrev pub single_matched : MatchOutcome → ℕ → M (Unit {0})
  single_matched MatchOutcome.insufficient_balance r = refuse_new r
  single_matched MatchOutcome.success r = pure tt
  single_matched MatchOutcome.partial r = place_single r
  single_matched MatchOutcome.failure r = place_single r

  abbrev pub match_or_place : Bool → ℕ → ℕ → M (Unit {0})
  match_or_place true fuel r = do result ← match_new fuel r; single_matched result.outcome r
  match_or_place false fuel r = place_single r

  unfoldable pub single_new : ℕ → OrderDict → M (Unit {0})
  unfolding place_single
  single_new fuel dict = do
    d ← effective dict
    r ← create (new_order d none)
    matchable ← is_matchable r
    match_or_place matchable fuel r
