-- ===== src/Placing/Start.antt =====
-- What the strategies' `handle_new` share: the effective price, the test whether to match, and
-- what follows a match.
use spectuel_backend.Prelude.{ℕ, Bool, true, some}
use spectuel_backend.Enums.{OrderType, OrderEventType}
use spectuel_backend.PriceLevel.{PriceLevel}
use spectuel_backend.Sorted.{SortedDict}
use spectuel_backend.Redis.{Redis}
use spectuel_backend.Order.{Order, OrderDict}
use spectuel_backend.State.{M, pure, deref, assign, gets, of_result, cur_price, ◌>>=◌, ◌>>◌}
use spectuel_backend.Crossing.{limit_crossable, stop_crossable}
use spectuel_backend.Strategy.{log_order, release_escrow}
use spectuel_backend.Matching.{MatchResult, match_order}

abbrev pub with_limit : OrderType → ℕ → OrderDict → OrderDict
with_limit OrderType.market p d = record d { limit_price = some p }
with_limit _ p d = d

abbrev pub set_executed : ℕ → Order → Order
set_executed q o = record o { executed_quantity = q }

module _ ⦃D : SortedDict PriceLevel⦄ ⦃R : Redis⦄ where
  -- A market order takes the book's price as its limit price.
  abbrev pub effective : OrderDict → M OrderDict
  effective d = do p ← cur_price; pure (with_limit d.order_type p d)

  abbrev pub matchable_by : OrderType → Order → M Bool
  matchable_by OrderType.limit o =
      gets (λ s. limit_crossable o.limit_price o.side s.market.book) >>= of_result
  matchable_by OrderType.stop o =
      gets (λ s. stop_crossable o.stop_price o.side s.market.book) >>= of_result
  matchable_by OrderType.market o = pure true

  -- Whether the order is matched at once.
  unfoldable pub is_matchable : ℕ → M Bool
  is_matchable r = do o ← deref r; matchable_by o.order_type o

  -- `ctx.engine.match(order, ctx)` and the write of the executed quantity.
  unfoldable pub match_new : ℕ → ℕ → M MatchResult
  match_new fuel r = do
    result ← match_order fuel r
    assign r (set_executed result.quantity)
    pure result

  -- The branch for an insufficient balance.
  unfoldable pub refuse_new : ℕ → M (Unit {0})
  refuse_new r = do log_order OrderEventType.order_cancelled r; release_escrow r
