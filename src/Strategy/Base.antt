-- ===== src/Strategy/Base.antt =====
-- What the strategies share: the log of an order, and `_release_escrow` of the engine
-- (src/engine/matching_engines/spot_engine.py).
use spectuel_backend.Prelude.{ℕ, ◌-◌, ◌*◌, Option, none, some, ltb}
use spectuel_backend.Enums.{Side, OrderEventType}
use spectuel_backend.PriceLevel.{PriceLevel}
use spectuel_backend.Sorted.{SortedDict}
use spectuel_backend.Redis.{Redis}
use spectuel_backend.State.{M, deref, gets, number, price_of, when, ◌>>=◌}
use spectuel_backend.Logger.{log_order_event}
use spectuel_backend.Balance.{decrease_cash_escrow, decrease_asset_escrow}

module _ ⦃D : SortedDict PriceLevel⦄ ⦃R : Redis⦄ where
  -- `log_order_event(user, type=t, order_id=order.id, …, order=order.get_order_dict())`
  unfoldable pub log_order_for : ℕ → OrderEventType → ℕ → M (Unit {0})
  log_order_for user t r = do o ← deref r; log_order_event user t o.id (some o) none

  unfoldable pub log_order : OrderEventType → ℕ → M (Unit {0})
  unfolding log_order_for
  log_order t r = do o ← deref r; log_order_for o.user_id t r

  -- The same call without the `order` argument.
  unfoldable pub log_bare : OrderEventType → ℕ → Option ℕ → M (Unit {0})
  log_bare t r price = do o ← deref r; log_order_event o.user_id t o.id none price

  abbrev pub release_side : Side → ℕ → ℕ → ℕ → M (Unit {0})
  release_side Side.bid r unfilled user = when (ltb 0 unfilled) (do
    p ← price_of r
    price ← number p
    command ← gets (λ s. s.cur_command_id)
    decrease_cash_escrow user (unfilled * price) command)
  release_side Side.ask r unfilled user =
      when (ltb 0 unfilled)
        (do command ← gets (λ s. s.cur_command_id); decrease_asset_escrow user unfilled command)

  -- `SpotEngine._release_escrow`; on ℕ the difference is 0 where the source's is not above 0.
  unfoldable pub release_escrow : ℕ → M (Unit {0})
  release_escrow r = do
    o ← deref r
    release_side o.side r (o.quantity - o.executed_quantity) o.user_id
