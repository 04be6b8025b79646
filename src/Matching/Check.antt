-- ===== src/Matching/Check.antt =====
-- `_check_sufficient_balance` (src/engine/matching_engines/spot_engine.py).
use spectuel_backend.Prelude.{ℕ, ◌*◌, Bool, true, Option, ◌==◌, if◌then◌else◌}
use spectuel_backend.Prelude.Int.{pos, leb_ℤ}
use spectuel_backend.Errors.{not_implemented}
use spectuel_backend.Enums.{Side, OrderType}
use spectuel_backend.PriceLevel.{PriceLevel}
use spectuel_backend.Sorted.{SortedDict}
use spectuel_backend.Redis.{Redis}
use spectuel_backend.Order.{Order}
use spectuel_backend.State.{M, pure, raise, gets, number, ◌>>=◌}
use spectuel_backend.Balance.{get_available_cash_balance, get_available_asset_balance}

module _ ⦃D : SortedDict PriceLevel⦄ ⦃R : Redis⦄ where
  abbrev pub check_side : Side → ℕ → ℕ → Option ℕ → M Bool
  check_side Side.ask user quantity price = do
    available ← get_available_asset_balance user
    pure (leb_ℤ (pos quantity) available)
  check_side Side.bid user quantity price = do
    p ← number price
    available ← get_available_cash_balance user
    pure (leb_ℤ (pos (quantity * p)) available)

  abbrev pub check_user : OrderType → Order → ℕ → Option ℕ → M Bool
  check_user OrderType.market o quantity price = raise not_implemented
  check_user OrderType.limit o quantity price = check_side o.side o.user_id quantity price
  check_user OrderType.stop o quantity price = check_side o.side o.user_id quantity price

  unfoldable pub check_sufficient_balance : Order → ℕ → Option ℕ → M Bool
  check_sufficient_balance o quantity price = do
    system ← gets (λ s. s.system_user_id)
    if o.user_id == system then pure true else check_user o.order_type o quantity price
