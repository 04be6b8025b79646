-- ===== src/Strategy.antt =====
-- The strategies (src/engine/strategies) as the engine dispatches to them: `handle_filled`,
-- `handle_cancel` and `modify` of the order's strategy. (`handle_new` is in Placing.)
mod Base
mod Modify
mod Single
mod Oco
mod Oto
mod Otoco
unfoldable pub use Base.*
unfoldable pub use Modify.*
unfoldable pub use Single.*
unfoldable pub use Oco.*
unfoldable pub use Oto.*
unfoldable pub use Otoco.*
use spectuel_backend.Prelude.{ℕ}
use spectuel_backend.Enums.{StrategyType}
use spectuel_backend.PriceLevel.{PriceLevel}
use spectuel_backend.Sorted.{SortedDict}
use spectuel_backend.Redis.{Redis}
use spectuel_backend.Order.{Order}
use spectuel_backend.State.{M, deref, pure, ◌>>=◌, ◌>>◌}

module _ ⦃D : SortedDict PriceLevel⦄ ⦃R : Redis⦄ where
  -- `self._strategy_handlers[order.strategy_type]` and its method
  abbrev pub filled_by : StrategyType → ℕ → M (Unit {0})
  filled_by StrategyType.single r = single_filled r
  filled_by StrategyType.oco r = oco_filled r
  filled_by StrategyType.oto r = oto_filled r
  filled_by StrategyType.otoco r = otoco_filled r

  abbrev pub cancelled_by : StrategyType → ℕ → M (Unit {0})
  cancelled_by StrategyType.single r = single_cancel r
  cancelled_by StrategyType.oco r = oco_cancel r
  cancelled_by StrategyType.oto r = oto_cancel r
  cancelled_by StrategyType.otoco r = otoco_cancel r

  abbrev pub modified_by : StrategyType → ModifyCommand → ℕ → M (Unit {0})
  modified_by StrategyType.single cmd r = modify_order cmd r
  modified_by StrategyType.oco cmd r = modify_order cmd r
  modified_by StrategyType.oto cmd r = oto_modify cmd r
  modified_by StrategyType.otoco cmd r = otoco_modify cmd r
