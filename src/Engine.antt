-- ===== src/Engine.antt =====
-- `SpotEngine.handle_command` and the handlers it routes to
-- (src/engine/matching_engines/spot_engine.py, src/engine/commands.py).
pub mod Refusals
pub mod Raising
pub mod Unpriced
pub mod Steps
pub mod Cancelled
pub mod Placed
use spectuel_backend.Prelude.{ℕ, Option, none, some, List}
use spectuel_backend.PriceLevel.{PriceLevel}
use spectuel_backend.Sorted.{SortedDict}
use spectuel_backend.Redis.{Redis}
use spectuel_backend.Order.{OrderDict}
use spectuel_backend.State.{M, pure, deref, gets, modify, store_get, ◌>>=◌, ◌>>◌}
use spectuel_backend.Logger.{log_command_received, log_command_processed}
use spectuel_backend.Strategy.{ModifyCommand, cancelled_by, modified_by}
use spectuel_backend.Placing.{single_new, oco_new, oto_new, otoco_new}

-- The dict of a command by its `type` and `strategy_type`; `other` has a type with no handler,
-- and `new_unknown` a strategy with no handler.
pub data Command : Type 0 where
  new_single : (id : ℕ) → OrderDict → Command
  new_oco : (id : ℕ) → List OrderDict → Command
  new_oto : (id : ℕ) → (parent child : OrderDict) → Command
  new_otoco : (id : ℕ) → (parent : OrderDict) → List OrderDict → Command
  new_unknown : (id : ℕ) → Command
  cancel_order : (id order_id : ℕ) → Command
  modify_order_command : (id order_id : ℕ) → ModifyCommand → Command
  other : (id : ℕ) → Command

module _ ⦃D : SortedDict PriceLevel⦄ ⦃R : Redis⦄ where
  abbrev pub on_found : Option ℕ → (ℕ → M (Unit {0})) → M (Unit {0})
  on_found none k = pure tt
  on_found (some r) k = k r

  -- `_handle_cancel_order`
  unfoldable pub handle_cancel_order : ℕ → M (Unit {0})
  handle_cancel_order order_id = do
    found ← store_get order_id
    on_found found (λ r. deref r >>= λ o. cancelled_by o.strategy_type r)

  -- `_handle_modify_order`
  unfoldable pub handle_modify_order : ModifyCommand → ℕ → M (Unit {0})
  handle_modify_order cmd order_id = do
    found ← store_get order_id
    on_found found (λ r. deref r >>= λ o. modified_by o.strategy_type cmd r)

  -- The handler between the two command events, with the command's id noted first.
  abbrev pub handled : ℕ → M (Unit {0}) → M (Unit {0})
  handled id handler = do
    modify (λ s. record s { cur_command_id = id })
    log_command_received id
    handler
    cur ← gets (λ s. s.cur_command_id)
    log_command_processed cur

  -- `handle_command`; a command of another type is ignored.
  unfoldable pub handle_command : ℕ → Command → M (Unit {0})
  unfolding handle_cancel_order handle_modify_order
  handle_command fuel (new_single id d) = handled id (single_new fuel d)
  handle_command fuel (new_oco id legs) = handled id (oco_new legs)
  handle_command fuel (new_oto id parent child) = handled id (oto_new fuel parent child)
  handle_command fuel (new_otoco id parent legs) = handled id (otoco_new fuel parent legs)
  handle_command fuel (new_unknown id) = handled id (pure tt)
  handle_command fuel (cancel_order id order_id) = handled id (handle_cancel_order order_id)
  handle_command fuel (modify_order_command id order_id cmd) =
      handled id (handle_modify_order cmd order_id)
  handle_command fuel (other id) = pure tt
