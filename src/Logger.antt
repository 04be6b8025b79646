-- ===== src/Logger.antt =====
-- `EngineLogger` (src/engine/loggers/engine_logger.py): an event is validated, serialised to
-- JSON and sent. Kafka and the hooks are the log; events of the system user are dropped
-- (src/engine/decorators.py).
use spectuel_backend.Prelude.{
  ℕ, Bool, true, false, Option, none, some, ◌==◌, is_some, if◌then◌else◌,
}
use spectuel_backend.Errors.{validation_error, type_error}
use spectuel_backend.Enums.{OrderEventType, LiquidityRole}
use spectuel_backend.PriceLevel.{PriceLevel}
use spectuel_backend.Sorted.{SortedDict}
use spectuel_backend.Redis.{Redis}
use spectuel_backend.Order.{Order, holds_order}
use spectuel_backend.State.{
  M, pure, raise, emit, order_event, trade_event, balance_event, command_received,
  command_processed, BalanceEvent, Event,
}

-- The validation of an order event by its class: each needs the order's dict, and a modified
-- event a limit or stop price.
abbrev pub is_valid_event : OrderEventType → Option Order → Option ℕ → Bool
is_valid_event t none price = false
is_valid_event OrderEventType.order_modified (some o) price = is_some price
is_valid_event _ (some o) price = true

module _ ⦃D : SortedDict PriceLevel⦄ ⦃R : Redis⦄ where
  -- `ignore_system_user` around a method whose result nobody reads
  abbrev pub ignore_system_user : ℕ → M (Unit {0}) → M (Unit {0})
  ignore_system_user user m s = if user == s.system_user_id then pure tt s else m s

  -- `log_event` on an order event: `json.dumps` raises on a dict that holds an order object.
  abbrev pub send_order_event : OrderEventType → ℕ → ℕ → Option Order → M (Unit {0})
  send_order_event t user order_id none s = raise validation_error s
  send_order_event t user order_id (some o) s =
      if holds_order o
      then raise type_error s
      else emit (order_event t user order_id s.cur_command_id o) s

  abbrev pub checked_order_event : OrderEventType → ℕ → ℕ → Option Order → Option ℕ → M (Unit {0})
  checked_order_event t user order_id payload price s =
      if is_valid_event t payload price
      then send_order_event t user order_id payload s
      else raise validation_error s

  -- `log_order_event(user, type=t, order_id=…, order=payload, limit_price or stop_price=price)`
  unfoldable pub log_order_event : ℕ → OrderEventType → ℕ → Option Order → Option ℕ → M (Unit {0})
  log_order_event user t order_id payload price =
      ignore_system_user user (checked_order_event t user order_id payload price)

  -- `log_trade_event`
  unfoldable pub log_trade_event : ℕ → ℕ → ℕ → ℕ → ℕ → LiquidityRole → M (Unit {0})
  log_trade_event user id order_id quantity price role =
      ignore_system_user user
        (λ s. emit (trade_event id user order_id quantity price s.cur_command_id role) s)

  -- `log_balance_event`, with an event whose fields are all given
  unfoldable pub log_balance_event : ℕ → ℕ → BalanceEvent → M (Unit {0})
  log_balance_event user command e = ignore_system_user user (emit (balance_event user command e))

  -- `log_command_event`, which calls its hook, if that is set, and sends nothing to Kafka
  abbrev pub log_command_event : Event → M (Unit {0})
  log_command_event e s = if s.command_hook then emit e s else pure tt s

  unfoldable pub log_command_received : ℕ → M (Unit {0})
  log_command_received id = log_command_event (command_received id)

  unfoldable pub log_command_processed : ℕ → M (Unit {0})
  log_command_processed id = log_command_event (command_processed id)
