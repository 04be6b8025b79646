-- ===== src/State/Events.antt =====
-- The events that the engine logs (src/engine/events), with what is read of them.
use spectuel_backend.Prelude.{ℕ}
use spectuel_backend.Enums.{OrderEventType, LiquidityRole}
use spectuel_backend.Order.{Order}

-- `AskSettledEvent` and `BidSettledEvent` hold the ids of the three events that they bundle.
pub data BalanceEvent : Type 0 where
  cash_balance_increased cash_balance_decreased : (id amount : ℕ) → BalanceEvent
  cash_escrow_increased cash_escrow_decreased : (id amount : ℕ) → BalanceEvent
  asset_balance_increased asset_balance_decreased : (id symbol amount : ℕ) → BalanceEvent
  asset_escrow_increased asset_escrow_decreased : (id symbol amount : ℕ) → BalanceEvent
  ask_settled :
      (id symbol quantity price trade asset_balance asset_escrow cash_balance : ℕ) → BalanceEvent
  bid_settled :
      (id symbol quantity price trade cash_escrow cash_balance asset_balance : ℕ) → BalanceEvent

pub data Event : Type 0 where
  command_received command_processed : (id : ℕ) → Event
  order_event : OrderEventType → (user order_id command : ℕ) → Order → Event
  trade_event : (id user order_id quantity price command : ℕ) → LiquidityRole → Event
  balance_event : (user command : ℕ) → BalanceEvent → Event
