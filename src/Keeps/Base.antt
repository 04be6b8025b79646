-- ===== src/Keeps/Base.antt =====
-- Invariants through the logger's and the balance manager's calls.
use spectuel_backend.Prelude.{ℕ, Option, none, some}
use spectuel_backend.Prelude.Int.{ℤ}
use spectuel_backend.Enums.{OrderEventType, LiquidityRole}
use spectuel_backend.PriceLevel.{PriceLevel}
use spectuel_backend.Sorted.{SortedDict}
use spectuel_backend.Redis.{Redis, Key}
use spectuel_backend.Order.{Order, holds_order}
use spectuel_backend.State.{State, Event, BalanceEvent}
use spectuel_backend.Logger.{
  send_order_event, is_valid_event, log_order_event, log_trade_event, log_balance_event,
  log_command_event, log_command_received, log_command_processed,
}
use spectuel_backend.Balance.{
  on_redis, read_or_default, logged_update, get_available_cash_balance, get_available_asset_balance,
  decrease_cash_escrow, decrease_asset_escrow, increase_cash_escrow, increase_asset_escrow,
  settle_ask, settle_bid,
}
use spectuel_backend.Keeps.Rules.{
  Keeps, Invariant, keep_rules, Keeps-choice, Keeps-raise, Keeps-ignore, Keeps-emit, Keeps-pure,
}

module _ ⦃D : SortedDict PriceLevel⦄ ⦃R : Redis⦄ {P : State → Type 0} (I : Invariant P) where
  Keeps-send :
      (t : OrderEventType) (user id : ℕ) (payload : Option Order)
      → Keeps P (send_order_event t user id payload)
  Keeps-send t user id none = record { keeps = λ s p. p }
  Keeps-send t user id (some o) =
      Keeps-choice (λ s. holds_order o) (Keeps-raise _) (record { keeps = λ s p. I.log_ok s _ p })

  pub Keeps-order_event :
      (user : ℕ) (t : OrderEventType) (id : ℕ) (payload : Option Order) (price : Option ℕ)
      → Keeps P (log_order_event user t id payload price)
  unfolding log_order_event
  Keeps-order_event user t id payload price = Keeps-ignore user (
      Keeps-choice (λ s. is_valid_event t payload price) (Keeps-send t user id payload)
        (Keeps-raise _))

  pub Keeps-trade_event :
      (user id order_id quantity price : ℕ) (role : LiquidityRole)
      → Keeps P (log_trade_event user id order_id quantity price role)
  unfolding log_trade_event
  Keeps-trade_event user id order_id quantity price role =
      Keeps-ignore user (record { keeps = λ s p. I.log_ok s _ p })

  pub Keeps-balance_event :
      (user command : ℕ) (e : BalanceEvent) → Keeps P (log_balance_event user command e)
  unfolding log_balance_event
  Keeps-balance_event user command e = search keep_rules

  Keeps-command : (e : Event) → Keeps P (log_command_event e)
  Keeps-command e = Keeps-choice (λ s. s.command_hook) (Keeps-emit I e) (Keeps-pure tt)

  pub Keeps-received : (id : ℕ) → Keeps P (log_command_received id)
  unfolding log_command_received
  Keeps-received id = Keeps-command _

  pub Keeps-processed : (id : ℕ) → Keeps P (log_command_processed id)
  unfolding log_command_processed
  Keeps-processed id = Keeps-command _

  Keeps-on_redis : (f : R.Store → R.Store) → Keeps P (on_redis f)
  Keeps-on_redis f = record { keeps = λ s p. I.redis_ok s _ p }

  Keeps-read : (k : Key) (v : ℤ) → Keeps P (read_or_default k v)
  Keeps-read k v = record { keeps = λ s p. I.redis_ok s _ p }

  pub Keeps-available_cash : (user : ℕ) → Keeps P (get_available_cash_balance user)
  unfolding get_available_cash_balance
  Keeps-available_cash user = search (keep_rules, Keeps-read)

  pub Keeps-available_asset : (user : ℕ) → Keeps P (get_available_asset_balance user)
  unfolding get_available_asset_balance
  Keeps-available_asset user = search (keep_rules, Keeps-read)

  Keeps-update :
      (user command : ℕ) (e : ℕ → BalanceEvent) (k h : Key) (d : ℤ)
      → Keeps P (logged_update user command e k h d)
  Keeps-update user command e k h d = search (keep_rules, Keeps-balance_event, Keeps-on_redis)

  pub Keeps-decrease_cash :
      (user amount command : ℕ) → Keeps P (decrease_cash_escrow user amount command)
  unfolding decrease_cash_escrow
  Keeps-decrease_cash user amount command = Keeps-ignore user (Keeps-update user command _ _ _ _)

  pub Keeps-increase_cash :
      (user amount command : ℕ) → Keeps P (increase_cash_escrow user amount command)
  unfolding increase_cash_escrow
  Keeps-increase_cash user amount command = Keeps-ignore user (Keeps-update user command _ _ _ _)

  pub Keeps-decrease_asset :
      (user amount command : ℕ) → Keeps P (decrease_asset_escrow user amount command)
  unfolding decrease_asset_escrow
  Keeps-decrease_asset user amount command = search (keep_rules, Keeps-update)

  pub Keeps-increase_asset :
      (user amount command : ℕ) → Keeps P (increase_asset_escrow user amount command)
  unfolding increase_asset_escrow
  Keeps-increase_asset user amount command = search (keep_rules, Keeps-update)

  pub Keeps-settle_ask : (user q p command trade : ℕ) → Keeps P (settle_ask user q p command trade)
  unfolding settle_ask
  Keeps-settle_ask user q p command trade =
      search (keep_rules, Keeps-balance_event, Keeps-on_redis) depth 12

  pub Keeps-settle_bid : (user q p command trade : ℕ) → Keeps P (settle_bid user q p command trade)
  unfolding settle_bid
  Keeps-settle_bid user q p command trade =
      search (keep_rules, Keeps-balance_event, Keeps-on_redis) depth 12
