-- ===== src/Matching/Trade.antt =====
-- `_process_trade` and `_log_fill_event` (src/engine/matching_engines/spot_engine.py): the trade
-- is logged, both orders take the fill, their strategies react, and then the balances move.
use spectuel_backend.Prelude.{ℕ, ◌*◌, ◌==◌, if◌then◌else◌, some}
use spectuel_backend.Enums.{Side, LiquidityRole, OrderEventType}
use spectuel_backend.PriceLevel.{PriceLevel}
use spectuel_backend.Sorted.{SortedDict}
use spectuel_backend.Redis.{Redis}
use spectuel_backend.Order.{Order, add_fill}
use spectuel_backend.State.{
  M, deref, assign, gets, number, price_of, new_uuid, book_remove, store_remove, when, ◌>>=◌, ◌>>◌,
}
use spectuel_backend.Logger.{log_trade_event}
use spectuel_backend.Balance.{increase_cash_escrow, increase_asset_escrow, settle_bid, settle_ask}
use spectuel_backend.Strategy.{filled_by, log_order, is_full}

-- The event of a fill.
abbrev pub fill_event : Order → OrderEventType
fill_event o =
    if is_full o then OrderEventType.order_filled else OrderEventType.order_partially_filled

module _ ⦃D : SortedDict PriceLevel⦄ ⦃R : Redis⦄ where
  -- `_log_fill_event`
  unfoldable pub log_fill_event : ℕ → M (Unit {0})
  log_fill_event r = do o ← deref r; log_order (fill_event o) r

  -- On its first fill an order puts its whole amount into escrow.
  abbrev pub escrow_side : Side → ℕ → M (Unit {0})
  escrow_side Side.bid r = do
    o ← deref r
    p ← price_of r
    price ← number p
    command ← gets (λ s. s.cur_command_id)
    increase_cash_escrow o.user_id (o.quantity * price) command
  escrow_side Side.ask r = do
    o ← deref r
    command ← gets (λ s. s.cur_command_id)
    increase_asset_escrow o.user_id o.quantity command

  unfoldable pub escrow_first_fill : ℕ → ℕ → M (Unit {0})
  escrow_first_fill previous r = do o ← deref r; when (previous == 0) (escrow_side o.side r)

  -- The settlement of both sides, the taker's first.
  abbrev pub settle_side : Side → ℕ → ℕ → ℕ → ℕ → ℕ → ℕ → ℕ → M (Unit {0})
  settle_side Side.bid taker maker quantity price command taker_trade maker_trade = do
    settle_bid taker quantity price command taker_trade
    settle_ask maker quantity price command maker_trade
  settle_side Side.ask taker maker quantity price command taker_trade maker_trade = do
    settle_ask taker quantity price command taker_trade
    settle_bid maker quantity price command maker_trade

  -- A full maker leaves the book and the store.
  unfoldable pub retire_maker : ℕ → ℕ → M (Unit {0})
  retire_maker maker price = do
    m ← deref maker
    when (is_full m) (do book_remove maker (some price); store_remove maker)

  unfoldable pub move_balances : ℕ → ℕ → ℕ → ℕ → ℕ → ℕ → ℕ → ℕ → M (Unit {0})
  unfolding escrow_first_fill
  move_balances taker maker taker_before maker_before quantity price taker_trade maker_trade = do
    escrow_first_fill maker_before maker
    escrow_first_fill taker_before taker
    t ← deref taker
    m ← deref maker
    command ← gets (λ s. s.cur_command_id)
    settle_side t.side t.user_id m.user_id quantity price command taker_trade maker_trade

  unfoldable pub fill_orders : ℕ → ℕ → ℕ → ℕ → M (Unit {0})
  unfolding log_fill_event
  fill_orders taker maker quantity price = do
    assign taker (add_fill quantity price)
    assign maker (add_fill quantity price)
    log_fill_event taker
    log_fill_event maker
    t ← deref taker
    m ← deref maker
    filled_by t.strategy_type taker
    filled_by m.strategy_type maker

  -- `_process_trade`
  unfoldable pub process_trade : ℕ → ℕ → ℕ → ℕ → M (Unit {0})
  unfolding fill_orders retire_maker move_balances
  process_trade taker maker quantity price = do
    taker_trade ← new_uuid
    maker_trade ← new_uuid
    t ← deref taker
    m ← deref maker
    log_trade_event t.user_id taker_trade t.id quantity price LiquidityRole.taker
    log_trade_event m.user_id maker_trade m.id quantity price LiquidityRole.maker
    fill_orders taker maker quantity price
    retire_maker maker price
    move_balances taker maker t.executed_quantity m.executed_quantity quantity price taker_trade
        maker_trade
