-- ===== src/Engine/Cancelled.antt =====
-- The cancellation of a resting single bid (src/engine/strategies/single_strategy.py).
use spectuel_backend.Prelude.{
  ℕ, suc, ◌-◌, ◌*◌, ◌≡◌, refl, true, false, some, none, ◌==◌, ◌<◌, ◌≢◌, ltb, arith, ap, ◌∙◌,
  drop_key, ◌∷◌, Option,
}
use spectuel_backend.Prelude.Int.{ℤ, pos, ◌-ℤ◌, ◌+ℤ◌, int_laws}
use spectuel_backend.Errors.{done}
use spectuel_backend.Enums.{Side, OrderType, OrderEventType}
use spectuel_backend.PriceLevel.{PriceLevel}
use spectuel_backend.Sorted.{SortedDict}
use spectuel_backend.Redis.{Redis, Key}
use spectuel_backend.Order.{Order, holds_order}
use spectuel_backend.OrderBook
use spectuel_backend.OrderBook.{Market}
use spectuel_backend.State.{
  State, order_event, balance_event, book_order, set_market, run_market, store_remove, BalanceEvent,
  cash_escrow_decreased,
}
use spectuel_backend.State.Runs.{after_done}
use spectuel_backend.Engine.Steps.{log_order_done, price_done}
use spectuel_backend.Logger.{log_balance_event}
use spectuel_backend.Balance.{decrease_cash_escrow, minus}
use spectuel_backend.Balance.Scripts.{update_balance}
use spectuel_backend.Balance.Once.{amount, same_key_refl}
use spectuel_backend.Balance.Steps.{amount-apply_once}
use spectuel_backend.Strategy.{release_escrow, single_cancel}

-- A limit bid of a user that is not the system's and is not linked to other orders, at `p`, of
-- which something is not executed.
pub record IsOpenBid (system p : ℕ) (o : Order) : Type 0 where
  pub bid : o.side ≡ Side.bid
  pub limit : o.order_type ≡ OrderType.limit
  pub at_price : o.limit_price ≡ some p
  pub users : o.user_id ≢ system
  pub unlinked : holds_order o ≡ false
  pub unfilled : o.executed_quantity < o.quantity

module _ ⦃D : SortedDict PriceLevel⦄ ⦃R : Redis⦄ where
  module _ (r p : ℕ) (s : State) (v : IsOpenBid s.system_user_id p (s.objects r)) where
    other_user : ((s.objects r).user_id == s.system_user_id) ≡ false
    other_user = let ne = v.users in ground arith

    abbrev rest : ℕ
    rest = (s.objects r).quantity - (s.objects r).executed_quantity

    abbrev released : State
    released = record s {
      next_uuid = suc s.next_uuid;
      log =
          balance_event (s.objects r).user_id s.cur_command_id
            (cash_escrow_decreased s.next_uuid (rest * p))
          ∷ s.log;
      redis =
          update_balance (Key.cash_escrow (s.objects r).user_id)
            (Key.cash_escrow_log (s.objects r).user_id) s.next_uuid (minus (rest * p)) s.redis;
    }

    wal_done :
        (n : ℕ) (e : BalanceEvent)
        → log_balance_event (s.objects r).user_id s.cur_command_id e (record s { next_uuid = n })
          ≡ done tt (record s {
            next_uuid = n;
            log = balance_event (s.objects r).user_id s.cur_command_id e ∷ s.log;
          })
    unfolding log_balance_event
    wal_done n e = rw other_user refl

    decrease_done :
        decrease_cash_escrow (s.objects r).user_id (rest * p) s.cur_command_id s ≡ done tt released
    unfolding decrease_cash_escrow
    decrease_done = rw other_user (
        after_done _ (wal_done (suc s.next_uuid) (cash_escrow_decreased s.next_uuid (rest * p)))
          refl)

    some_left : ltb 0 rest ≡ true
    some_left = let lt = v.unfilled in ground arith

    release_done : release_escrow r s ≡ done tt released
    unfolding release_escrow
    release_done =
        rw (v.bid, some_left) (after_done _ (price_done r s p v.limit v.at_price) decrease_done)

  drop_same : (f : ℕ → Option ℕ) (k : ℕ) → drop_key f k k ≡ none
  drop_same f k = ground arith

  minus_e : (a : ℤ) (n : ℕ) → a +ℤ (pos 0 -ℤ pos n) ≡ a -ℤ pos n
  minus_e a n = omega int_laws

  -- If an order is a limit bid of a user other than the system's, linked to no other order and
  -- not fully executed, the book's removal of it at its price succeeds, and the next event id
  -- is new to the user's escrow hash, then the cancellation of the single order succeeds,
  -- leaves the book that the removal leaves, takes the order's id out of the order store, and
  -- lowers the user's cash escrow by the unfilled quantity times the price, also where nothing
  -- was executed before.
  pub cancel_open_bid :
      (r p : ℕ) (m : Market) (s : State)
      → IsOpenBid s.system_user_id p (s.objects r)
      → OrderBook.remove (book_order r (s.objects r)) (some p) s.market ≡ done tt m
      → R.hexists s.redis (Key.cash_escrow_log (s.objects r).user_id) s.next_uuid ≡ false
      → let o = s.objects r in
        (s' : State) × (single_cancel r s ≡ done tt s')
        × (s'.market ≡ m)
        × (s'.order_store o.id ≡ none)
        × (amount s'.redis (Key.cash_escrow o.user_id)
            ≡ amount s.redis (Key.cash_escrow o.user_id)
              -ℤ pos ((o.quantity - o.executed_quantity) * p))
  unfolding single_cancel store_remove update_balance
  cancel_open_bid r p m s v removed new =
      let o : Order = s.objects r in
      let s1 : State = record s {
        log = order_event OrderEventType.order_cancelled o.user_id o.id s.cur_command_id o ∷ s.log;
      } in
      let s2 : State = set_market s1 m in
      let s3 : State = record s2 { order_store = drop_key s.order_store o.id } in
      (
        released r p s3 v,
        after_done _
            (log_order_done r s OrderEventType.order_cancelled refl (other_user r p s v) v.unlinked)
            (after_done _ (price_done r s1 p v.limit v.at_price)
              (after_done _ (ap (run_market s1) removed) (release_done r p s3 v))),
        refl,
        drop_same s.order_store o.id,
        amount-apply_once (Key.cash_escrow o.user_id) (Key.cash_escrow_log o.user_id) s.next_uuid _
              _ s.redis (Key.cash_escrow o.user_id) new refl
            ∙ rw (same_key_refl (Key.cash_escrow o.user_id)) (minus_e _ _),
      )
