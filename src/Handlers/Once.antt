-- ===== src/Handlers/Once.antt =====
-- What the event handlers (src/services/event_handlers) make of an event that comes again.
use spectuel_backend.Prelude.{
  ℕ, ◌≡◌, refl, ◌∙◌, ◌⊎◌, inl, inr, true, false, Option, none, some, List, [], ◌∷◌, Bool-cases,
  Option-cases, equal_refl,
}
use spectuel_backend.Errors.{Result, ok, err}
use spectuel_backend.Handlers.Orders.{
  OrderMessage, OrderRecord, OrderTables, is_recorded, type_place, has_event_id, handle_row,
  commit_row, handle_found, handle_order_event,
}
use spectuel_backend.Handlers.Balances.{
  BalanceMessage, BalanceEventRow, BalanceTables, BalanceEventType, AssetRow, is_booked, kind_place,
  has_balance_id, change_asset, increased_balance, adjust, adjust_asset_balance, book_event,
  commit_or_keep, handle_balance_event,
}

-- Handling an event leaves the tables or records the event.
commit-recorded :
    (e : OrderMessage) (o : OrderRecord) (r : Result OrderRecord) (t : OrderTables)
    → (commit_row e o r t ≡ t) ⊎ (is_recorded e (commit_row e o r t).order_events ≡ true)
commit-recorded e o (err x) t = inl refl
commit-recorded e o (ok o') t =
    inr
      (rw (equal_refl e.command_id, equal_refl e.order_id, equal_refl (type_place e.type_of)) refl)

found-recorded :
    (e : OrderMessage) (o : Option OrderRecord) (t : OrderTables)
    → (handle_found e o t ≡ t) ⊎ (is_recorded e (handle_found e o t).order_events ≡ true)
found-recorded e none t = inl refl
found-recorded e (some o) t = elim (Bool-cases (has_event_id e.id t.order_events)) [
  | inl taken ↦ rw taken (inl refl)
  | inr new ↦ rw new (commit-recorded e o (handle_row e.type_of e o) t)
]

pub order_event_recorded :
    (e : OrderMessage) (t : OrderTables)
    → (handle_order_event e t ≡ t) ⊎ (is_recorded e (handle_order_event e t).order_events ≡ true)
unfolding handle_order_event
order_event_recorded e t = elim (Bool-cases (is_recorded e t.order_events)) [
  | inl again ↦ rw again (inl refl)
  | inr new ↦ rw new (found-recorded e (t.orders e.order_id) t)
]

recorded_kept :
    (e : OrderMessage) (t : OrderTables)
    → is_recorded e t.order_events ≡ true
    → handle_order_event e t ≡ t
unfolding handle_order_event
recorded_kept e t r = rw r refl

-- An order event that is handled twice leaves the tables that it leaves when it is handled once,
-- whatever its type and the tables.
pub handle_order_event_twice :
    (e : OrderMessage) (t : OrderTables)
    → handle_order_event e (handle_order_event e t) ≡ handle_order_event e t
handle_order_event_twice e t = elim (order_event_recorded e t) [
  | inl same ↦ rw (same, same)
  | inr recorded ↦ recorded_kept e (handle_order_event e t) recorded
]

change_asset-events :
    (instrument user : ℕ) (r : Option AssetRow) (t : BalanceTables)
    → (change_asset instrument user r t).balance_events ≡ t.balance_events
change_asset-events instrument user none t = refl
change_asset-events instrument user (some r) t = refl

adjust-events :
    (e : BalanceMessage) (f : ℕ → Option AssetRow → Option AssetRow) (t : BalanceTables)
    → (adjust e f t).balance_events ≡ t.balance_events
unfolding adjust
adjust-events e f t = elim (Option-cases (t.instruments e.symbol)) [
  | inl missing ↦ rw missing refl
  | inr (i, found) ↦ rw found (change_asset-events i e.user_id (f e.amount _) t)
]

booked_new :
    (e : BalanceMessage) (t : BalanceTables) → is_booked e (book_event e t).balance_events ≡ true
booked_new e t =
    rw (equal_refl e.command_id, equal_refl e.user_id, equal_refl (kind_place e.type_of)) refl

-- What an adjustment makes of the booked event: it is undone, or the event stays booked.
adjust_asset_balance-booked :
    (k : BalanceEventType) (e : BalanceMessage) (t : BalanceTables)
    → (commit_or_keep t (adjust_asset_balance k e (book_event e t)) ≡ t)
      ⊎ (is_booked e (commit_or_keep t (adjust_asset_balance k e (book_event e t))).balance_events
          ≡ true)
unfolding adjust_asset_balance
adjust_asset_balance-booked BalanceEventType.ask_settled e t = inl refl
adjust_asset_balance-booked BalanceEventType.asset_balance_increased e t =
    inr (rw (adjust-events e _ (book_event e t)) (booked_new e t))
adjust_asset_balance-booked BalanceEventType.asset_balance_decreased e t =
    inr (rw (adjust-events e _ (book_event e t)) (booked_new e t))
adjust_asset_balance-booked BalanceEventType.asset_escrow_increased e t =
    inr (rw (adjust-events e _ (book_event e t)) (booked_new e t))
adjust_asset_balance-booked BalanceEventType.asset_escrow_decreased e t =
    inr (rw (adjust-events e _ (book_event e t)) (booked_new e t))
adjust_asset_balance-booked BalanceEventType.bid_settled e t =
    inr (rw (adjust-events e _ (book_event e t)) (booked_new e t))
adjust_asset_balance-booked BalanceEventType.cash_balance_increased e t = inr (booked_new e t)
adjust_asset_balance-booked BalanceEventType.cash_balance_decreased e t = inr (booked_new e t)
adjust_asset_balance-booked BalanceEventType.cash_escrow_increased e t = inr (booked_new e t)
adjust_asset_balance-booked BalanceEventType.cash_escrow_decreased e t = inr (booked_new e t)
adjust_asset_balance-booked BalanceEventType.asset_balance_snapshot e t = inr (booked_new e t)

balance_event_booked :
    (e : BalanceMessage) (t : BalanceTables)
    → (handle_balance_event e t ≡ t)
      ⊎ (is_booked e (handle_balance_event e t).balance_events ≡ true)
unfolding handle_balance_event
balance_event_booked e t = elim (Bool-cases (is_booked e t.balance_events)) [
  | inl again ↦ rw again (inl refl)
  | inr new ↦ rw new (elim (Bool-cases (has_balance_id e.id t.balance_events)) [
    | inl taken ↦ rw taken (inl refl)
    | inr free ↦ rw free (adjust_asset_balance-booked e.type_of e t)
  ])
]

booked_kept :
    (e : BalanceMessage) (t : BalanceTables)
    → is_booked e t.balance_events ≡ true
    → handle_balance_event e t ≡ t
unfolding handle_balance_event
booked_kept e t r = rw r refl

-- A balance event that is handled twice leaves the tables that it leaves when it is handled once,
-- whatever its type and the tables.
pub handle_balance_event_twice :
    (e : BalanceMessage) (t : BalanceTables)
    → handle_balance_event e (handle_balance_event e t) ≡ handle_balance_event e t
handle_balance_event_twice e t = elim (balance_event_booked e t) [
  | inl same ↦ rw (same, same)
  | inr booked ↦ booked_kept e (handle_balance_event e t) booked
]

same_key :
    (e e' : BalanceMessage) (rs : List BalanceEventRow)
    → e'.command_id ≡ e.command_id
    → e'.user_id ≡ e.user_id
    → e'.type_of ≡ e.type_of
    → is_booked e' rs ≡ is_booked e rs
same_key e e' [] c u k = refl
same_key e e' (r ∷ rs) c u k = rw (same_key e e' rs c u k, c, u, k) refl

bid_booked :
    (e : BalanceMessage) (t : BalanceTables)
    → e.type_of ≡ BalanceEventType.bid_settled
    → has_balance_id e.id t.balance_events ≡ false
    → is_booked e (handle_balance_event e t).balance_events ≡ true
unfolding handle_balance_event adjust_asset_balance
bid_booked e t k new = elim (Bool-cases (is_booked e t.balance_events)) [
  | inl again ↦ rw (again, again) refl
  | inr fresh ↦
      rw (fresh, new) (rw k (settled (record e { type_of = BalanceEventType.bid_settled })))
]
  where
    settled :
        (b : BalanceMessage)
        → is_booked b (adjust b increased_balance (book_event b t)).balance_events ≡ true
    settled b = rw (adjust-events b increased_balance (book_event b t)) (booked_new b t)

-- If a settled bid with a new event id is handled, then any further settled bid with the same
-- command and user leaves the tables as they are, whatever its event id and amount: a taker that
-- one command fills in two trades is credited for the first alone.
pub second_settlement_dropped :
    (e e' : BalanceMessage) (t : BalanceTables)
    → e.type_of ≡ BalanceEventType.bid_settled
    → has_balance_id e.id t.balance_events ≡ false
    → e'.command_id ≡ e.command_id
    → e'.user_id ≡ e.user_id
    → e'.type_of ≡ e.type_of
    → handle_balance_event e' (handle_balance_event e t) ≡ handle_balance_event e t
second_settlement_dropped e e' t k new c u k' =
    booked_kept e' (handle_balance_event e t)
      (same_key e e' (handle_balance_event e t).balance_events c u k' ∙ bid_booked e t k new)
