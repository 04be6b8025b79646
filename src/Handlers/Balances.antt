-- ===== src/Handlers/Balances.antt =====
-- `BalanceEventHandler` (src/services/event_handlers/balance_event_handler.py). Amounts are exact.
use spectuel_backend.Prelude.{
  ℕ, Bool, false, ◌&&◌, ◌||◌, Option, none, some, List, [], ◌∷◌, if◌then◌else◌, ◌==◌,
}
use spectuel_backend.Prelude.Int.{ℤ, pos, ◌+ℤ◌, ◌-ℤ◌}
use spectuel_backend.Errors.{Result, ok, err, attribute_error}

pub data BalanceEventType : Type 0 where
  cash_balance_increased cash_balance_decreased : BalanceEventType
  cash_escrow_increased cash_escrow_decreased : BalanceEventType
  asset_balance_increased asset_balance_decreased : BalanceEventType
  asset_escrow_increased asset_escrow_decreased : BalanceEventType
  asset_balance_snapshot ask_settled bid_settled : BalanceEventType

-- An event of a balance. `amount` is the event's own, for a settled bid that of its
-- `asset_balance_increased`; `symbol` is read for the types that have one.
pub record BalanceMessage : Type 0 where
  pub id : ℕ
  pub type_of : BalanceEventType
  pub user_id : ℕ
  pub command_id : ℕ
  pub symbol : ℕ
  pub amount : ℕ

-- A row of `BalanceEvents`; a row of `EventLogs` is the event's id.
pub record BalanceEventRow : Type 0 where
  pub event_id : ℕ
  pub type_of : BalanceEventType
  pub user_id : ℕ
  pub command_id : ℕ

pub record AssetRow : Type 0 where
  pub balance : ℤ
  pub escrow_balance : ℤ

pub record BalanceTables : Type 0 where
  pub instruments : ℕ → Option ℕ
  pub asset_balances : ℕ → ℕ → Option AssetRow
  pub balance_events : List BalanceEventRow
  pub event_logs : List ℕ

abbrev pub kind_place : BalanceEventType → ℕ
kind_place BalanceEventType.cash_balance_increased = 0
kind_place BalanceEventType.cash_balance_decreased = 1
kind_place BalanceEventType.cash_escrow_increased = 2
kind_place BalanceEventType.cash_escrow_decreased = 3
kind_place BalanceEventType.asset_balance_increased = 4
kind_place BalanceEventType.asset_balance_decreased = 5
kind_place BalanceEventType.asset_escrow_increased = 6
kind_place BalanceEventType.asset_escrow_decreased = 7
kind_place BalanceEventType.asset_balance_snapshot = 8
kind_place BalanceEventType.ask_settled = 9
kind_place BalanceEventType.bid_settled = 10

-- The condition of the query for a duplicate.
abbrev pub is_same_balance_event : BalanceMessage → BalanceEventRow → Bool
is_same_balance_event e r =
    (r.command_id == e.command_id)
    && ((r.user_id == e.user_id) && (kind_place r.type_of == kind_place e.type_of))

abbrev pub is_booked : BalanceMessage → List BalanceEventRow → Bool
is_booked e [] = false
is_booked e (r ∷ rs) = is_same_balance_event e r || is_booked e rs

abbrev pub has_balance_id : ℕ → List BalanceEventRow → Bool
has_balance_id id [] = false
has_balance_id id (r ∷ rs) = (r.event_id == id) || has_balance_id id rs

-- A write of the row of an instrument and a user.
abbrev pub put_asset : ℕ → ℕ → AssetRow → (ℕ → ℕ → Option AssetRow) → ℕ → ℕ → Option AssetRow
put_asset instrument user r d i u = if (i == instrument) && (u == user) then some r else d i u

-- A change of that row, by what it is.
abbrev pub change_asset : ℕ → ℕ → Option AssetRow → BalanceTables → BalanceTables
change_asset instrument user none t = t
change_asset instrument user (some r) t = record t {
  asset_balances = put_asset instrument user r t.asset_balances;
}

abbrev pub increased_balance : ℕ → Option AssetRow → Option AssetRow
increased_balance amount none = some (record { balance = pos amount; escrow_balance = pos 0 })
increased_balance amount (some r) = some (record r { balance = r.balance +ℤ pos amount })

abbrev pub decreased_balance : ℕ → Option AssetRow → Option AssetRow
decreased_balance amount none = none
decreased_balance amount (some r) = some (record r { balance = r.balance -ℤ pos amount })

abbrev pub increased_escrow : ℕ → Option AssetRow → Option AssetRow
increased_escrow amount none = some (record { balance = pos 0; escrow_balance = pos amount })
increased_escrow amount (some r) =
    some (record r { escrow_balance = r.escrow_balance +ℤ pos amount })

abbrev pub decreased_escrow : ℕ → Option AssetRow → Option AssetRow
decreased_escrow amount none = none
decreased_escrow amount (some r) =
    some (record r { escrow_balance = r.escrow_balance -ℤ pos amount })

-- The four methods look up the instrument first, and do nothing where there is none.
abbrev pub on_instrument :
    Option ℕ → ℕ → (Option AssetRow → Option AssetRow) → BalanceTables → BalanceTables
on_instrument none user f t = t
on_instrument (some instrument) user f t =
    change_asset instrument user (f (t.asset_balances instrument user)) t

unfoldable pub adjust :
    BalanceMessage → (ℕ → Option AssetRow → Option AssetRow) → BalanceTables → BalanceTables
adjust e f t = on_instrument (t.instruments e.symbol) e.user_id (f e.amount) t

-- `_adjust_asset_balance`. An `AskSettledEvent` has no `asset_balance_increased`.
unfoldable pub adjust_asset_balance :
    BalanceEventType → BalanceMessage → BalanceTables → Result BalanceTables
unfolding adjust
adjust_asset_balance BalanceEventType.asset_balance_increased e t =
    ok (adjust e increased_balance t)
adjust_asset_balance BalanceEventType.asset_balance_decreased e t =
    ok (adjust e decreased_balance t)
adjust_asset_balance BalanceEventType.asset_escrow_increased e t = ok (adjust e increased_escrow t)
adjust_asset_balance BalanceEventType.asset_escrow_decreased e t = ok (adjust e decreased_escrow t)
adjust_asset_balance BalanceEventType.ask_settled e t = err attribute_error
adjust_asset_balance BalanceEventType.bid_settled e t = ok (adjust e increased_balance t)
adjust_asset_balance _ e t = ok t

abbrev pub book_event : BalanceMessage → BalanceTables → BalanceTables
book_event e t = record t {
  balance_events =
      record {
        event_id = e.id;
        type_of = e.type_of;
        user_id = e.user_id;
        command_id = e.command_id;
      }
      ∷ t.balance_events;
  event_logs = e.id ∷ t.event_logs;
}

abbrev pub commit_or_keep : BalanceTables → Result BalanceTables → BalanceTables
commit_or_keep t (err x) = t
commit_or_keep t (ok t') = t'

-- `handle_event`, for an event that its class accepts
unfoldable pub handle_balance_event : BalanceMessage → BalanceTables → BalanceTables
unfolding adjust_asset_balance
handle_balance_event e t =
    if is_booked e t.balance_events
    then t
    else if has_balance_id e.id t.balance_events
    then t
    else commit_or_keep t (adjust_asset_balance e.type_of e (book_event e t))
