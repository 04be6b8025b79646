-- ===== src/Handlers/Orders.antt =====
-- `OrderEventHandler` (src/services/event_handlers/order_event_handler.py).
use spectuel_backend.Prelude.{
  ℕ, Bool, false, ◌&&◌, ◌||◌, Option, none, some, List, [], ◌∷◌, if◌then◌else◌, ◌==◌, put,
}
use spectuel_backend.Errors.{Result, ok, err, key_error, attribute_error}
use spectuel_backend.Enums.{OrderStatus, OrderEventType}

-- The columns of a row of `Orders` that the handler reads or writes.
pub record OrderRecord : Type 0 where
  pub user_id : ℕ
  pub symbol : ℕ
  pub status : OrderStatus
  pub executed_quantity : ℕ
  pub limit_price : Option ℕ
  pub stop_price : Option ℕ

-- An event of an order. `symbol` is `none` for the types that have none, and
-- `order_executed_quantity` is the entry of the event's order dict.
pub record OrderMessage : Type 0 where
  pub id : ℕ
  pub type_of : OrderEventType
  pub order_id : ℕ
  pub command_id : ℕ
  pub symbol : Option ℕ
  pub order_executed_quantity : Option ℕ
  pub limit_price : Option ℕ
  pub stop_price : Option ℕ

-- A row of `OrderEvents`; a row of `EventLogs` is the event's id.
pub record OrderEventRow : Type 0 where
  pub event_id : ℕ
  pub type_of : OrderEventType
  pub order_id : ℕ
  pub user_id : ℕ
  pub command_id : ℕ
  pub symbol : ℕ

pub record OrderTables : Type 0 where
  pub orders : ℕ → Option OrderRecord
  pub order_events : List OrderEventRow
  pub event_logs : List ℕ

-- The place of a type in the enumeration, which tells two apart.
abbrev pub type_place : OrderEventType → ℕ
type_place OrderEventType.order_placed = 0
type_place OrderEventType.order_partially_filled = 1
type_place OrderEventType.order_filled = 2
type_place OrderEventType.order_modified = 3
type_place OrderEventType.order_modify_rejected = 4
type_place OrderEventType.order_cancelled = 5

-- The condition of the query for a duplicate.
abbrev pub is_same_event : OrderMessage → OrderEventRow → Bool
is_same_event e r =
    (r.command_id == e.command_id)
    && ((r.order_id == e.order_id) && (type_place r.type_of == type_place e.type_of))

abbrev pub is_recorded : OrderMessage → List OrderEventRow → Bool
is_recorded e [] = false
is_recorded e (r ∷ rs) = is_same_event e r || is_recorded e rs

-- A row with the event's primary key.
abbrev pub has_event_id : ℕ → List OrderEventRow → Bool
has_event_id id [] = false
has_event_id id (r ∷ rs) = (r.event_id == id) || has_event_id id rs

abbrev pub set_status : OrderStatus → OrderRecord → OrderRecord
set_status s o = record o { status = s }

-- `_handle_order_modified` on the row
abbrev pub new_price : Option ℕ → Option ℕ → Option ℕ
new_price none old = old
new_price (some p) old = some p

abbrev pub set_prices : OrderMessage → OrderRecord → OrderRecord
set_prices e o = record o {
  limit_price = new_price e.limit_price o.limit_price;
  stop_price = new_price e.stop_price o.stop_price;
}

-- `event.order['executed_quantity']`
abbrev pub fill_row : Option ℕ → OrderRecord → Result OrderRecord
fill_row none o = err key_error
fill_row (some q) o = ok (record o { executed_quantity = q; status = OrderStatus.filled })

-- The handlers on the order's row. An `OrderPartiallyFilledEvent` has no `executed_quantity`.
unfoldable pub handle_row : OrderEventType → OrderMessage → OrderRecord → Result OrderRecord
handle_row OrderEventType.order_placed e o = ok (set_status OrderStatus.placed o)
handle_row OrderEventType.order_partially_filled e o = err attribute_error
handle_row OrderEventType.order_filled e o = fill_row e.order_executed_quantity o
handle_row OrderEventType.order_modified e o = ok (set_prices e o)
handle_row OrderEventType.order_modify_rejected e o = ok o
handle_row OrderEventType.order_cancelled e o = ok (set_status OrderStatus.cancelled o)

abbrev pub symbol_for : Option ℕ → OrderRecord → ℕ
symbol_for none o = o.symbol
symbol_for (some s) o = s

abbrev pub event_row : OrderMessage → OrderRecord → OrderEventRow
event_row e o = record {
  event_id = e.id;
  type_of = e.type_of;
  order_id = e.order_id;
  user_id = o.user_id;
  command_id = e.command_id;
  symbol = symbol_for e.symbol o;
}

-- The rows that the transaction writes, if nothing raises.
abbrev pub commit_row : OrderMessage → OrderRecord → Result OrderRecord → OrderTables → OrderTables
commit_row e o (err x) t = t
commit_row e o (ok o') t = record {
  orders = put t.orders e.order_id o';
  order_events = event_row e o ∷ t.order_events;
  event_logs = e.id ∷ t.event_logs;
}

-- The rest of the transaction, by the order's row.
abbrev pub handle_found : OrderMessage → Option OrderRecord → OrderTables → OrderTables
handle_found e none t = t
handle_found e (some o) t =
    if has_event_id e.id t.order_events then t else commit_row e o (handle_row e.type_of e o) t

-- `handle_event`, for an event that its class accepts
unfoldable pub handle_order_event : OrderMessage → OrderTables → OrderTables
unfolding handle_row
handle_order_event e t =
    if is_recorded e t.order_events then t else handle_found e (t.orders e.order_id) t
