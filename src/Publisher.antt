-- ===== src/Publisher.antt =====
-- `OrderBookPublisher` (src/services/orderbook_publisher/service.py): the quantity at each price of
-- each instrument, rebuilt from the rows of the orders and from the engine's events. Quantities are
-- whole hundredths of a unit, so a quantity of at most 0.00000001 is one of at most 0. The locks,
-- which one task at a time holds, the Kafka clients and the clock are left out.

pub mod Shown
pub mod Tracked
pub mod Runs
pub mod Snapshot
pub mod Top
pub mod Published
use spectuel_backend.Prelude.{
  ℕ, zero, suc, ◌+◌, ◌-◌, Bool, true, false, ◌&&◌, not, Option, none, some, List, [], ◌∷◌,
  if◌then◌else◌, leb, ltb, get_item, set_item, del_item, number_keyed, option_keyed,
}
use spectuel_backend.Enums.{Side, OrderType, OrderStatus, LiquidityRole, is_bid}

-- A price is `None` where an order has neither a limit nor a stop price.
pub record OrderInfo : Type 0 where
  pub price : Option ℕ
  pub side : Side
  pub remaining_qty : ℕ

pub record BookState : Type 0 where
  pub bids : List (Option ℕ × ℕ)
  pub asks : List (Option ℕ × ℕ)

pub record Publisher : Type 0 where
  pub books : List (ℕ × BookState)
  pub active_orders : List (ℕ × OrderInfo)

-- `BookState()`
abbrev pub empty_state : BookState
empty_state = record { bids = []; asks = [] }

abbrev pub empty_publisher : Publisher
empty_publisher = record { books = []; active_orders = [] }

abbrev pub or_new : Option BookState → BookState
or_new none = empty_state
or_new (some b) = b

abbrev pub or_zero : Option ℕ → ℕ
or_zero none = 0
or_zero (some q) = q

-- `a or b` for two prices
abbrev pub or_price : Option ℕ → Option ℕ → Option ℕ
or_price none b = b
or_price (some zero) b = b
or_price (some (suc n)) b = some (suc n)

abbrev pub levels_of : Side → BookState → List (Option ℕ × ℕ)
levels_of Side.bid b = b.bids
levels_of Side.ask b = b.asks

abbrev pub set_levels_of : Side → List (Option ℕ × ℕ) → BookState → BookState
set_levels_of Side.bid d b = record b { bids = d }
set_levels_of Side.ask d b = record b { asks = d }

-- `self._books[symbol]`, which makes a missing book
abbrev pub book_of : ℕ → Publisher → BookState
book_of symbol p = or_new (get_item p.books symbol)

-- A change of one side of the book of a symbol.
abbrev pub change_levels :
    ℕ → Side → (List (Option ℕ × ℕ) → List (Option ℕ × ℕ)) → Publisher → Publisher
change_levels symbol side f p =
    let b = book_of symbol p in
    record p { books = set_item symbol (set_levels_of side (f (levels_of side b)) b) p.books }

-- `book.bids[price] += qty` on a `defaultdict(float)`
unfoldable pub increment_level : Option ℕ → ℕ → List (Option ℕ × ℕ) → List (Option ℕ × ℕ)
increment_level price qty d = set_item price (or_zero (get_item d price) + qty) d

-- `_decrement_level`
unfoldable pub decrement_level : Option ℕ → ℕ → List (Option ℕ × ℕ) → List (Option ℕ × ℕ)
decrement_level price qty d = elim (get_item d price) [
  | none ↦ d
  | some q ↦ if leb q qty then del_item price d else set_item price (q - qty) d
]

-- The dict of an order, as far as the publisher reads it.
pub record OrderData : Type 0 where
  pub quantity : ℕ
  pub executed_quantity : ℕ
  pub limit_price : Option ℕ
  pub stop_price : Option ℕ
  pub side : Side

-- The end of `_handle_order_placed`, and of a round of `_rehydrate_state`.
unfoldable pub add_order : ℕ → ℕ → Option ℕ → Side → ℕ → Publisher → Publisher
unfolding increment_level
add_order symbol order_id price side qty p =
    let q = change_levels symbol side (increment_level price qty) p in
    record q {
      active_orders =
          set_item order_id (record { price = price; side = side; remaining_qty = qty })
            q.active_orders;
    }

-- `_handle_order_placed`
unfoldable pub handle_order_placed : ℕ → ℕ → OrderData → Publisher → Publisher
unfolding add_order
handle_order_placed symbol order_id o p =
    if leb o.quantity o.executed_quantity
    then p
    else add_order symbol order_id (or_price o.limit_price o.stop_price) o.side
        (o.quantity - o.executed_quantity) p

-- `_handle_order_cancelled`, by what the pop found
abbrev pub cancel_found : ℕ → ℕ → Option OrderInfo → Publisher → Publisher
cancel_found symbol order_id none p = p
cancel_found symbol order_id (some i) p =
    let q = record p { active_orders = del_item order_id p.active_orders } in
    change_levels symbol i.side (decrement_level i.price i.remaining_qty) q

unfoldable pub handle_order_cancelled : ℕ → ℕ → Publisher → Publisher
unfolding decrement_level
handle_order_cancelled symbol order_id p =
    cancel_found symbol order_id (get_item p.active_orders order_id) p

-- `_handle_trade` for a maker, by the maker's order
abbrev pub trade_found : ℕ → ℕ → ℕ → Option OrderInfo → Publisher → Publisher
trade_found symbol order_id qty none p = p
trade_found symbol order_id qty (some i) p =
    let q = change_levels symbol i.side (decrement_level i.price qty) p in
    if leb i.remaining_qty qty
    then record q { active_orders = del_item order_id q.active_orders }
    else record q {
      active_orders =
          set_item order_id (record i { remaining_qty = i.remaining_qty - qty }) q.active_orders;
    }

unfoldable pub handle_trade : ℕ → ℕ → LiquidityRole → ℕ → Publisher → Publisher
unfolding decrement_level
handle_trade symbol order_id LiquidityRole.maker qty p =
    trade_found symbol order_id qty (get_item p.active_orders order_id) p
handle_trade symbol order_id LiquidityRole.taker qty p = p

-- The messages of the two topics.
pub data Message : Type 0 where
  order_placed : (symbol order_id : ℕ) → OrderData → Message
  order_cancelled : (symbol order_id : ℕ) → Message
  new_trade : (symbol order_id : ℕ) → LiquidityRole → (quantity : ℕ) → Message
  unread : Message

-- A round of `_consume_loop`
unfoldable pub consume : Message → Publisher → Publisher
unfolding handle_order_placed handle_order_cancelled handle_trade
consume (Message.order_placed symbol id o) p = handle_order_placed symbol id o p
consume (Message.order_cancelled symbol id) p = handle_order_cancelled symbol id p
consume (Message.new_trade symbol id role qty) p = handle_trade symbol id role qty p
consume Message.unread p = p

abbrev pub consume_all : List Message → Publisher → Publisher
consume_all [] p = p
consume_all (m ∷ ms) p = consume_all ms (consume m p)

-- A row of the table of orders.
pub record OrderRow : Type 0 where
  pub order_id : ℕ
  pub symbol : ℕ
  pub status : OrderStatus
  pub order_type : OrderType
  pub terms : OrderData

-- The condition of the query.
abbrev pub is_open : OrderStatus → Bool
is_open OrderStatus.placed = true
is_open OrderStatus.partially_filled = true
is_open _ = false

abbrev pub is_market : OrderType → Bool
is_market OrderType.market = true
is_market _ = false

abbrev pub rehydrate_row : OrderRow → Publisher → Publisher
rehydrate_row r p =
    let o = r.terms in
    if ltb o.executed_quantity o.quantity
    then add_order r.symbol r.order_id (or_price o.limit_price o.stop_price) o.side
        (o.quantity - o.executed_quantity) p
    else p

-- `_rehydrate_state`
unfoldable pub rehydrate_state : List OrderRow → Publisher → Publisher
unfolding add_order
rehydrate_state [] p = p
rehydrate_state (r ∷ rs) p =
    rehydrate_state rs
      (if is_open r.status && not (is_market r.order_type) then rehydrate_row r p else p)
