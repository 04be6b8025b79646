-- ===== src/OrderBook.antt =====
-- `OrderBook` (src/engine/orderbook/orderbook.py): price levels for bids and asks, and the best
-- prices, kept beside them. Prices are whole ticks, as `round(price, 2)` leaves them.
-- The levels' nodes live on a heap that both sides share; a level is a value in its dict.
pub mod Best
pub mod Chains
use spectuel_backend.Prelude.{
  ℕ, ◌-◌, Bool, true, false, ◌&&◌, Option, none, some, List, if◌then◌else◌, ltb, leb, is_ref,
  is_some, length, get_elem?,
}
use spectuel_backend.Errors.{Error, Result, ok, err, Run, done, raised, value_error}
use spectuel_backend.Enums.{Side}
use spectuel_backend.PriceLevel
use spectuel_backend.PriceLevel.{PriceLevel, Nodes, Node, empty_level, is_occupied}
use spectuel_backend.Sorted.{SortedDict}

-- What the book reads of an order object: its reference, its id and its side.
pub record BookOrder : Type 0 where
  pub ref : ℕ
  pub id : ℕ
  pub side : Side

-- `self._best_bid_price is None or price > self._best_bid_price`
abbrev pub raises_bid : ℕ → Option ℕ → Bool
raises_bid price none = true
raises_bid price (some b) = ltb b price

abbrev pub lowers_ask : ℕ → Option ℕ → Bool
lowers_ask price none = true
lowers_ask price (some a) = ltb price a

-- `peekitem(-1)`, `peekitem(-2)`, `peekitem(0)` and `peekitem(1)`, the keys of them: `none` where Python
-- raises an `IndexError`.
abbrev pub best_key : Side → List ℕ → Option ℕ
best_key Side.bid ks = get_elem? ks (length ks - 1)
best_key Side.ask ks = get_elem? ks 0

abbrev pub second_key : Side → List ℕ → Option ℕ
second_key Side.bid ks = if leb 2 (length ks) then get_elem? ks (length ks - 2) else none
second_key Side.ask ks = if leb 2 (length ks) then get_elem? ks 1 else none

module _ ⦃D : SortedDict PriceLevel⦄ where
  pub record OrderBook : Type 0 where
    pub bids : D.Dict
    pub asks : D.Dict
    pub best_bid_price : Option ℕ
    pub best_ask_price : Option ℕ
    pub starting_price : ℕ
    pub cur_price : ℕ

  -- The book with the heap of nodes.
  pub record Market : Type 0 where
    pub book : OrderBook
    pub nodes : Nodes

  -- `OrderBook(price)`
  abbrev pub empty_book : ℕ → OrderBook
  empty_book price = record {
    bids = D.empty;
    asks = D.empty;
    best_bid_price = none;
    best_ask_price = none;
    starting_price = price;
    cur_price = price;
  }

  abbrev pub side_levels : Side → OrderBook → D.Dict
  side_levels Side.bid b = b.bids
  side_levels Side.ask b = b.asks

  abbrev pub set_levels : Side → D.Dict → OrderBook → OrderBook
  set_levels Side.bid d b = record b { bids = d }
  set_levels Side.ask d b = record b { asks = d }

  abbrev pub best_price : Side → OrderBook → Option ℕ
  best_price Side.bid b = b.best_bid_price
  best_price Side.ask b = b.best_ask_price

  abbrev pub set_best : Side → Option ℕ → OrderBook → OrderBook
  set_best Side.bid p b = record b { best_bid_price = p }
  set_best Side.ask p b = record b { best_ask_price = p }

  -- The update of the best price at the start of `append`.
  unfoldable pub improve_best : Side → ℕ → OrderBook → OrderBook
  improve_best Side.bid price b =
      if raises_bid price b.best_bid_price then record b { best_bid_price = some price } else b
  improve_best Side.ask price b =
      if lowers_ask price b.best_ask_price then record b { best_ask_price = some price } else b

  -- `book.setdefault(price, PriceLevel())`
  abbrev pub level_or_new : Option PriceLevel → PriceLevel
  level_or_new none = empty_level
  level_or_new (some l) = l

  -- The level is in the dict, as the append found it, even if the append raised.
  abbrev pub store_appended :
      Side
      → ℕ
      → PriceLevel
      → Nodes
      → OrderBook
      → Result (PriceLevel × Nodes)
      → Run Market (Unit {0})
  store_appended side price old h b (ok (l, h')) =
      done tt
        (record { book = set_levels side (D.set_item (side_levels side b) price l) b; nodes = h' })
  store_appended side price old h b (err e) =
      raised e
        (record { book = set_levels side (D.set_item (side_levels side b) price old) b; nodes = h })

  -- The body of `OrderBook.append` for a number as price.
  unfoldable pub append_at : BookOrder → ℕ → Market → Run Market (Unit {0})
  unfolding improve_best
  append_at o price m =
      let b = improve_best o.side price m.book in
      let l = level_or_new (D.get (side_levels o.side b) price) in
      store_appended o.side price l m.nodes b (PriceLevel.append o.ref o.id l m.nodes)

  -- `OrderBook.append`: a price that is no number is refused.
  unfoldable pub append : BookOrder → Option ℕ → Market → Run Market (Unit {0})
  unfolding append_at
  append o none m = raised value_error m
  append o (some price) m = append_at o price m

  -- The branch of `remove` for a level that became empty.
  unfoldable pub drop_level : Side → ℕ → OrderBook → OrderBook
  drop_level side price b =
      let ks = D.keys (side_levels side b) in
      let b' =
        if is_ref (best_key side ks) price then set_best side (second_key side ks) b else b in
      set_levels side (D.pop (side_levels side b') price) b'

  abbrev pub store_removed : Side → ℕ → Market → Result (PriceLevel × Nodes) → Run Market (Unit {0})
  store_removed side price m (err e) = raised e m
  store_removed side price m (ok (l, h)) =
      let b = set_levels side (D.set_item (side_levels side m.book) price l) m.book in
      done tt (record { book = if is_occupied l then b else drop_level side price b; nodes = h })

  -- `OrderBook.remove` at a price, by what `book[price]` is.
  unfoldable pub remove_at : BookOrder → ℕ → Option PriceLevel → Market → Run Market (Unit {0})
  remove_at o price none m = done tt m
  remove_at o price (some l) m = store_removed o.side price m (PriceLevel.remove o.id l m.nodes)

  -- `OrderBook.remove`: `None` is no key of the book.
  unfoldable pub remove : BookOrder → Option ℕ → Market → Run Market (Unit {0})
  unfolding remove_at
  remove o none m = done tt m
  remove o (some price) m = remove_at o price (D.get (side_levels o.side m.book) price) m

  -- The start of `get_orders`: the node from which the generator walks along `next`.
  abbrev pub level_head : Option PriceLevel → Option ℕ
  level_head none = none
  level_head (some l) = l.head

  unfoldable pub get_orders : ℕ → Side → Market → Option ℕ
  get_orders price side m = level_head (D.get (side_levels side m.book) price)

  -- `set_price`
  unfoldable pub set_price : ℕ → OrderBook → OrderBook
  set_price price b = record b { cur_price = price }
