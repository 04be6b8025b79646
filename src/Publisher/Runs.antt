-- ===== src/Publisher/Runs.antt =====
-- Whole runs of `OrderBookPublisher` (src/services/orderbook_publisher/service.py): the rehydration
-- and then the messages.
use spectuel_backend.Prelude.{
  ℕ, ◌≡◌, refl, ◌≢◌, false, ◌&&◌, not, Option, none, List, [], ◌∷◌, if◌then◌else◌, leb, ltb, ◌==◌,
  ◌-◌, get_item, get-set_item, All, arith, Bool-cases, Option-cases, inl, inr, number_keyed,
}
use spectuel_backend.Enums.{Side, LiquidityRole}
use spectuel_backend.Publisher.{
  Publisher, OrderInfo, OrderData, OrderRow, Message, or_price, add_order, handle_order_placed,
  handle_order_cancelled, handle_trade, consume, consume_all, empty_publisher, is_open, is_market,
  rehydrate_row, rehydrate_state,
}
use spectuel_backend.Publisher.Shown.{shown}
use spectuel_backend.Publisher.Tracked.{
  Tracked, Fits, add_order-Tracked, cancel-Tracked, trade-Tracked,
}

module _ (symbol_of : ℕ → ℕ) where
  placed-Tracked :
      (symbol id : ℕ) (o : OrderData) (p : Publisher)
      → symbol_of id ≡ symbol
      → get_item p.active_orders id ≡ none
      → Tracked symbol_of p
      → Tracked symbol_of (handle_order_placed symbol id o p)
  unfolding handle_order_placed
  placed-Tracked symbol id o p known new v =
      elim (Bool-cases (leb o.quantity o.executed_quantity)) [
        | inl full ↦ rw full v
        | inr rest ↦ rw rest (
            add_order-Tracked symbol_of symbol id known (or_price o.limit_price o.stop_price) o.side
              (o.quantity - o.executed_quantity) p v new)
      ]

  consume-Tracked :
      (m : Message) (p : Publisher)
      → Fits symbol_of m p
      → Tracked symbol_of p
      → Tracked symbol_of (consume m p)
  unfolding consume handle_order_cancelled handle_trade
  consume-Tracked (Message.order_placed symbol id o) p f v = placed-Tracked symbol id o p f.0 f.1 v
  consume-Tracked (Message.order_cancelled symbol id) p f v =
      elim (Option-cases (get_item p.active_orders id)) [
        | inl none_there ↦ rw none_there v
        | inr (i, found) ↦ rw found (cancel-Tracked symbol_of symbol id f i p v found)
      ]
  consume-Tracked (Message.new_trade symbol id LiquidityRole.maker qty) p f v =
      elim (Option-cases (get_item p.active_orders id)) [
        | inl none_there ↦ rw none_there v
        | inr (i, found) ↦
            rw found (trade-Tracked symbol_of symbol id f.0 i qty p v found (f.1 i found))
      ]
  consume-Tracked (Message.new_trade symbol id LiquidityRole.taker qty) p f v = v
  consume-Tracked Message.unread p f v = v

  -- Each message fits the state that it meets.
  abbrev pub AllFit : List Message → Publisher → Type 0
  AllFit [] p = Unit
  AllFit (m ∷ ms) p = Fits symbol_of m p × AllFit ms (consume m p)

  -- If each message fits the state that it meets, the levels keep showing the sums of what remains
  -- of the active orders.
  pub consume_all-Tracked :
      (ms : List Message) (p : Publisher)
      → AllFit ms p
      → Tracked symbol_of p
      → Tracked symbol_of (consume_all ms p)
  consume_all-Tracked [] p f v = v
  consume_all-Tracked (m ∷ ms) p f v =
      consume_all-Tracked ms (consume m p) f.1 (consume-Tracked m p f.0 v)

  -- The rows have the symbols of their orders, and no order has two rows.
  abbrev pub RowsValid : List OrderRow → Type 0
  RowsValid [] = Unit
  RowsValid (r ∷ rs) =
      (symbol_of r.order_id ≡ r.symbol)
      × All (λ (q : OrderRow). q.order_id ≢ r.order_id) rs
      × RowsValid rs

  abbrev AllNew : List OrderRow → Publisher → Type 0
  AllNew rs p = All (λ (r : OrderRow). get_item p.active_orders r.order_id ≡ none) rs

  AllNew-add_order :
      (rs : List OrderRow) (symbol id : ℕ) (price : Option ℕ) (side : Side) (qty : ℕ)
      (p : Publisher)
      → All (λ (q : OrderRow). q.order_id ≢ id) rs
      → AllNew rs p
      → AllNew rs (add_order symbol id price side qty p)
  unfolding add_order
  AllNew-add_order [] symbol id price side qty p d a = tt
  AllNew-add_order (r ∷ rs) symbol id price side qty p d a =
      let i : OrderInfo = record { price = price; side = side; remaining_qty = qty } in
      let other : (r.order_id == id) ≡ false = ground (arith, d.0) in
      (
        rw (get-set_item p.active_orders id i r.order_id, other) a.0,
        AllNew-add_order rs symbol id price side qty p d.1 a.1,
      )

  -- A round of the rehydration, for a row that may be passed over.
  row-Tracked :
      (r : OrderRow) (rs : List OrderRow) (p : Publisher)
      → symbol_of r.order_id ≡ r.symbol
      → All (λ (q : OrderRow). q.order_id ≢ r.order_id) rs
      → get_item p.active_orders r.order_id ≡ none
      → AllNew rs p
      → Tracked symbol_of p
      → let q = if is_open r.status && not (is_market r.order_type) then rehydrate_row r p else p in
        AllNew rs q × Tracked symbol_of q
  row-Tracked r rs p known d new a v =
      let o = r.terms in
      elim (Bool-cases (is_open r.status && not (is_market r.order_type))) [
        | inr passed ↦ rw passed (a, v)
        | inl read ↦ rw read (elim (Bool-cases (ltb o.executed_quantity o.quantity)) [
          | inr full ↦ rw full (a, v)
          | inl rest ↦ rw rest (
            AllNew-add_order rs r.symbol r.order_id (or_price o.limit_price o.stop_price) o.side
                (o.quantity - o.executed_quantity) p d a,
            add_order-Tracked symbol_of r.symbol r.order_id known
                (or_price o.limit_price o.stop_price) o.side (o.quantity - o.executed_quantity) p v
                new,
          )
        ])
      ]

  rehydrate-Tracked :
      (rs : List OrderRow) (p : Publisher)
      → RowsValid rs
      → AllNew rs p
      → Tracked symbol_of p
      → Tracked symbol_of (rehydrate_state rs p)
  unfolding rehydrate_state
  rehydrate-Tracked [] p c a v = v
  rehydrate-Tracked (r ∷ rs) p c a v =
      let (a', v') = row-Tracked r rs p c.0 c.1 a.0 a.1 v in rehydrate-Tracked rs _ c.2 a' v'

  nothing_active : (rs : List OrderRow) → AllNew rs empty_publisher
  nothing_active [] = tt
  nothing_active (r ∷ rs) = (refl, nothing_active rs)

  -- If the rows of the orders have their orders' symbols and no order has two rows, and each
  -- message fits the state that it meets (it names its order's symbol, an order is new where it
  -- is placed, a trade takes no more than remains of the maker's order), then after the
  -- rehydration and the messages each level of the publisher's books shows the sum of what
  -- remains of the active orders at its symbol, side and price.
  pub published-Tracked :
      (rs : List OrderRow) (ms : List Message)
      → RowsValid rs
      → AllFit ms (rehydrate_state rs empty_publisher)
      → Tracked symbol_of (consume_all ms (rehydrate_state rs empty_publisher))
  published-Tracked rs ms c f = consume_all-Tracked ms (rehydrate_state rs empty_publisher) f (
      rehydrate-Tracked rs empty_publisher c (nothing_active rs)
        (record { unique = tt; level = λ s t r. nothing_shown s t r }))
    where
      nothing_shown : (s : ℕ) (t : Side) (r : Option ℕ) → shown s t r empty_publisher ≡ 0
      nothing_shown s Side.bid r = refl
      nothing_shown s Side.ask r = refl
