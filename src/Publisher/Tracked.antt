-- ===== src/Publisher/Tracked.antt =====
-- The levels and the active orders of `OrderBookPublisher`
-- (src/services/orderbook_publisher/service.py), one against the other.
use spectuel_backend.Prelude.{
  ℕ, ◌+◌, ◌-◌, ◌≤◌, ◌≡◌, refl, ◌∙◌, Bool, true, false, ◌&&◌, Option, none, some, leb, ◌==◌,
  get_item, del_item, Unique, total, same_option, number_keyed, option_keyed, total-add,
  total-replace, total-del, Unique-set_item, Unique-del_item, arith, Bool-cases, inl, inr,
}
use spectuel_backend.Enums.{Side}
use spectuel_backend.Publisher.{Publisher, OrderInfo, Message, add_order, cancel_found, trade_found}
use spectuel_backend.Publisher.Shown.{
  same_side, shown, share, owed, shown-increment, shown-decrement,
}

-- Each level shows the sum of what remains of the active orders at its price.
pub record Tracked (symbol_of : ℕ → ℕ) (p : Publisher) : Type 0 where
  pub unique : Unique p.active_orders
  pub level :
      (symbol : ℕ) (side : Side) (price : Option ℕ)
      → shown symbol side price p ≡ total (owed symbol_of symbol side price) p.active_orders

-- The order has the symbol, is new where it is placed, and a trade takes no more than remains.
abbrev pub Fits : (ℕ → ℕ) → Message → Publisher → Type 0
Fits symbol_of (Message.order_placed symbol id o) p =
    (symbol_of id ≡ symbol) × (get_item p.active_orders id ≡ none)
Fits symbol_of (Message.order_cancelled symbol id) p = symbol_of id ≡ symbol
Fits symbol_of (Message.new_trade symbol id role qty) p =
    (symbol_of id ≡ symbol)
    × ((i : OrderInfo) → get_item p.active_orders id ≡ some i → qty ≤ i.remaining_qty)
Fits symbol_of Message.unread p = Unit

share-rest : (b : Bool) (q n : ℕ) → n ≤ q → share b (q - n) + share b n ≡ share b q
share-rest true q n le = omega arith
share-rest false q n le = refl

module _ (symbol_of : ℕ → ℕ) (symbol id : ℕ) (known : symbol_of id ≡ symbol) where
  owed_here :
      (s : ℕ) (t : Side) (r : Option ℕ) (i : OrderInfo)
      → owed symbol_of s t r id i
        ≡ share ((s == symbol) && (same_side t i.side && same_option r i.price)) i.remaining_qty
  owed_here s t r i = rw known refl

  pub add_order-Tracked :
      (price : Option ℕ) (side : Side) (qty : ℕ) (p : Publisher)
      → Tracked symbol_of p
      → get_item p.active_orders id ≡ none
      → Tracked symbol_of (add_order symbol id price side qty p)
  unfolding add_order
  add_order-Tracked price side qty p v new =
      let i : OrderInfo = record { price = price; side = side; remaining_qty = qty } in
      record {
        unique = Unique-set_item p.active_orders id i v.unique;
        level = λ s t r.
            shown-increment symbol side price s t r p qty
            ∙ omega (
              arith,
              v.level s t r,
              owed_here s t r i,
              total-add (owed symbol_of s t r) p.active_orders id i new,
            );
      }

  pub cancel-Tracked :
      (i : OrderInfo) (p : Publisher)
      → Tracked symbol_of p
      → get_item p.active_orders id ≡ some i
      → Tracked symbol_of (cancel_found symbol id (some i) p)
  cancel-Tracked i p v found = record {
    unique = Unique-del_item p.active_orders id v.unique;
    level = λ s t r.
        shown-decrement symbol i.side i.price s t r
          (record p { active_orders = del_item id p.active_orders }) i.remaining_qty
        ∙ omega (
          arith,
          v.level s t r,
          owed_here s t r i,
          total-del (owed symbol_of s t r) p.active_orders id i v.unique found,
        );
  }

  pub trade-Tracked :
      (i : OrderInfo) (qty : ℕ) (p : Publisher)
      → Tracked symbol_of p
      → get_item p.active_orders id ≡ some i
      → qty ≤ i.remaining_qty
      → Tracked symbol_of (trade_found symbol id qty (some i) p)
  trade-Tracked i qty p v found le =
      let rest : OrderInfo = record i { remaining_qty = i.remaining_qty - qty } in
      elim (Bool-cases (leb i.remaining_qty qty)) [
        | inl all ↦
            let same : qty ≡ i.remaining_qty = ground (arith, all) in
            rw all (record {
              unique = Unique-del_item p.active_orders id v.unique;
              level = λ s t r.
                  shown-decrement symbol i.side i.price s t r p qty
                  ∙ rw same (
                      omega (
                        arith,
                        v.level s t r,
                        owed_here s t r i,
                        total-del (owed symbol_of s t r) p.active_orders id i v.unique found,
                      ));
            })
        | inr part ↦ rw part (record {
          unique = Unique-set_item p.active_orders id rest v.unique;
          level = λ s t r.
              shown-decrement symbol i.side i.price s t r p qty
              ∙ omega (
                arith,
                v.level s t r,
                owed_here s t r i,
                owed_here s t r rest,
                share-rest ((s == symbol) && (same_side t i.side && same_option r i.price))
                    i.remaining_qty qty le,
                total-replace (owed symbol_of s t r) p.active_orders id rest i found,
              );
        })
      ]
