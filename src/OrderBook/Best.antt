-- ===== src/OrderBook/Best.antt =====
-- The cached best prices of `OrderBook` (src/engine/orderbook/orderbook.py) and the keys of its
-- dicts, through `append` and `remove`.
mod Keys
mod Changes
pub use Keys.*
pub use Changes.*
use spectuel_backend.Prelude.{
  ℕ, ◌-◌, ◌≤◌, ◌≡◌, refl, ◌⊎◌, inl, inr, Bool, true, false, Option, none, some, arith,
  if◌then◌else◌, is_ref, is_some, ◌==◌, ◌&&◌, not, sym, ◌∙◌, ltb, List, [], ◌∷◌, Bool-cases,
  Option-cases,
}
use spectuel_backend.Errors.{Run, done, raised, state_of, Result, ok, err}
use spectuel_backend.Enums.{Side}
use spectuel_backend.PriceLevel
use spectuel_backend.PriceLevel.{PriceLevel, Nodes, is_occupied}
use spectuel_backend.Sorted.{SortedDict, Ascending, has}
use spectuel_backend.OrderBook.{
  OrderBook, Market, BookOrder, side_levels, best_price, best_key, second_key, improve_best,
  raises_bid, lowers_ask, drop_level, set_best, set_levels, append, append_at, remove, remove_at,
  store_appended, store_removed, level_or_new,
}

-- Which prices a book has.
module _ ⦃D : SortedDict PriceLevel⦄ where
  abbrev pub present : D.Dict → ℕ → Bool
  present d k = is_some (D.get d k)

  abbrev pub SideValid : Side → OrderBook → Type 0
  SideValid side b = IsBest side (best_price side b) (present (side_levels side b))

  -- Both best prices are those of the dicts' keys.
  pub record BestValid (b : OrderBook) : Type 0 where
    pub bid_best : SideValid Side.bid b
    pub ask_best : SideValid Side.ask b

module _ ⦃D : SortedDict PriceLevel⦄ where
  -- The keys and the dict agree on which prices have a level.
  keys-present : (d : D.Dict) (k : ℕ) → present d k ≡ has k (D.keys d)
  keys-present d k = sym (D.has-keys d k)

  present-set :
      (d : D.Dict) (p : ℕ) (l : PriceLevel) (k : ℕ)
      → present (D.set_item d p l) k ≡ with_key p (present d) k
  present-set d p l k = rw (D.get-set_item d p l k) (by_test (k == p))
    where
      by_test :
          (t : Bool)
          → is_some (if t then some l else D.get d k) ≡ (if t then true else is_some (D.get d k))
      by_test true = refl
      by_test false = refl

  present-pop : (d : D.Dict) (p : ℕ) (k : ℕ) → present (D.pop d p) k ≡ without_key p (present d) k
  present-pop d p k = rw (D.get-pop d p k) (by_test (k == p))
    where
      by_test :
          (t : Bool)
          → is_some (if t then none else D.get d k) ≡ (if t then false else is_some (D.get d k))
      by_test true = refl
      by_test false = refl

  improved_bid :
      (p : ℕ) (b : OrderBook)
      → improve_best Side.bid p b
        ≡ set_best Side.bid (if raises_bid p b.best_bid_price then some p else b.best_bid_price) b
  unfolding improve_best
  improved_bid p b = elim (Bool-cases (raises_bid p b.best_bid_price)) [
    | inl up ↦ rw up
    | inr keep ↦ rw keep
  ]

  improved_ask :
      (p : ℕ) (b : OrderBook)
      → improve_best Side.ask p b
        ≡ set_best Side.ask (if lowers_ask p b.best_ask_price then some p else b.best_ask_price) b
  unfolding improve_best
  improved_ask p b = elim (Bool-cases (lowers_ask p b.best_ask_price)) [
    | inl down ↦ rw down
    | inr keep ↦ rw keep
  ]

  stored_level : Side → ℕ → PriceLevel → OrderBook → OrderBook
  stored_level side p l b = set_levels side (D.set_item (side_levels side b) p l) b

  stored-present :
      (side : Side) (p : ℕ) (l : PriceLevel) (b : OrderBook)
      → present (side_levels side (stored_level side p l b)) p ≡ true
  unfolding stored_level
  stored-present Side.bid p l b = ground (arith, present-set b.bids p l p)
  stored-present Side.ask p l b = ground (arith, present-set b.asks p l p)

  stored-BestValid :
      (side : Side) (p : ℕ) (l : PriceLevel) (b : OrderBook)
      → BestValid b
      → BestValid (stored_level side p l (improve_best side p b))
  unfolding stored_level
  stored-BestValid Side.bid p l b v = rw (improved_bid p b) (record {
    bid_best =
        IsBest-cong Side.bid (if raises_bid p b.best_bid_price then some p else b.best_bid_price)
          (with_key p (present b.bids)) (present (D.set_item b.bids p l)) (present-set b.bids p l)
          (improve_bid p b.best_bid_price (present b.bids) v.bid_best);
    ask_best = v.ask_best;
  })
  stored-BestValid Side.ask p l b v = rw (improved_ask p b) (record {
    bid_best = v.bid_best;
    ask_best =
        IsBest-cong Side.ask (if lowers_ask p b.best_ask_price then some p else b.best_ask_price)
          (with_key p (present b.asks)) (present (D.set_item b.asks p l)) (present-set b.asks p l)
          (improve_ask p b.best_ask_price (present b.asks) v.ask_best);
  })

  store_appended-BestValid :
      (side : Side) (p : ℕ) (l : PriceLevel) (h : Nodes) (b : OrderBook)
      (r : Result (PriceLevel × Nodes))
      → BestValid b
      → BestValid (state_of (store_appended side p l h (improve_best side p b) r)).book
  unfolding stored_level
  store_appended-BestValid side p l h b (ok (l', h')) v = stored-BestValid side p l' b v
  store_appended-BestValid side p l h b (err e) v = stored-BestValid side p l b v

  -- If the best prices of a book are right, they are right after an append of any order at any
  -- price, also where the append raises.
  pub append-BestValid :
      (o : BookOrder) (price : Option ℕ) (m : Market)
      → BestValid m.book
      → BestValid (state_of (append o price m)).book
  unfolding append append_at
  append-BestValid o none m v = v
  append-BestValid o (some p) m v =
      let l = level_or_new (D.get (side_levels o.side (improve_best o.side p m.book)) p) in
      store_appended-BestValid o.side p l m.nodes m.book (PriceLevel.append o.ref o.id l m.nodes) v

  -- Writing a level back at a price that has one changes no key.
  rewritten-BestValid :
      (side : Side) (p : ℕ) (l : PriceLevel) (b : OrderBook)
      → present (side_levels side b) p ≡ true
      → BestValid b
      → BestValid (stored_level side p l b)
  unfolding stored_level
  rewritten-BestValid Side.bid p l b m v = record {
    bid_best =
        IsBest-cong Side.bid b.best_bid_price (present b.bids) (present (D.set_item b.bids p l))
          (λ k. ground (arith, present-set b.bids p l k)) v.bid_best;
    ask_best = v.ask_best;
  }
  rewritten-BestValid Side.ask p l b m v = record {
    bid_best = v.bid_best;
    ask_best =
        IsBest-cong Side.ask b.best_ask_price (present b.asks) (present (D.set_item b.asks p l))
          (λ k. ground (arith, present-set b.asks p l k)) v.ask_best;
  }

  drop_side :
      (side : Side) (p : ℕ) (o : Option ℕ) (d : D.Dict)
      → present d p ≡ true
      → IsBest side o (present d)
      → IsBest side
          (if is_ref (best_key side (D.keys d)) p then second_key side (D.keys d) else o)
          (present (D.pop d p))
  drop_side side p o d m h =
      let ks = D.keys d in
      let has_p : has p ks ≡ true = sym (keys-present d p) ∙ m in
      IsBest-cong side (if is_ref (best_key side ks) p then second_key side ks else o)
        (without_key p (λ j. has j ks)) (present (D.pop d p))
        (λ k. present-pop d p k ∙ without-cong p (present d) (λ j. has j ks) (keys-present d) k)
        (drop_IsBest side p o ks (D.keys-Ascending d) has_p
          (IsBest-cong side o (present d) (λ j. has j ks) (λ k. sym (keys-present d k)) h))

  dropped-BestValid :
      (side : Side) (p : ℕ) (b : OrderBook)
      → present (side_levels side b) p ≡ true
      → BestValid b
      → BestValid (drop_level side p b)
  unfolding drop_level
  dropped-BestValid Side.bid p b m v =
      elim (Bool-cases (is_ref (best_key Side.bid (D.keys b.bids)) p)) [
        | inl best ↦ rw best (record {
          bid_best = rw best at (drop_side Side.bid p b.best_bid_price b.bids m v.bid_best);
          ask_best = v.ask_best;
        })
        | inr other ↦ rw other (record {
          bid_best = rw other at (drop_side Side.bid p b.best_bid_price b.bids m v.bid_best);
          ask_best = v.ask_best;
        })
      ]
  dropped-BestValid Side.ask p b m v =
      elim (Bool-cases (is_ref (best_key Side.ask (D.keys b.asks)) p)) [
        | inl best ↦ rw best (record {
          bid_best = v.bid_best;
          ask_best = rw best at (drop_side Side.ask p b.best_ask_price b.asks m v.ask_best);
        })
        | inr other ↦ rw other (record {
          bid_best = v.bid_best;
          ask_best = rw other at (drop_side Side.ask p b.best_ask_price b.asks m v.ask_best);
        })
      ]

  store_removed-BestValid :
      (side : Side) (p : ℕ) (m : Market) (r : Result (PriceLevel × Nodes))
      → present (side_levels side m.book) p ≡ true
      → BestValid m.book
      → BestValid (state_of (store_removed side p m r)).book
  unfolding stored_level
  store_removed-BestValid side p m (err e) has_p v = v
  store_removed-BestValid side p m (ok (l, h)) has_p v =
      let kept = rewritten-BestValid side p l m.book has_p v in
      elim (Bool-cases (is_occupied l)) [
        | inl full ↦ rw full kept
        | inr empty ↦ rw empty (
            dropped-BestValid side p (stored_level side p l m.book) (stored-present side p l m.book)
              kept)
      ]

  -- If the best prices of a book are right, they are right after a removal of any order at any
  -- price, also where the removal raises.
  pub remove-BestValid :
      (o : BookOrder) (price : Option ℕ) (m : Market)
      → BestValid m.book
      → BestValid (state_of (remove o price m)).book
  unfolding remove remove_at
  remove-BestValid o none m v = v
  remove-BestValid o (some p) m v = by_level (D.get (side_levels o.side m.book) p) refl
    where
      by_level :
          (l : Option PriceLevel)
          → D.get (side_levels o.side m.book) p ≡ l
          → BestValid (state_of (remove_at o p l m)).book
      by_level none e = v
      by_level (some l) e =
          store_removed-BestValid o.side p m (PriceLevel.remove o.id l m.nodes) (rw e) v
