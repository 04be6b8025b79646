-- ===== src/OrderBook/Chains.antt =====
-- The chains of all levels of `OrderBook` (src/engine/orderbook/orderbook.py) on one heap of
-- nodes, through `append` and `remove`.
pub mod Append
pub mod Moves
use spectuel_backend.Prelude.{
  ℕ, ◌≤◌, ◌≡◌, refl, Bool, true, false, Option, none, some, List, [], ◌∷◌, ◌++◌, map, arith, ◌==◌,
  is_ref, if◌then◌else◌, is_some, inl, inr, Bool-cases, Option-cases, sym, ◌∙◌, length,
}
use spectuel_backend.Errors.{Run, done, raised, state_of, Result, ok, err, value_error, key_error}
use spectuel_backend.Enums.{Side}
use spectuel_backend.PriceLevel
use spectuel_backend.PriceLevel.{PriceLevel, Nodes, empty_level, is_occupied, walk}
use spectuel_backend.PriceLevel.Chain.{Cell, Holds, Below, find, without, first, walk-Linked}
use spectuel_backend.PriceLevel.Append.{cell, append-Holds, append_duplicate}
use spectuel_backend.PriceLevel.Remove.{remove-Holds, remove_missing}
use spectuel_backend.PriceLevel.Frame.{
  Spares, Disjoint, Disjoint-sym, spared-Holds, append-Spares, remove-Spares, Disjoint-snoc,
  Disjoint-without,
}
use spectuel_backend.Sorted.{SortedDict}
use spectuel_backend.OrderBook.{
  OrderBook, Market, BookOrder, side_levels, set_levels, set_best, improve_best, drop_level,
  level_or_new, append, append_at, store_appended, remove, remove_at, store_removed, get_orders,
  level_head, raises_bid, lowers_ask, best_key, second_key,
}

-- Whether two pairs of a side and a price are the same.
abbrev pub is_slot : Side → ℕ → Side → ℕ → Bool
is_slot Side.bid p Side.bid q = q == p
is_slot Side.ask p Side.ask q = q == p
is_slot Side.bid p Side.ask q = false
is_slot Side.ask p Side.bid q = false

-- The lists of cells with another list at one side and price.
abbrev pub replaced : (Side → ℕ → List Cell) → Side → ℕ → List Cell → Side → ℕ → List Cell
replaced cells side p xs s q = if is_slot side p s q then xs else cells s q

pub is_slot_same : (side : Side) (p : ℕ) → is_slot side p side p ≡ true
is_slot_same Side.bid p = ground arith
is_slot_same Side.ask p = ground arith

pub slot_cases :
    (T : Side → ℕ → Type 0) (side s : Side) (p q : ℕ) → is_slot side p s q ≡ true → T side p → T s q
slot_cases T Side.bid Side.bid p q e t = let r : q ≡ p = ground arith in rw r t
slot_cases T Side.ask Side.ask p q e t = let r : q ≡ p = ground arith in rw r t
slot_cases T Side.bid Side.ask p q e t = absurd (cc)
slot_cases T Side.ask Side.bid p q e t = absurd (cc)

is_slot_other :
    (side s s' : Side) (p q q' : ℕ)
    → is_slot side p s q ≡ true
    → is_slot s q s' q' ≡ is_slot side p s' q'
is_slot_other side s s' p q q' e =
    slot_cases (λ t r. is_slot t r s' q' ≡ is_slot side p s' q') side s p q e refl

is_slot_sym : (s s' : Side) (p q : ℕ) → is_slot s p s' q ≡ is_slot s' q s p
is_slot_sym Side.bid Side.bid p q = ground arith
is_slot_sym Side.ask Side.ask p q = ground arith
is_slot_sym Side.bid Side.ask p q = refl
is_slot_sym Side.ask Side.bid p q = refl

module _ ⦃D : SortedDict PriceLevel⦄ where
  -- The level at a price, the empty one where the book has none.
  abbrev pub level_at : Side → ℕ → OrderBook → PriceLevel
  level_at side p b = level_or_new (D.get (side_levels side b) p)

  -- Every level of the book holds its list of cells, and no node is in two levels.
  pub record IsSound (cells : Side → ℕ → List Cell) (m : Market) : Type 0 where
    pub held : (s : Side) (q : ℕ) → Holds m.nodes (level_at s q m.book) (cells s q)
    pub apart :
        (s s' : Side) (q q' : ℕ) → is_slot s q s' q' ≡ false → Disjoint (cells s q) (cells s' q')

  -- What a change of one level has to show.
  pub record Changes (side : Side) (p : ℕ) (xs ys : List Cell) (m m' : Market) : Type 0 where
    pub others :
        (s : Side) (q : ℕ) → is_slot side p s q ≡ false → level_at s q m'.book ≡ level_at s q m.book
    pub holds : Holds m'.nodes (level_at side p m'.book) ys
    pub spares : Spares m.nodes m'.nodes xs
    pub disjoint : (zs : List Cell) → Disjoint xs zs → Below m.nodes.fresh zs → Disjoint ys zs

  pub changed-IsSound :
      (cells : Side → ℕ → List Cell) (side : Side) (p : ℕ) (ys : List Cell) (m m' : Market)
      → IsSound cells m
      → Changes side p (cells side p) ys m m'
      → IsSound (replaced cells side p ys) m'
  changed-IsSound cells side p ys m m' v c = record {
    held = λ s q. elim (Bool-cases (is_slot side p s q)) [
      | inl hit ↦
          rw hit
            (slot_cases (λ t r. Holds m'.nodes (level_at t r m'.book) ys) side s p q hit c.holds)
      | inr miss ↦
          rw (miss, c.others s q miss)
            (spared-Holds m.nodes m'.nodes (level_at s q m.book) (cells side p) (cells s q) c.spares
              (v.apart side s p q miss) (v.held s q))
    ];
    apart = λ s s' q q' ne. elim (Bool-cases (is_slot side p s q)) [
      | inl hit ↦
          let ne' = sym (is_slot_other side s s' p q q' hit) ∙ ne in
          rw (hit, ne') (c.disjoint (cells s' q') (v.apart side s' p q' ne') (v.held s' q').below)
      | inr miss ↦ rw miss (elim (Bool-cases (is_slot side p s' q')) [
        | inl hit' ↦ rw hit' (
            Disjoint-sym ys (cells s q)
              (c.disjoint (cells s q) (v.apart side s p q miss) (v.held s q).below))
        | inr miss' ↦ rw miss' (v.apart s s' q q' ne)
      ])
    ];
  }

  level-set :
      (d : D.Dict) (p : ℕ) (l : PriceLevel) (q : ℕ)
      → level_or_new (D.get (D.set_item d p l) q) ≡ (if q == p then l else level_or_new (D.get d q))
  level-set d p l q = elim (Bool-cases (q == p)) [
    | inl hit ↦ rw (D.get-set_item d p l q, hit)
    | inr miss ↦ rw (D.get-set_item d p l q, miss)
  ]

  level-pop :
      (d : D.Dict) (p q : ℕ)
      → level_or_new (D.get (D.pop d p) q)
        ≡ (if q == p then empty_level else level_or_new (D.get d q))
  level-pop d p q = elim (Bool-cases (q == p)) [
    | inl hit ↦ rw (D.get-pop d p q, hit)
    | inr miss ↦ rw (D.get-pop d p q, miss)
  ]

  pub level-stored :
      (side s : Side) (p q : ℕ) (l : PriceLevel) (b : OrderBook)
      → level_at s q (set_levels side (D.set_item (side_levels side b) p l) b)
        ≡ (if is_slot side p s q then l else level_at s q b)
  level-stored Side.bid Side.bid p q l b = level-set b.bids p l q
  level-stored Side.ask Side.ask p q l b = level-set b.asks p l q
  level-stored Side.bid Side.ask p q l b = refl
  level-stored Side.ask Side.bid p q l b = refl

  pub level-improved :
      (side s : Side) (p q : ℕ) (b : OrderBook)
      → level_at s q (improve_best side p b) ≡ level_at s q b
  unfolding improve_best
  level-improved Side.bid s p q b = elim (Bool-cases (raises_bid p b.best_bid_price)) [
    | inl up ↦ rw up (by_side s)
    | inr keep ↦ rw keep
  ]
    where
      by_side : (t : Side) → level_at t q (record b { best_bid_price = some p }) ≡ level_at t q b
      by_side Side.bid = refl
      by_side Side.ask = refl
  level-improved Side.ask s p q b = elim (Bool-cases (lowers_ask p b.best_ask_price)) [
    | inl down ↦ rw down (by_side s)
    | inr keep ↦ rw keep
  ]
    where
      by_side : (t : Side) → level_at t q (record b { best_ask_price = some p }) ≡ level_at t q b
      by_side Side.bid = refl
      by_side Side.ask = refl

  level-best :
      (side s : Side) (o : Option ℕ) (q : ℕ) (b : OrderBook)
      → side_levels s (set_best side o b) ≡ side_levels s b
  level-best Side.bid Side.bid o q b = refl
  level-best Side.bid Side.ask o q b = refl
  level-best Side.ask Side.bid o q b = refl
  level-best Side.ask Side.ask o q b = refl

  level-popped :
      (side s : Side) (p q : ℕ) (b : OrderBook)
      → level_at s q (set_levels side (D.pop (side_levels side b) p) b)
        ≡ (if is_slot side p s q then empty_level else level_at s q b)
  level-popped Side.bid Side.bid p q b = level-pop b.bids p q
  level-popped Side.ask Side.ask p q b = level-pop b.asks p q
  level-popped Side.bid Side.ask p q b = refl
  level-popped Side.ask Side.bid p q b = refl

  pub level-dropped :
      (side s : Side) (p q : ℕ) (b : OrderBook)
      → level_at s q (drop_level side p b)
        ≡ (if is_slot side p s q then empty_level else level_at s q b)
  unfolding drop_level
  level-dropped side s p q b =
      let ks = D.keys (side_levels side b) in
      elim (Bool-cases (is_ref (best_key side ks) p)) [
        | inl best ↦ rw best (
            level-popped side s p q (set_best side (second_key side ks) b)
            ∙ rw (level-best side s (second_key side ks) q b) refl)
        | inr other ↦ rw other (level-popped side s p q b)
      ]
