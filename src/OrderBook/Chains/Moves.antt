-- ===== src/OrderBook/Chains/Moves.antt =====
-- `remove` and `get_orders` of `OrderBook` (src/engine/orderbook/orderbook.py) on the chains of all
-- its levels, and both changes on a book of any chains.
use spectuel_backend.Prelude.{
  ℕ, ◌≤◌, ◌≡◌, refl, false, Option, none, some, List, [], ◌∷◌, ◌++◌, map, arith, is_some, inl, inr,
  Bool-cases, Option-cases, sym, ◌∙◌, length,
}
use spectuel_backend.Errors.{done, state_of, ok}
use spectuel_backend.Enums.{Side}
use spectuel_backend.PriceLevel.{PriceLevel, Nodes, empty_level, is_occupied, walk}
use spectuel_backend.PriceLevel.Chain.{Cell, Holds, find, without, walk-Linked}
use spectuel_backend.PriceLevel.Append.{cell}
use spectuel_backend.PriceLevel.Remove.{remove-Holds, remove_missing}
use spectuel_backend.PriceLevel.Frame.{remove-Spares, Disjoint-without}
use spectuel_backend.Sorted.{SortedDict}
use spectuel_backend.OrderBook.{
  Market, BookOrder, side_levels, set_levels, drop_level, level_or_new, append, remove, remove_at,
  store_removed, get_orders, level_head, empty_book,
}
use spectuel_backend.OrderBook.Chains.{
  is_slot, is_slot_same, replaced, level_at, IsSound, changed-IsSound, level-stored, level-dropped,
}
use spectuel_backend.OrderBook.Chains.Append.{append-IsSound, append_duplicate-IsSound}

module _ ⦃D : SortedDict PriceLevel⦄ where
  empty_level-Holds : (g : Nodes) → Holds g empty_level []
  empty_level-Holds g = record {
    at_head = refl;
    at_tail = refl;
    linked = tt;
    distinct = tt;
    below = tt;
    tracked = λ i. refl;
  }

  -- A new book is sound without a cell.
  pub empty_book-IsSound :
      (price : ℕ) (h : Nodes) → IsSound (λ s q. []) (record { book = empty_book price; nodes = h })
  empty_book-IsSound price h = record {
    held = λ s q. rw (at_empty s q) (empty_level-Holds h);
    apart = λ s s' q q' ne. tt;
  }
    where
      get_empty : (q : ℕ) → D.get D.empty q ≡ none
      get_empty q =
          let e : is_some (D.get D.empty q) ≡ false =
            sym (D.has-keys D.empty q) ∙ rw D.keys-empty refl in
          ground (arith, e)

      at_empty : (s : Side) (q : ℕ) → level_at s q (empty_book price) ≡ empty_level
      at_empty Side.bid q = rw (get_empty q) refl
      at_empty Side.ask q = rw (get_empty q) refl

  emptied-Holds :
      (g : Nodes) (l : PriceLevel) (ys : List Cell)
      → Holds g l ys
      → is_occupied l ≡ false
      → Holds g empty_level ys
  emptied-Holds g l [] v e = empty_level-Holds g
  emptied-Holds g l (y ∷ ys) v e = absurd (let h = v.at_head in let f = rw h at e in cc)

  stored_removed :
      (side : Side) (p : ℕ) (l : PriceLevel) (h : Nodes) (m : Market) (ys : List Cell)
      → Holds h l ys
      → (m' : Market) × (store_removed side p m (ok (l, h)) ≡ done tt m')
        × (m'.nodes ≡ h)
        × Holds h (level_at side p m'.book) ys
        × ((s : Side) (q : ℕ)
            → is_slot side p s q ≡ false
            → level_at s q m'.book ≡ level_at s q m.book)
  stored_removed side p l h m ys v =
      let b = set_levels side (D.set_item (side_levels side m.book) p l) m.book in
      let at_p : level_at side p b ≡ l =
        level-stored side side p p l m.book ∙ rw (is_slot_same side p) refl in
      elim (Bool-cases (is_occupied l)) [
        | inl full ↦ (
          record { book = b; nodes = h },
          rw full refl,
          refl,
          rw at_p v,
          λ s q ne. level-stored side s p q l m.book ∙ rw ne refl,
        )
        | inr empty ↦
            let gone : level_at side p (drop_level side p b) ≡ empty_level =
              level-dropped side side p p b ∙ rw (is_slot_same side p) refl in
            (
              record { book = drop_level side p b; nodes = h },
              rw empty refl,
              refl,
              rw gone (emptied-Holds h l ys v empty),
              λ s q ne.
                  level-dropped side s p q b
                  ∙ rw ne (level-stored side s p q l m.book ∙ rw ne refl),
            )
      ]

  remove_found :
      (cells : Side → ℕ → List Cell) (o : BookOrder) (p a : ℕ) (m : Market) (l : PriceLevel)
      → IsSound cells m
      → D.get (side_levels o.side m.book) p ≡ some l
      → find o.id (cells o.side p) ≡ some a
      → (m' : Market) × (remove_at o p (some l) m ≡ done tt m')
        × IsSound (replaced cells o.side p (without o.id (cells o.side p))) m'
  unfolding remove_at
  remove_found cells o p a m l v g e =
      let xs = cells o.side p in
      let old : Holds m.nodes l xs = rw g at (v.held o.side p) in
      let (l', h', r, new) = remove-Holds o.id a l m.nodes xs old e in
      let (m', stored, nodes_are, kept, others) =
        stored_removed o.side p l' h' m (without o.id xs) new in
      (
        m',
        rw r stored,
        changed-IsSound cells o.side p (without o.id xs) m m' v (record {
          others = others;
          holds = rw nodes_are kept;
          spares = rw nodes_are (remove-Spares o.id a l l' m.nodes h' xs old e r);
          disjoint = λ zs d below. Disjoint-without o.id xs zs d;
        }),
      )

  -- If the book is sound and the level at a price has the order, a removal at that price
  -- succeeds, and the book is sound without the order's cell, the others in the same order.
  pub remove-IsSound :
      (cells : Side → ℕ → List Cell) (o : BookOrder) (p a : ℕ) (m : Market)
      → IsSound cells m
      → find o.id (cells o.side p) ≡ some a
      → (m' : Market) × (remove o (some p) m ≡ done tt m')
        × IsSound (replaced cells o.side p (without o.id (cells o.side p))) m'
  unfolding remove
  remove-IsSound cells o p a m v e = elim (Option-cases (D.get (side_levels o.side m.book) p)) [
    | inl absent ↦ absurd (let t = (v.held o.side p).tracked o.id in let f = rw absent at t in cc)
    | inr (l, g) ↦ rw g (remove_found cells o p a m l v g e)
  ]

  -- A removal of an order that the level does not have changes nothing.
  remove_missing-state :
      (cells : Side → ℕ → List Cell) (o : BookOrder) (p : ℕ) (m : Market)
      → IsSound cells m
      → find o.id (cells o.side p) ≡ none
      → state_of (remove o (some p) m) ≡ m
  unfolding remove remove_at
  remove_missing-state cells o p m v e = elim (Option-cases (D.get (side_levels o.side m.book) p)) [
    | inl absent ↦ rw absent refl
    | inr (l, g) ↦
        let old : Holds m.nodes l (cells o.side p) = rw g at (v.held o.side p) in
        rw g (rw (remove_missing o.id l m.nodes (cells o.side p) old e) refl)
  ]

  -- Some lists of cells are those of the levels.
  abbrev pub Sound : Market → Type 0
  Sound m = (cells : Side → ℕ → List Cell) × IsSound cells m

  pub append-Sound :
      (o : BookOrder) (price : Option ℕ) (m : Market)
      → Sound m
      → Sound (state_of (append o price m))
  unfolding append
  append-Sound o none m v = v
  append-Sound o (some p) m (cells, v) = elim (Option-cases (find o.id (cells o.side p))) [
    | inl new ↦
        let (m', r, w) = append-IsSound cells o p m v new in
        rw r (replaced cells o.side p (cells o.side p ++ (cell m.nodes.fresh o.ref o.id ∷ [])), w)
    | inr (a, old) ↦
        let (m', r, w) = append_duplicate-IsSound cells o p a m v old in rw r (cells, w)
  ]

  pub remove-Sound :
      (o : BookOrder) (price : Option ℕ) (m : Market)
      → Sound m
      → Sound (state_of (remove o price m))
  unfolding remove
  remove-Sound o none m v = v
  remove-Sound o (some p) m (cells, v) = elim (Option-cases (find o.id (cells o.side p))) [
    | inl missing ↦ rw (remove_missing-state cells o p m v missing) (cells, v)
    | inr (a, found) ↦
        let (m', r, w) = remove-IsSound cells o p a m v found in
        rw r (replaced cells o.side p (without o.id (cells o.side p)), w)
  ]

  -- If the book is sound, `get_orders` at a price goes through the orders of the cells of that
  -- level, the first that was appended first, with as many steps as there are cells or more.
  pub get_orders-IsSound :
      (fuel : ℕ) (cells : Side → ℕ → List Cell) (side : Side) (p : ℕ) (m : Market)
      → IsSound cells m
      → length (cells side p) ≤ fuel
      → walk fuel (get_orders p side m) m.nodes ≡ map (λ (x : Cell). x.order) (cells side p)
  unfolding get_orders
  get_orders-IsSound fuel cells side p m v enough =
      let w = v.held side p in
      rw (head_is (D.get (side_levels side m.book) p), w.at_head)
        (walk-Linked fuel m.nodes none (cells side p) enough w.linked)
    where
      head_is : (o : Option PriceLevel) → level_head o ≡ (level_or_new o).head
      head_is none = refl
      head_is (some l) = refl
