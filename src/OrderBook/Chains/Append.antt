-- ===== src/OrderBook/Chains/Append.antt =====
-- `append` of `OrderBook` (src/engine/orderbook/orderbook.py) on the chains of all its levels.
use spectuel_backend.Prelude.{
  ℕ, ◌≡◌, refl, none, some, List, [], ◌∷◌, ◌++◌, inl, inr, Bool-cases, ◌∙◌,
}
use spectuel_backend.Errors.{done, raised, value_error}
use spectuel_backend.Enums.{Side}
use spectuel_backend.PriceLevel.{PriceLevel}
use spectuel_backend.PriceLevel.Chain.{Cell, Holds, find}
use spectuel_backend.PriceLevel.Append.{cell, append-Holds, append_duplicate}
use spectuel_backend.PriceLevel.Frame.{append-Spares, Disjoint-snoc}
use spectuel_backend.Sorted.{SortedDict}
use spectuel_backend.OrderBook.{
  Market, BookOrder, side_levels, set_levels, improve_best, append, append_at,
}
use spectuel_backend.OrderBook.Chains.{
  is_slot, slot_cases, is_slot_same, replaced, level_at, IsSound, changed-IsSound, level-stored,
  level-improved,
}

module _ ⦃D : SortedDict PriceLevel⦄ where
  -- If the book is sound and the level at a price does not have the order, an append at that
  -- price succeeds, and the book is sound with a new cell for the order behind the others of
  -- that level.
  pub append-IsSound :
      (cells : Side → ℕ → List Cell) (o : BookOrder) (p : ℕ) (m : Market)
      → IsSound cells m
      → find o.id (cells o.side p) ≡ none
      → (m' : Market) × (append o (some p) m ≡ done tt m')
        × IsSound
            (replaced cells o.side p (cells o.side p ++ (cell m.nodes.fresh o.ref o.id ∷ [])))
            m'
  unfolding append append_at
  append-IsSound cells o p m v e =
      let xs = cells o.side p in
      let b = improve_best o.side p m.book in
      let l = level_at o.side p b in
      let same : l ≡ level_at o.side p m.book = level-improved o.side o.side p p m.book in
      let old : Holds m.nodes l xs = rw same (v.held o.side p) in
      let (l', h', r, new) = append-Holds o.ref o.id l m.nodes xs old e in
      let m' : Market = record {
        book = set_levels o.side (D.set_item (side_levels o.side b) p l') b;
        nodes = h';
      } in
      let ys = xs ++ (cell m.nodes.fresh o.ref o.id ∷ []) in
      let level_is : level_at o.side p m'.book ≡ l' =
        level-stored o.side o.side p p l' b ∙ rw (is_slot_same o.side p) refl in
      (
        m',
        rw r refl,
        changed-IsSound cells o.side p ys m m' v (record {
          others =
              λ s q ne. level-stored o.side s p q l' b ∙ rw ne (level-improved o.side s p q m.book);
          holds = rw level_is new;
          spares = append-Spares o.ref o.id l l' m.nodes h' xs old e r;
          disjoint = λ zs d below. Disjoint-snoc m.nodes.fresh o.ref o.id xs zs d below;
        }),
      )

  -- If the book is sound and the level at a price has the order already, an append at that price
  -- raises ValueError, and the book is sound with the same cells.
  pub append_duplicate-IsSound :
      (cells : Side → ℕ → List Cell) (o : BookOrder) (p a : ℕ) (m : Market)
      → IsSound cells m
      → find o.id (cells o.side p) ≡ some a
      → (m' : Market) × (append o (some p) m ≡ raised value_error m') × IsSound cells m'
  unfolding append append_at
  append_duplicate-IsSound cells o p a m v e =
      let b = improve_best o.side p m.book in
      let l = level_at o.side p b in
      let same : l ≡ level_at o.side p m.book = level-improved o.side o.side p p m.book in
      let old : Holds m.nodes l (cells o.side p) = rw same (v.held o.side p) in
      let b' = set_levels o.side (D.set_item (side_levels o.side b) p l) b in
      (
        record { book = b'; nodes = m.nodes },
        rw (append_duplicate o.ref o.id a l m.nodes (cells o.side p) old e) refl,
        record {
          held = λ s q. elim (Bool-cases (is_slot o.side p s q)) [
            | inl hit ↦
                rw (level-stored o.side s p q l b, hit)
                  (slot_cases (λ t r. Holds m.nodes (level_at o.side p b) (cells t r)) o.side s p q
                    hit old)
            | inr miss ↦
                rw (level-stored o.side s p q l b, miss, level-improved o.side s p q m.book)
                  (v.held s q)
          ];
          apart = v.apart;
        },
      )
