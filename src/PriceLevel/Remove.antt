-- ===== src/PriceLevel/Remove.antt =====
-- `PriceLevel.remove` (src/engine/orderbook/price_level.py) on the cells that a level holds.
use spectuel_backend.Prelude.{
  sym, ℕ, ◌≡◌, refl, ◌≢◌, none, some, List, [], ◌∷◌, arith, ◌==◌, if◌then◌else◌, All, is_ref,
  drop_key, ◌∙◌,
}
use spectuel_backend.Errors.{ok_second, ok, err, key_error}
use spectuel_backend.PriceLevel.{Nodes, PriceLevel, unlink, remove}
use spectuel_backend.PriceLevel.Chain.{Cell, Apart, Unlike, Distinct, Below, find, without, Holds}
use spectuel_backend.PriceLevel.Unlink.{
  before, after, joined, node_of, joined-Linked, unlink-joined, joined_self, first-without,
  last_of-without, joined_fresh,
}

pub Apart-without : (a i : ℕ) (xs : List Cell) → Apart a xs → Apart a (without i xs)
Apart-without a i [] d = tt
Apart-without a i (x ∷ xs) d = ground (arith, Apart-without a i xs d.1)

Unlike-without : (a i : ℕ) (xs : List Cell) → Unlike a xs → Unlike a (without i xs)
Unlike-without a i [] d = tt
Unlike-without a i (x ∷ xs) d = ground (arith, Unlike-without a i xs d.1)

Distinct-without : (i : ℕ) (xs : List Cell) → Distinct xs → Distinct (without i xs)
Distinct-without i [] d = tt
Distinct-without i (x ∷ xs) d =
    ground (
      arith,
      Apart-without x.addr i xs d.0,
      Unlike-without x.id i xs d.1,
      Distinct-without i xs d.2,
    )

Below-without : (n i : ℕ) (xs : List Cell) → Below n xs → Below n (without i xs)
Below-without n i [] b = tt
Below-without n i (x ∷ xs) b = ground (arith, Below-without n i xs b.1)

pub find-Unlike : (i : ℕ) (xs : List Cell) → Unlike i xs → find i xs ≡ none
find-Unlike i [] u = refl
find-Unlike i (x ∷ xs) u = ground (arith, find-Unlike i xs u.1)

find-without :
    (i j : ℕ) (xs : List Cell)
    → Distinct xs
    → find j (without i xs) ≡ (if j == i then none else find j xs)
find-without i j [] d = ground arith
find-without i j (x ∷ xs) d = ground (arith, find-without i j xs d.2, find-Unlike x.id xs d.1)

removed :
    (i a : ℕ) (l : PriceLevel) (h g : Nodes)
    → l.tracker i ≡ some a
    → unlink a h ≡ g
    → remove i l h
      ≡ ok (
        record {
          head = if is_ref l.head a then (g.node_at a).next else l.head;
          tail = if is_ref l.tail a then (g.node_at a).prev else l.tail;
          tracker = drop_key l.tracker i;
        },
        g,
      )
unfolding remove
removed i a l h g e u = rw (e, remove) (rw u refl)

-- If a level and the heap hold a list of cells and the order's id is in the list, then a removal
-- succeeds, and the level and the heap hold the list without that cell, in the same order and
-- linked both ways.
pub remove-Holds :
    (i a : ℕ) (l : PriceLevel) (h : Nodes) (xs : List Cell)
    → Holds h l xs
    → find i xs ≡ some a
    → (l' : PriceLevel) × (h' : Nodes) × (remove i l h ≡ ok (l', h')) × Holds h' l' (without i xs)
unfolding remove
remove-Holds i a l h xs v e =
    let p = before none i xs in
    let q = after i xs in
    let self = joined_self i a h none xs v.distinct (λ r. cc) e in
    let node = node_of i a h none xs v.linked e in
    let same = unlink-joined a p q h node.0 node.1 self.0 in
    (
      record {
        head = if is_ref l.head a then ((joined p q h).node_at a).next else l.head;
        tail = if is_ref l.tail a then ((joined p q h).node_at a).prev else l.tail;
        tracker = drop_key l.tracker i;
      },
      joined p q h,
      removed i a l h (joined p q h) (v.tracked i ∙ e) same,
      record {
        at_head = rw (v.at_head, self.1, node.1, first-without i a xs v.distinct e) refl;
        at_tail = rw (v.at_tail, self.1, node.0, last_of-without i a none xs v.distinct e) refl;
        linked = joined-Linked i a h none xs v.linked v.distinct (all_apart xs) e;
        distinct = Distinct-without i xs v.distinct;
        below = rw (joined_fresh p q h) (Below-without h.fresh i xs v.below);
        tracked = λ j. rw (find-without i j xs v.distinct, v.tracked j) refl;
      },
    )
  where
    all_apart : (ys : List Cell) → All (λ (x : Cell). none ≢ some x.addr) ys
    all_apart [] = tt
    all_apart (y ∷ ys) = (λ r. cc, all_apart ys)

-- If a level and the heap hold a list of cells and the order's id is not in the list, then a
-- removal raises KeyError.
pub remove_missing :
    (i : ℕ) (l : PriceLevel) (h : Nodes) (xs : List Cell)
    → Holds h l xs
    → find i xs ≡ none
    → remove i l h ≡ err key_error
unfolding remove
remove_missing i l h xs v e = rw (v.tracked i ∙ e, remove) refl

pub remove_heap :
    (i a : ℕ) (l l' : PriceLevel) (h h' : Nodes) (xs : List Cell)
    → Holds h l xs
    → find i xs ≡ some a
    → remove i l h ≡ ok (l', h')
    → h' ≡ joined (before none i xs) (after i xs) h
remove_heap i a l l' h h' xs v e r =
    let self = joined_self i a h none xs v.distinct (λ r. cc) e in
    let node = node_of i a h none xs v.linked e in
    let same = unlink-joined a (before none i xs) (after i xs) h node.0 node.1 self.0 in
    ok_second
      (sym r ∙ removed i a l h (joined (before none i xs) (after i xs) h) (v.tracked i ∙ e) same)
