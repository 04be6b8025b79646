-- ===== src/PriceLevel/Frame.antt =====
-- What `append` and `remove` of a level (src/engine/orderbook/price_level.py) leave alone on the
-- heap: the nodes of other levels.
use spectuel_backend.Prelude.{
  ℕ, ◌<◌, ◌≤◌, ◌≡◌, ◌≢◌, none, some, List, [], ◌∷◌, ◌++◌, arith, All, sym,
}
use spectuel_backend.Errors.{ok}
use spectuel_backend.PriceLevel.{Nodes, PriceLevel, append, remove}
use spectuel_backend.PriceLevel.Chain.{Cell, Holds, Apart, Below, find, without, Linked-frame}
use spectuel_backend.PriceLevel.Append.{cell, append_heap_lem, append_result}
use spectuel_backend.PriceLevel.Unlink.{before, after, joined-Apart, joined_fresh}
use spectuel_backend.PriceLevel.Remove.{remove_heap, Apart-without}

-- From `h` to `g`, no allocated node but those of the cells changes.
pub record Spares (h g : Nodes) (xs : List Cell) : Type 0 where
  pub grows : h.fresh ≤ g.fresh
  pub same : (b : ℕ) → b < h.fresh → Apart b xs → g.node_at b ≡ h.node_at b

-- Each cell of the second list is none of the first's.
abbrev pub Disjoint : List Cell → List Cell → Type 0
Disjoint xs ys = All (λ (y : Cell). Apart y.addr xs) ys

Disjoint-cons :
    (x : Cell) (xs ys : List Cell) → Apart x.addr ys → Disjoint ys xs → Disjoint ys (x ∷ xs)
Disjoint-cons x xs ys a d = (a, d)

Disjoint-drop : (x : Cell) (xs ys : List Cell) → Disjoint (x ∷ xs) ys → Disjoint xs ys
Disjoint-drop x xs [] d = tt
Disjoint-drop x xs (y ∷ ys) d = (d.0.1, Disjoint-drop x xs ys d.1)

head-Apart : (x : Cell) (xs ys : List Cell) → Disjoint (x ∷ xs) ys → Apart x.addr ys
head-Apart x xs [] d = tt
head-Apart x xs (y ∷ ys) d = ((λ e. d.0.0 (sym e)), head-Apart x xs ys d.1)

pub Disjoint-sym : (xs ys : List Cell) → Disjoint xs ys → Disjoint ys xs
Disjoint-sym [] ys d = tt
Disjoint-sym (x ∷ xs) ys d = (head-Apart x xs ys d, Disjoint-sym xs ys (Disjoint-drop x xs ys d))

spared-All :
    (h g : Nodes) (xs ys : List Cell)
    → Spares h g xs
    → Disjoint xs ys
    → Below h.fresh ys
    → All (λ (y : Cell). g.node_at y.addr ≡ h.node_at y.addr) ys
spared-All h g xs [] s d b = tt
spared-All h g xs (y ∷ ys) s d b = (s.same y.addr b.0 d.0, spared-All h g xs ys s d.1 b.1)

Below-grow : (m n : ℕ) (ys : List Cell) → m ≤ n → Below m ys → Below n ys
Below-grow m n [] le b = tt
Below-grow m n (y ∷ ys) le b = (omega arith, Below-grow m n ys le b.1)

-- A level none of whose cells is touched holds what it held.
pub spared-Holds :
    (h g : Nodes) (l : PriceLevel) (xs ys : List Cell)
    → Spares h g xs
    → Disjoint xs ys
    → Holds h l ys
    → Holds g l ys
spared-Holds h g l xs ys s d v = record {
  at_head = v.at_head;
  at_tail = v.at_tail;
  linked = Linked-frame h g none ys v.linked (spared-All h g xs ys s d v.below);
  distinct = v.distinct;
  below = Below-grow h.fresh g.fresh ys s.grows v.below;
  tracked = v.tracked;
}

pub append-Spares :
    (o i : ℕ) (l l' : PriceLevel) (h h' : Nodes) (xs : List Cell)
    → Holds h l xs
    → find i xs ≡ none
    → append o i l h ≡ ok (l', h')
    → Spares h h' xs
append-Spares o i l l' h h' xs v e r =
    let eq = append_result o i l l' h h' xs v e r in
    let (fresh, same) = append_heap_lem o h xs in
    record { grows = rw eq (omega (arith, fresh)); same = λ b lt d. rw eq (same b lt d) }

pub remove-Spares :
    (i a : ℕ) (l l' : PriceLevel) (h h' : Nodes) (xs : List Cell)
    → Holds h l xs
    → find i xs ≡ some a
    → remove i l h ≡ ok (l', h')
    → Spares h h' xs
remove-Spares i a l l' h h' xs v e r =
    let eq = remove_heap i a l l' h h' xs v e r in
    record {
      grows = rw eq (omega (arith, joined_fresh (before none i xs) (after i xs) h));
      same = λ b lt d. rw eq (joined-Apart i b h xs d);
    }

-- The cells that `append` and `remove` leave on a level are apart from those of any other level.
pub Disjoint-snoc :
    (n o i : ℕ) (xs ys : List Cell)
    → Disjoint xs ys
    → Below n ys
    → Disjoint (xs ++ (cell n o i ∷ [])) ys
Disjoint-snoc n o i xs [] d b = tt
Disjoint-snoc n o i xs (y ∷ ys) d b =
    (Apart-snoc xs y.addr n o i d.0 (λ e. omega (arith, b.0)), Disjoint-snoc n o i xs ys d.1 b.1)
  where
    Apart-snoc :
        (xs : List Cell) (a n o i : ℕ) → Apart a xs → n ≢ a → Apart a (xs ++ (cell n o i ∷ []))
    Apart-snoc [] a n o i d ne = (ne, tt)
    Apart-snoc (x ∷ xs) a n o i d ne = (d.0, Apart-snoc xs a n o i d.1 ne)

pub Disjoint-without : (i : ℕ) (xs ys : List Cell) → Disjoint xs ys → Disjoint (without i xs) ys
Disjoint-without i xs [] d = tt
Disjoint-without i xs (y ∷ ys) d = (Apart-without y.addr i xs d.0, Disjoint-without i xs ys d.1)
