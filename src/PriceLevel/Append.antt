-- ===== src/PriceLevel/Append.antt =====
-- `PriceLevel.append` (src/engine/orderbook/price_level.py) on the cells that a level holds.
use spectuel_backend.Prelude.{
  ℕ, suc, ◌<◌, ◌≡◌, refl, ◌≢◌, Option, none, some, List, [], ◌∷◌, ◌++◌, arith, ◌==◌, if◌then◌else◌,
  put, sym, ◌∙◌,
}
use spectuel_backend.Errors.{ok_second, ok, err, value_error}
use spectuel_backend.PriceLevel.{
  Nodes, PriceLevel, set_next, set_prev, alloc, link_last, append_new, append,
}
use spectuel_backend.PriceLevel.Chain.{
  Cell, first, last_of, Linked, Apart, Unlike, Distinct, Below, find, Holds, Apart-of_Below,
  Below-suc,
}

abbrev pub cell : ℕ → ℕ → ℕ → Cell
cell a o i = record { addr = a; order = o; id = i }

-- The address of the last cell of a list that is not empty.
abbrev last_addr : Cell → List Cell → ℕ
last_addr x [] = x.addr
last_addr x (y ∷ ys) = last_addr y ys

last_of_cons :
    (p : Option ℕ) (x : Cell) (xs : List Cell) → last_of p (x ∷ xs) ≡ some (last_addr x xs)
last_of_cons p x [] = refl
last_of_cons p x (y ∷ ys) = last_of_cons (some x.addr) y ys

Apart-last : (a : ℕ) (x : Cell) (xs : List Cell) → Apart a (x ∷ xs) → last_addr x xs ≢ a
Apart-last a x [] d = d.0
Apart-last a x (y ∷ ys) d = Apart-last a y ys d.1

Linked-snoc :
    (h g : Nodes) (p : Option ℕ) (x : Cell) (xs : List Cell) (n o i : ℕ)
    → Linked h p (x ∷ xs)
    → Distinct (x ∷ xs)
    → Apart n (x ∷ xs)
    → ((a : ℕ) → a ≢ n → a ≢ last_addr x xs → g.node_at a ≡ h.node_at a)
    → g.node_at (last_addr x xs) ≡ record {
      order = (h.node_at (last_addr x xs)).order;
      prev = (h.node_at (last_addr x xs)).prev;
      next = some n;
    }
    → g.node_at n ≡ record { order = o; prev = some (last_addr x xs); next = none }
    → Linked g p ((x ∷ xs) ++ (cell n o i ∷ []))
Linked-snoc h g p x [] n o i s d f same at_last at_new = (at_last ∙ rw s.0 refl, (at_new, tt))
Linked-snoc h g p x (y ∷ ys) n o i s d f same at_last at_new = (
  same x.addr f.0 (λ e. Apart-last x.addr y ys d.0 (sym e)) ∙ s.0,
  Linked-snoc h g (some x.addr) y ys n o i s.1 d.2 f.1 same at_last at_new,
)

Apart-snoc :
    (a : ℕ) (xs : List Cell) (c : Cell) → Apart a xs → c.addr ≢ a → Apart a (xs ++ (c ∷ []))
Apart-snoc a [] c d e = (e, tt)
Apart-snoc a (x ∷ xs) c d e = (d.0, Apart-snoc a xs c d.1 e)

Unlike-snoc :
    (a : ℕ) (xs : List Cell) (c : Cell) → Unlike a xs → c.id ≢ a → Unlike a (xs ++ (c ∷ []))
Unlike-snoc a [] c d e = (e, tt)
Unlike-snoc a (x ∷ xs) c d e = (d.0, Unlike-snoc a xs c d.1 e)

pub Unlike-of_find : (i : ℕ) (xs : List Cell) → find i xs ≡ none → Unlike i xs
Unlike-of_find i [] e = tt
Unlike-of_find i (x ∷ xs) e = (ground arith, Unlike-of_find i xs (ground arith))

Distinct-snoc :
    (xs : List Cell) (c : Cell)
    → Distinct xs
    → Apart c.addr xs
    → Unlike c.id xs
    → Distinct (xs ++ (c ∷ []))
Distinct-snoc [] c d a u = (tt, tt, tt)
Distinct-snoc (x ∷ xs) c d a u = (
  Apart-snoc x.addr xs c d.0 (λ e. a.0 (sym e)),
  Unlike-snoc x.id xs c d.1 (λ e. u.0 (sym e)),
  Distinct-snoc xs c d.2 a.1 u.1,
)

Below-snoc :
    (n : ℕ) (xs : List Cell) (c : Cell) → Below n xs → c.addr < n → Below n (xs ++ (c ∷ []))
Below-snoc n [] c b e = (e, tt)
Below-snoc n (x ∷ xs) c b e = (b.0, Below-snoc n xs c b.1 e)

find-snoc :
    (j : ℕ) (xs : List Cell) (c : Cell)
    → find c.id xs ≡ none
    → find j (xs ++ (c ∷ [])) ≡ (if j == c.id then some c.addr else find j xs)
find-snoc j [] c e = ground arith
find-snoc j (x ∷ xs) c e = ground (arith, find-snoc j xs c)

last_of-snoc : (p : Option ℕ) (xs : List Cell) (c : Cell) → last_of p (xs ++ (c ∷ [])) ≡ some c.addr
last_of-snoc p [] c = refl
last_of-snoc p (x ∷ xs) c = last_of-snoc (some x.addr) xs c

first-snoc : (x : Cell) (xs : List Cell) (c : Cell) → first ((x ∷ xs) ++ (c ∷ [])) ≡ some x.addr
first-snoc x xs c = refl

-- The three writes of `append` on an occupied level, read back.
module _ (o t : ℕ) (h : Nodes) where
  linked_heap : Nodes
  unfolding alloc
  linked_heap = set_prev h.fresh (some t) (set_next t (some h.fresh) (alloc o h))

  linked_same : (a : ℕ) → a ≢ h.fresh → a ≢ t → linked_heap.node_at a ≡ h.node_at a
  unfolding linked_heap alloc set_next set_prev
  linked_same a ne ne' = ground arith

  linked_last :
      t ≢ h.fresh
      → linked_heap.node_at t
        ≡ record { order = (h.node_at t).order; prev = (h.node_at t).prev; next = some h.fresh }
  unfolding linked_heap alloc set_next set_prev
  linked_last ne = ground arith

  linked_new :
      t ≢ h.fresh → linked_heap.node_at h.fresh ≡ record { order = o; prev = some t; next = none }
  unfolding linked_heap alloc set_next set_prev
  linked_new ne = ground arith

-- If a level and the heap hold a list of cells and the order's id is not in the list, then an
-- append succeeds, and the level and the heap hold the list with a new cell for the order behind
-- the others.
pub append-Holds :
    (o i : ℕ) (l : PriceLevel) (h : Nodes) (xs : List Cell)
    → Holds h l xs
    → find i xs ≡ none
    → (l' : PriceLevel) × (h' : Nodes) × (append o i l h ≡ ok (l', h'))
      × Holds h' l' (xs ++ (cell h.fresh o i ∷ []))
unfolding append append_new link_last linked_heap alloc set_next set_prev
append-Holds o i l h [] v e = (
  record { head = some h.fresh; tail = some h.fresh; tracker = put l.tracker i h.fresh },
  alloc o h,
  rw (v.tracked i, v.at_head, append_new) refl,
  record {
    at_head = refl;
    at_tail = refl;
    linked = (ground arith, tt);
    distinct = (tt, tt, tt);
    below = (omega arith, tt);
    tracked = λ j. ground (arith, v.tracked j);
  },
)
append-Holds o i l h (x ∷ xs) v e =
    let n = h.fresh in
    let t = last_addr x xs in
    let apart = Apart-of_Below n (x ∷ xs) v.below in
    let other = Apart-last n x xs apart in
    (
      record { head = l.head; tail = some n; tracker = put l.tracker i n },
      linked_heap o t h,
      simp (v.tracked i, e, v.at_head, v.at_tail ∙ last_of_cons none x xs, append_new, link_last),
      record {
        at_head = v.at_head;
        at_tail = sym (last_of-snoc none (x ∷ xs) (cell n o i));
        linked =
            Linked-snoc h (linked_heap o t h) none x xs n o i v.linked v.distinct apart
              (linked_same o t h) (linked_last o t h other) (linked_new o t h other);
        distinct =
            Distinct-snoc (x ∷ xs) (cell n o i) v.distinct apart (Unlike-of_find i (x ∷ xs) e);
        below =
            Below-snoc (suc n) (x ∷ xs) (cell n o i) (Below-suc n (x ∷ xs) v.below) (omega arith);
        tracked = λ j. rw (find-snoc j (x ∷ xs) (cell n o i) e, v.tracked j) refl;
      },
    )

-- If a level and the heap hold a list of cells and the order's id is in the list, then an append
-- raises ValueError.
pub append_duplicate :
    (o i a : ℕ) (l : PriceLevel) (h : Nodes) (xs : List Cell)
    → Holds h l xs
    → find i xs ≡ some a
    → append o i l h ≡ err value_error
unfolding append
append_duplicate o i a l h xs v e = rw (v.tracked i, e) refl

-- The heap after an append.
pub append_heap : ℕ → Nodes → List Cell → Nodes
append_heap o h [] = alloc o h
append_heap o h (x ∷ xs) = linked_heap o (last_addr x xs) h

append_done :
    (o i : ℕ) (l : PriceLevel) (h : Nodes) (xs : List Cell)
    → Holds h l xs
    → find i xs ≡ none
    → (l' : PriceLevel) × (append o i l h ≡ ok (l', append_heap o h xs))
unfolding append append_new append_heap link_last linked_heap alloc set_next set_prev
append_done o i l h [] v e = (
  record { head = some h.fresh; tail = some h.fresh; tracker = put l.tracker i h.fresh },
  rw (v.tracked i, v.at_head, append_new) refl,
)
append_done o i l h (x ∷ xs) v e = (
  record { head = l.head; tail = some h.fresh; tracker = put l.tracker i h.fresh },
  simp (v.tracked i, e, v.at_head, v.at_tail ∙ last_of_cons none x xs, append_new, link_last),
)

-- An append grows the heap by one node and writes no allocated node but those of the cells.
pub append_heap_lem :
    (o : ℕ) (h : Nodes) (xs : List Cell)
    → ((append_heap o h xs).fresh ≡ suc h.fresh)
      × ((b : ℕ) → b < h.fresh → Apart b xs → (append_heap o h xs).node_at b ≡ h.node_at b)
unfolding append_heap alloc linked_heap set_next set_prev
append_heap_lem o h [] = (refl, λ b lt d. ground arith)
append_heap_lem o h (x ∷ xs) = (
  refl,
  λ b lt d.
      linked_same o (last_addr x xs) h b (λ e. omega arith) (λ e. Apart-last b x xs d (sym e)),
)

pub append_result :
    (o i : ℕ) (l l' : PriceLevel) (h h' : Nodes) (xs : List Cell)
    → Holds h l xs
    → find i xs ≡ none
    → append o i l h ≡ ok (l', h')
    → h' ≡ append_heap o h xs
append_result o i l l' h h' xs v e r = ok_second (sym r ∙ (append_done o i l h xs v e).1)
