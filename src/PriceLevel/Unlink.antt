-- ===== src/PriceLevel/Unlink.antt =====
-- The pointer writes of `PriceLevel.remove` (src/engine/orderbook/price_level.py) on a chain.
use spectuel_backend.Prelude.{
  ℕ, ◌≡◌, refl, ◌≢◌, Option, none, some, List, [], ◌∷◌, arith, ◌==◌, if◌then◌else◌, All, is_ref,
  inl, inr, Bool-cases, ◌∙◌,
}
use spectuel_backend.PriceLevel.{Nodes, set_next, set_prev, through, unlink}
use spectuel_backend.PriceLevel.Chain.{
  Cell, first, last_of, Linked, Apart, Distinct, find, without, Linked-frame,
}

-- The neighbours of the node that holds the order `i`.
abbrev pub before : Option ℕ → ℕ → List Cell → Option ℕ
before p i [] = none
before p i (x ∷ xs) = if i == x.id then p else before (some x.addr) i xs

abbrev pub after : ℕ → List Cell → Option ℕ
after i [] = none
after i (x ∷ xs) = if i == x.id then first xs else after i xs

pub node_of :
    (i a : ℕ) (h : Nodes) (p : Option ℕ) (xs : List Cell)
    → Linked h p xs
    → find i xs ≡ some a
    → ((h.node_at a).prev ≡ before p i xs) × ((h.node_at a).next ≡ after i xs)
node_of i a h p [] s e = absurd (cc)
node_of i a h p (x ∷ xs) s e = ground (arith, node_of i a h (some x.addr) xs s.1)

-- The heap after the neighbours of a cell have been linked to each other.
abbrev pub joined : Option ℕ → Option ℕ → Nodes → Nodes
joined p q h = through q (λ b. set_prev b p) (through p (λ a. set_next a q) h)

joined_same :
    (p q : Option ℕ) (h : Nodes) (a : ℕ)
    → p ≢ some a
    → q ≢ some a
    → (joined p q h).node_at a ≡ h.node_at a
unfolding set_prev set_next
joined_same none none h a np nq = refl
joined_same none (some b) h a np nq = ground arith
joined_same (some c) none h a np nq = ground arith
joined_same (some c) (some b) h a np nq = ground arith

Apart-first : (a : ℕ) (xs : List Cell) → Apart a xs → first xs ≢ some a
Apart-first a [] d = λ e. cc
Apart-first a (x ∷ xs) d = λ e. ground arith

-- Cells that are neither neighbour keep their links.
frame_joined :
    (p q : Option ℕ) (h : Nodes) (xs : List Cell)
    → All (λ (x : Cell). (p ≢ some x.addr) × (q ≢ some x.addr)) xs
    → All (λ (x : Cell). (joined p q h).node_at x.addr ≡ h.node_at x.addr) xs
frame_joined p q h [] d = tt
frame_joined p q h (x ∷ xs) d = (joined_same p q h x.addr d.0.0 d.0.1, frame_joined p q h xs d.1)

outside :
    (p : Option ℕ) (y : Cell) (ys : List Cell)
    → All (λ (x : Cell). p ≢ some x.addr) ys
    → Apart y.addr ys
    → All (λ (x : Cell). (p ≢ some x.addr) × (some y.addr ≢ some x.addr)) ys
outside p y [] d a = tt
outside p y (x ∷ xs) d a = ((d.0, λ e. ground arith), outside p y xs d.1 a.1)

-- The list behind the joined cell is linked to `p`.
rejoin :
    (h : Nodes) (p q : Option ℕ) (xs : List Cell)
    → Linked h q xs
    → Distinct xs
    → All (λ (x : Cell). p ≢ some x.addr) xs
    → Linked (joined p (first xs) h) p xs
unfolding set_prev set_next
rejoin h p q [] s d o = tt
rejoin h none q (x ∷ xs) s d o = (
  ground arith,
  Linked-frame h (joined none (some x.addr) h) (some x.addr) xs s.1
      (frame_joined none (some x.addr) h xs (outside none x xs o.1 d.0)),
)
rejoin h (some c) q (x ∷ xs) s d o = (
  ground arith,
  Linked-frame h (joined (some c) (some x.addr) h) (some x.addr) xs s.1
      (frame_joined (some c) (some x.addr) h xs (outside (some c) x xs o.1 d.0)),
)

before-Apart :
    (a i : ℕ) (p : Option ℕ) (xs : List Cell) → Apart a xs → p ≢ some a → before p i xs ≢ some a
before-Apart a i p [] d np = λ e. cc
before-Apart a i p (x ∷ xs) d np = ground (arith, before-Apart a i (some x.addr) xs d.1)

after-Apart : (a i : ℕ) (xs : List Cell) → Apart a xs → after i xs ≢ some a
after-Apart a i [] d = λ e. cc
after-Apart a i (x ∷ xs) d = ground (arith, after-Apart a i xs d.1, Apart-first a xs d.1)

Apart-All : (a : ℕ) (xs : List Cell) → Apart a xs → All (λ (x : Cell). some a ≢ some x.addr) xs
Apart-All a [] d = tt
Apart-All a (x ∷ xs) d = (λ e. ground arith, Apart-All a xs d.1)

-- The cell before the part that changes.
joined_cell :
    (i : ℕ) (h : Nodes) (p : Option ℕ) (x : Cell) (xs : List Cell) (a : ℕ)
    → Linked h p (x ∷ xs)
    → Apart x.addr xs
    → find i xs ≡ some a
    → (joined (before (some x.addr) i xs) (after i xs) h).node_at x.addr
      ≡ record { order = x.order; prev = p; next = first (without i xs) }
unfolding set_next set_prev
joined_cell i h p x [] a s d e = absurd (cc)
joined_cell i h p x (y ∷ ys) a s d e = elim (Bool-cases (i == y.id)) [
  | inl hit ↦ rw hit (joined_next (first ys) (Apart-first x.addr ys d.1))
  | inr miss ↦ rw miss (
      joined_same (before (some y.addr) i ys) (after i ys) h x.addr
        (before-Apart x.addr i (some y.addr) ys d.1 (λ r. ground arith))
        (after-Apart x.addr i ys d.1)
      ∙ s.0)
]
  where
    joined_next :
        (q : Option ℕ)
        → q ≢ some x.addr
        → (joined (some x.addr) q h).node_at x.addr ≡ record { order = x.order; prev = p; next = q }
    joined_next none nq = ground (arith, s.0)
    joined_next (some b) nq = ground (arith, s.0)

-- Joining the neighbours of a cell leaves a chain of the other cells.
pub joined-Linked :
    (i a : ℕ) (h : Nodes) (p : Option ℕ) (xs : List Cell)
    → Linked h p xs
    → Distinct xs
    → All (λ (x : Cell). p ≢ some x.addr) xs
    → find i xs ≡ some a
    → Linked (joined (before p i xs) (after i xs) h) p (without i xs)
joined-Linked i a h p [] s d o e = tt
joined-Linked i a h p (x ∷ xs) s d o e = elim (Bool-cases (i == x.id)) [
  | inl hit ↦ rw hit (rejoin h p (some x.addr) xs s.1 d.2 o.1)
  | inr miss ↦
      let e' : find i xs ≡ some a = rw miss at e in
      rw miss (
        joined_cell i h p x xs a s d.0 e',
        joined-Linked i a h (some x.addr) xs s.1 d.2 (Apart-All x.addr xs d.0) e',
      )
]

find-Apart : (i a b : ℕ) (xs : List Cell) → Apart b xs → find i xs ≡ some a → b ≢ a
find-Apart i a b [] d e = absurd (cc)
find-Apart i a b (x ∷ xs) d e = ground (arith, find-Apart i a b xs d.1)

last-Apart :
    (a : ℕ) (p : Option ℕ) (xs : List Cell) → Apart a xs → p ≢ some a → last_of p xs ≢ some a
last-Apart a p [] d np = np
last-Apart a p (x ∷ xs) d np = last-Apart a (some x.addr) xs d.1 (λ e. ground arith)

-- A node is neither of its own neighbours.
before_self :
    (i a : ℕ) (p : Option ℕ) (xs : List Cell)
    → Distinct xs
    → p ≢ some a
    → find i xs ≡ some a
    → before p i xs ≢ some a
before_self i a p [] d np e = absurd (cc)
before_self i a p (x ∷ xs) d np e =
    ground (arith, before_self i a (some x.addr) xs d.2, find-Apart i a x.addr xs d.0)

after_self : (i a : ℕ) (xs : List Cell) → Distinct xs → find i xs ≡ some a → after i xs ≢ some a
after_self i a [] d e = absurd (cc)
after_self i a (x ∷ xs) d e = ground (arith, after_self i a xs d.2, Apart-first x.addr xs d.0)

-- Where the neighbours lie, `unlink` joins them, and leaves the node itself as it was.
pub unlink-joined :
    (n : ℕ) (p q : Option ℕ) (h : Nodes)
    → (h.node_at n).prev ≡ p
    → (h.node_at n).next ≡ q
    → p ≢ some n
    → unlink n h ≡ joined p q h
unfolding unlink set_next set_prev
unlink-joined n none none h ep eq np = ground arith
unlink-joined n none (some b) h ep eq np = ground arith
unlink-joined n (some c) none h ep eq np = ground arith
unlink-joined n (some c) (some b) h ep eq np = ground arith

pub joined_self :
    (i a : ℕ) (h : Nodes) (p : Option ℕ) (xs : List Cell)
    → Distinct xs
    → p ≢ some a
    → find i xs ≡ some a
    → (before p i xs ≢ some a) × ((joined (before p i xs) (after i xs) h).node_at a ≡ h.node_at a)
joined_self i a h p xs d np e = (
  before_self i a p xs d np e,
  joined_same (before p i xs) (after i xs) h a (before_self i a p xs d np e)
      (after_self i a xs d e),
)

pub first-without :
    (i a : ℕ) (xs : List Cell)
    → Distinct xs
    → find i xs ≡ some a
    → first (without i xs) ≡ (if is_ref (first xs) a then after i xs else first xs)
first-without i a [] d e = absurd (cc)
first-without i a (x ∷ xs) d e = ground (arith, find-Apart i a x.addr xs d.0)

pub last_of-without :
    (i a : ℕ) (p : Option ℕ) (xs : List Cell)
    → Distinct xs
    → find i xs ≡ some a
    → last_of p (without i xs) ≡ (if is_ref (last_of p xs) a then before p i xs else last_of p xs)
last_of-without i a p [] d e = absurd (cc)
last_of-without i a p (x ∷ []) d e = ground arith
last_of-without i a p (x ∷ y ∷ ys) d e = ground (
  arith,
  last_of-without i a (some x.addr) (y ∷ ys) d.2,
  last-Apart x.addr (some y.addr) ys d.0.1,
)

pub joined_fresh : (p q : Option ℕ) (h : Nodes) → (joined p q h).fresh ≡ h.fresh
unfolding set_next set_prev
joined_fresh none none h = refl
joined_fresh none (some b) h = refl
joined_fresh (some c) none h = refl
joined_fresh (some c) (some b) h = refl

pub joined-Apart :
    (i b : ℕ) (h : Nodes) (xs : List Cell)
    → Apart b xs
    → (joined (before none i xs) (after i xs) h).node_at b ≡ h.node_at b
joined-Apart i b h xs d =
    joined_same (before none i xs) (after i xs) h b (before-Apart b i none xs d (λ e. cc))
      (after-Apart b i xs d)
