-- ===== src/PriceLevel/Chain.antt =====
-- What a price level stands for: a list of cells, each a node's address, its order and the
-- order's id, linked both ways on the heap.
use spectuel_backend.Prelude.{
  ℕ, zero, suc, ◌<◌, ◌≤◌, ◌≡◌, refl, ◌≢◌, Option, none, some, List, [], ◌∷◌, map, arith, ◌==◌,
  if◌then◌else◌, All, length, ap,
}
use spectuel_backend.PriceLevel.{Nodes, PriceLevel, walk}

pub record Cell : Type 0 where
  pub addr : ℕ
  pub order : ℕ
  pub id : ℕ

abbrev pub first : List Cell → Option ℕ
first [] = none
first (x ∷ xs) = some x.addr

abbrev pub last_of : Option ℕ → List Cell → Option ℕ
last_of p [] = p
last_of p (x ∷ xs) = last_of (some x.addr) xs

-- The cells are the nodes behind `p`, each linked to its neighbours.
abbrev pub Linked : Nodes → Option ℕ → List Cell → Type 0
Linked h p [] = Unit
Linked h p (x ∷ xs) =
    (h.node_at x.addr ≡ record { order = x.order; prev = p; next = first xs })
    × Linked h (some x.addr) xs

-- No cell of the list is the node `a`.
abbrev pub Apart : ℕ → List Cell → Type 0
Apart a [] = Unit
Apart a (x ∷ xs) = (x.addr ≢ a) × Apart a xs

abbrev pub Unlike : ℕ → List Cell → Type 0
Unlike i [] = Unit
Unlike i (x ∷ xs) = (x.id ≢ i) × Unlike i xs

-- All nodes and all order ids differ.
abbrev pub Distinct : List Cell → Type 0
Distinct [] = Unit
Distinct (x ∷ xs) = Apart x.addr xs × Unlike x.id xs × Distinct xs

-- Every node of the list has been allocated.
abbrev pub Below : ℕ → List Cell → Type 0
Below n [] = Unit
Below n (x ∷ xs) = (x.addr < n) × Below n xs

-- The tracker's answer: the node that holds the order with this id.
abbrev pub find : ℕ → List Cell → Option ℕ
find i [] = none
find i (x ∷ xs) = if i == x.id then some x.addr else find i xs

-- The cells without the order `i`.
abbrev pub without : ℕ → List Cell → List Cell
without i [] = []
without i (x ∷ xs) = if i == x.id then xs else x ∷ without i xs

-- The representation invariant: level and heap hold exactly these cells, in this order.
pub record Holds (h : Nodes) (l : PriceLevel) (xs : List Cell) : Type 0 where
  pub at_head : l.head ≡ first xs
  pub at_tail : l.tail ≡ last_of none xs
  pub linked : Linked h none xs
  pub distinct : Distinct xs
  pub below : Below h.fresh xs
  pub tracked : (i : ℕ) → l.tracker i ≡ find i xs

-- A chain survives any change that spares its own nodes.
pub Linked-frame :
    (h g : Nodes) (p : Option ℕ) (xs : List Cell)
    → Linked h p xs
    → All (λ (x : Cell). g.node_at x.addr ≡ h.node_at x.addr) xs
    → Linked g p xs
Linked-frame h g p [] s e = tt
Linked-frame h g p (x ∷ xs) s e = (rw e.0 s.0, Linked-frame h g (some x.addr) xs s.1 e.1)

pub Apart-of_Below : (n : ℕ) (xs : List Cell) → Below n xs → Apart n xs
Apart-of_Below n [] b = tt
Apart-of_Below n (x ∷ xs) b = (omega arith, Apart-of_Below n xs b.1)

pub Below-suc : (n : ℕ) (xs : List Cell) → Below n xs → Below (suc n) xs
Below-suc n [] b = tt
Below-suc n (x ∷ xs) b = (omega arith, Below-suc n xs b.1)

-- Walking a chain gives its orders in list order.
pub walk-Linked :
    (fuel : ℕ) (h : Nodes) (p : Option ℕ) (xs : List Cell)
    → length xs ≤ fuel
    → Linked h p xs
    → walk fuel (first xs) h ≡ map (λ (x : Cell). x.order) xs
unfolding walk
walk-Linked zero h p [] b s = refl
walk-Linked zero h p (x ∷ xs) b s = absurd (omega arith)
walk-Linked (suc fuel) h p [] b s = refl
walk-Linked (suc fuel) h p (x ∷ xs) b s =
    rw s.0 (ap (λ r. x.order ∷ r) (walk-Linked fuel h (some x.addr) xs (omega arith) s.1))
