-- ===== src/Publisher/Top.antt =====
-- The rows of a snapshot of `OrderBookPublisher` (src/services/orderbook_publisher/service.py) and
-- the levels that they come from.
use spectuel_backend.Prelude.{
  ℕ, zero, suc, ◌≤◌, ◌≡◌, refl, ◌∙◌, ◌⊎◌, inl, inr, true, false, none, some, List, [], ◌∷◌,
  if◌then◌else◌, ◌==◌, get_item, Unique, number_keyed, option_keyed, length, All, arith, Bool-cases,
}
use spectuel_backend.Enums.{Side}
use spectuel_backend.Publisher.Snapshot.{ahead, insert, sort, take, Ordered}

get-insert :
    (side : Side) (k q : ℕ) (rows : List (ℕ × ℕ)) (j : ℕ)
    → get_item rows k ≡ none
    → get_item (insert side k q rows) j ≡ (if j == k then some q else get_item rows j)
unfolding insert
get-insert side k q [] j e = refl
get-insert side k q ((i, w) ∷ rows) j e = elim (Bool-cases (ahead side k i)) [
  | inl before ↦ rw before refl
  | inr behind ↦ rw behind (ground (arith, get-insert side k q rows j))
]

All-insert :
    (side : Side) (b k q : ℕ) (rows : List (ℕ × ℕ))
    → ahead side b k ≡ true
    → All (λ (r : ℕ × ℕ). ahead side b r.0 ≡ true) rows
    → All (λ (r : ℕ × ℕ). ahead side b r.0 ≡ true) (insert side k q rows)
unfolding insert
All-insert side b k q [] e a = (e, tt)
All-insert side b k q ((i, w) ∷ rows) e a = elim (Bool-cases (ahead side k i)) [
  | inl before ↦ rw before (e, a)
  | inr behind ↦ rw behind (a.0, All-insert side b k q rows e a.1)
]

ahead_trans :
    (side : Side) (a b c : ℕ)
    → ahead side a b ≡ true
    → ahead side b c ≡ true
    → ahead side a c ≡ true
ahead_trans Side.bid a b c p q = ground arith
ahead_trans Side.ask a b c p q = ground arith

ahead_total :
    (side : Side) (a b : ℕ) → (a == b) ≡ false → ahead side a b ≡ false → ahead side b a ≡ true
ahead_total Side.bid a b p q = ground arith
ahead_total Side.ask a b p q = ground arith

All-ahead :
    (side : Side) (k i : ℕ) (rows : List (ℕ × ℕ))
    → ahead side k i ≡ true
    → All (λ (r : ℕ × ℕ). ahead side i r.0 ≡ true) rows
    → All (λ (r : ℕ × ℕ). ahead side k r.0 ≡ true) rows
All-ahead side k i [] e a = tt
All-ahead side k i ((j, w) ∷ rows) e a =
    (ahead_trans side k i j e a.0, All-ahead side k i rows e a.1)

absent_head :
    (k i w : ℕ) (rows : List (ℕ × ℕ))
    → get_item ((i, w) ∷ rows) k ≡ none
    → ((k == i) ≡ false) × (get_item rows k ≡ none)
absent_head k i w rows e = ground arith

Ordered-insert :
    (side : Side) (k q : ℕ) (rows : List (ℕ × ℕ))
    → get_item rows k ≡ none
    → Ordered side rows
    → Ordered side (insert side k q rows)
unfolding insert
Ordered-insert side k q [] e o = (tt, tt)
Ordered-insert side k q ((i, w) ∷ rows) e o =
    let (other, gone) = absent_head k i w rows e in
    elim (Bool-cases (ahead side k i)) [
      | inl before ↦ rw before ((before, All-ahead side k i rows before o.0), o)
      | inr behind ↦ rw behind (
        All-insert side i k q rows (ahead_total side k i other behind) o.0,
        Ordered-insert side k q rows gone o.1,
      )
    ]

pub sort_lem :
    (side : Side) (rows : List (ℕ × ℕ))
    → Unique rows
    → ((j : ℕ) → get_item (sort side rows) j ≡ get_item rows j) × Ordered side (sort side rows)
unfolding sort
sort_lem side [] u = (λ j. refl, tt)
sort_lem side ((k, q) ∷ rows) u =
    let (same, ordered) = sort_lem side rows u.1 in
    let gone : get_item (sort side rows) k ≡ none = same k ∙ u.0 in
    (
      λ j. get-insert side k q (sort side rows) j gone ∙ rw (same j) refl,
      Ordered-insert side k q (sort side rows) gone ordered,
    )

pub length-take : (n : ℕ) (rows : List (ℕ × ℕ)) → length (take n rows) ≤ n
length-take zero rows = omega arith
length-take (suc n) [] = omega arith
length-take (suc n) (r ∷ rows) = omega (arith, length-take n rows)

All-take : (P : ℕ × ℕ → Type 0) (n : ℕ) (rows : List (ℕ × ℕ)) → All P rows → All P (take n rows)
All-take P zero rows a = tt
All-take P (suc n) [] a = tt
All-take P (suc n) (r ∷ rows) a = (a.0, All-take P n rows a.1)

pub Ordered-take :
    (side : Side) (n : ℕ) (rows : List (ℕ × ℕ)) → Ordered side rows → Ordered side (take n rows)
Ordered-take side zero rows o = tt
Ordered-take side (suc n) [] o = tt
Ordered-take side (suc n) ((k, q) ∷ rows) o =
    (All-take (λ r. ahead side k r.0 ≡ true) n rows o.0, Ordered-take side n rows o.1)

pub get-take :
    (n : ℕ) (rows : List (ℕ × ℕ)) (k q : ℕ)
    → get_item (take n rows) k ≡ some q
    → get_item rows k ≡ some q
get-take zero rows k q e = absurd (cc)
get-take (suc n) [] k q e = absurd (cc)
get-take (suc n) ((i, w) ∷ rows) k q e = ground (arith, get-take n rows k q)

All-get :
    (P : ℕ → Type 0) (rows : List (ℕ × ℕ)) (k q : ℕ)
    → All (λ (r : ℕ × ℕ). P r.0) rows
    → get_item rows k ≡ some q
    → P k
All-get P [] k q a e = absurd (cc)
All-get P ((i, w) ∷ rows) k q a e = elim (Bool-cases (k == i)) [
  | inl hit ↦ let same : k ≡ i = ground arith in rw same a.0
  | inr miss ↦ All-get P rows k q a.1 (rw miss at e)
]

-- A row that is not among the first `n` is behind all of them.
pub take-best :
    (side : Side) (n : ℕ) (rows : List (ℕ × ℕ)) (k q : ℕ)
    → Ordered side rows
    → get_item rows k ≡ some q
    → (get_item (take n rows) k ≡ some q)
      ⊎ ((length (take n rows) ≡ n) × All (λ (r : ℕ × ℕ). ahead side r.0 k ≡ true) (take n rows))
take-best side zero rows k q o e = inr (refl, tt)
take-best side (suc n) [] k q o e = absurd (cc)
take-best side (suc n) ((i, w) ∷ rows) k q o e = elim (Bool-cases (k == i)) [
  | inl hit ↦ inl (let r : some w ≡ some q = rw hit at e in rw hit r)
  | inr miss ↦
      let e' : get_item rows k ≡ some q = rw miss at e in
      elim (take-best side n rows k q o.1 e') [
        | inl kept ↦ inl (rw miss kept)
        | inr (full, behind) ↦
            inr
              (omega (arith, full), (All-get (λ j. ahead side i j ≡ true) rows k q o.0 e', behind))
      ]
]
