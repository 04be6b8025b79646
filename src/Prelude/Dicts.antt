-- ===== src/Prelude/Dicts.antt =====
-- A Python dict as the list of its items, with the sum of a measure over them.
use Prim.Native.Nat.{ℕ, ◌+◌}
use mathlib.Core.Path.{◌≡◌, refl, sym, ◌∙◌, ap}
use mathlib.Core.Logic.{inl, inr}
use mathlib.Core.Bool.{Bool, true, false}
use mathlib.Core.Option.{Option, none, some}
use mathlib.Core.List.{List, [], ◌∷◌}
use native.Mathlib.Omega.{arith}
use spectuel_backend.Prelude.Tests.{◌==◌, if◌then◌else◌, Bool-cases}

-- Keys with a test of equality.
pub record Keyed (K : Type 0) : Type 0 where
  pub same : K → K → Bool
  pub same_refl : (k : K) → same k k ≡ true
  pub same_eq : (j k : K) → same j k ≡ true → j ≡ k

abbrev pub same_option : Option ℕ → Option ℕ → Bool
same_option none none = true
same_option none (some b) = false
same_option (some a) none = false
same_option (some a) (some b) = a == b

pub equal_refl : (a : ℕ) → (a == a) ≡ true
equal_refl a = ground arith

pub equal_eq : (a b : ℕ) → (a == b) ≡ true → a ≡ b
equal_eq a b e = ground arith

instance abbrev pub number_keyed : Keyed ℕ
number_keyed = record { same = λ a b. a == b; same_refl = equal_refl; same_eq = equal_eq }

pub same_option_refl : (k : Option ℕ) → same_option k k ≡ true
same_option_refl none = refl
same_option_refl (some a) = ground arith

pub same_option_eq : (j k : Option ℕ) → same_option j k ≡ true → j ≡ k
same_option_eq none none e = refl
same_option_eq none (some b) e = absurd (cc)
same_option_eq (some a) none e = absurd (cc)
same_option_eq (some a) (some b) e = let r : a ≡ b = ground arith in ap some r

instance abbrev pub option_keyed : Keyed (Option ℕ)
option_keyed = record { same = same_option; same_refl = same_option_refl; same_eq = same_option_eq }

module _ {K : Type 0} ⦃E : Keyed K⦄ where
  same-sym : (j k : K) → E.same j k ≡ E.same k j
  same-sym j k = elim (Bool-cases (E.same j k)) [
    | inl hit ↦ let e : j ≡ k = E.same_eq j k hit in rw e refl
    | inr miss ↦ elim (Bool-cases (E.same k j)) [
      | inl hit ↦ let e : k ≡ j = E.same_eq k j hit in rw e refl
      | inr miss' ↦ miss ∙ sym miss'
    ]
  ]

module _ {K V : Type 0} ⦃E : Keyed K⦄ where
  -- `d.get(k)`
  abbrev pub get_item : List (K × V) → K → Option V
  get_item [] k = none
  get_item ((j, w) ∷ d) k = if E.same k j then some w else get_item d k

  -- `d[k] = v`: an old key keeps its place, a new one comes last.
  abbrev pub set_item : K → V → List (K × V) → List (K × V)
  set_item k v [] = (k, v) ∷ []
  set_item k v ((j, w) ∷ d) =
      let rest = set_item k v d in if E.same k j then (j, v) ∷ d else (j, w) ∷ rest

  -- `d.pop(k, None)`
  abbrev pub del_item : K → List (K × V) → List (K × V)
  del_item k [] = []
  del_item k ((j, w) ∷ d) = let rest = del_item k d in if E.same k j then rest else (j, w) ∷ rest

  -- No key comes twice.
  abbrev pub Unique : List (K × V) → Type 0
  Unique [] = Unit
  Unique ((j, w) ∷ d) = (get_item d j ≡ none) × Unique d

  -- The sum of a measure of the items.
  abbrev pub total : (K → V → ℕ) → List (K × V) → ℕ
  total f [] = 0
  total f ((j, w) ∷ d) = f j w + total f d

  pub get-set_item :
      (d : List (K × V)) (k : K) (v : V) (j : K)
      → get_item (set_item k v d) j ≡ (if E.same j k then some v else get_item d j)
  get-set_item [] k v j = refl
  get-set_item ((i, w) ∷ d) k v j = elim (Bool-cases (E.same k i)) [
    | inl hit ↦
        let e : k ≡ i = E.same_eq k i hit in
        rw (hit, e) (elim (Bool-cases (E.same j i)) [ inl h ↦ rw h refl | inr h ↦ rw h refl ])
    | inr miss ↦
        rw (miss, get-set_item d k v j)
          (elim (Bool-cases (E.same j i)) [
            | inl h ↦
                let e : j ≡ i = E.same_eq j i h in
                let other : E.same j k ≡ false = same-sym j k ∙ rw e miss in rw (h, other) refl
            | inr h ↦ rw h refl
          ])
  ]

  pub get-del_item :
      (d : List (K × V)) (k j : K)
      → get_item (del_item k d) j ≡ (if E.same j k then none else get_item d j)
  get-del_item [] k j = elim (Bool-cases (E.same j k)) [ inl h ↦ rw h refl | inr h ↦ rw h refl ]
  get-del_item ((i, w) ∷ d) k j = elim (Bool-cases (E.same k i)) [
    | inl hit ↦
        let e : k ≡ i = E.same_eq k i hit in
        rw (hit, get-del_item d k j, e)
          (elim (Bool-cases (E.same j i)) [ inl h ↦ rw h refl | inr h ↦ rw h refl ])
    | inr miss ↦
        rw (miss, get-del_item d k j)
          (elim (Bool-cases (E.same j i)) [
            | inl h ↦
                let e : j ≡ i = E.same_eq j i h in
                let other : E.same j k ≡ false = same-sym j k ∙ rw e miss in rw (h, other) refl
            | inr h ↦ rw h refl
          ])
  ]

  -- What the sum of a measure does.
  module _ (f : K → V → ℕ) where
    pub total-add :
        (d : List (K × V)) (k : K) (v : V)
        → get_item d k ≡ none
        → total f (set_item k v d) ≡ total f d + f k v
    total-add [] k v e = omega arith
    total-add ((i, w) ∷ d) k v e = elim (Bool-cases (E.same k i)) [
      | inl hit ↦ absurd (let r = rw hit at e in cc)
      | inr miss ↦
          let r : get_item d k ≡ none = rw miss at e in rw miss (omega (arith, total-add d k v r))
    ]

    pub total-replace :
        (d : List (K × V)) (k : K) (v w : V)
        → get_item d k ≡ some w
        → total f (set_item k v d) + f k w ≡ total f d + f k v
    total-replace [] k v w e = absurd (cc)
    total-replace ((i, u) ∷ d) k v w e = elim (Bool-cases (E.same k i)) [
      | inl hit ↦
          let same : k ≡ i = E.same_eq k i hit in
          let old : u ≡ w = (let r : some u ≡ some w = rw hit at e in cc) in
          rw (hit, same, old) (omega arith)
      | inr miss ↦
          let r : get_item d k ≡ some w = rw miss at e in
          rw miss (omega (arith, total-replace d k v w r))
    ]

    del_absent : (d : List (K × V)) (k : K) → get_item d k ≡ none → del_item k d ≡ d
    del_absent [] k e = refl
    del_absent ((i, u) ∷ d) k e = elim (Bool-cases (E.same k i)) [
      | inl hit ↦ absurd (let r = rw hit at e in cc)
      | inr miss ↦ let r : get_item d k ≡ none = rw miss at e in rw (miss, del_absent d k r) refl
    ]

    pub total-del :
        (d : List (K × V)) (k : K) (w : V)
        → Unique d
        → get_item d k ≡ some w
        → total f (del_item k d) + f k w ≡ total f d
    total-del [] k w u e = absurd (cc)
    total-del ((i, v) ∷ d) k w u e = elim (Bool-cases (E.same k i)) [
      | inl hit ↦
          let same : k ≡ i = E.same_eq k i hit in
          let old : v ≡ w = (let r : some v ≡ some w = rw hit at e in cc) in
          let gone : get_item d k ≡ none = rw (← same) at u.0 in
          rw (hit, del_absent d k gone, same, old) (omega arith)
      | inr miss ↦
          let r : get_item d k ≡ some w = rw miss at e in
          rw miss (omega (arith, total-del d k w u.1 r))
    ]

  pub Unique-set_item : (d : List (K × V)) (k : K) (v : V) → Unique d → Unique (set_item k v d)
  Unique-set_item [] k v u = (refl, tt)
  Unique-set_item ((i, w) ∷ d) k v u = elim (Bool-cases (E.same k i)) [
    | inl hit ↦ rw hit (u.0, u.1)
    | inr miss ↦
        rw miss (rw (get-set_item d k v i, same-sym i k ∙ miss) u.0, Unique-set_item d k v u.1)
  ]

  pub Unique-del_item : (d : List (K × V)) (k : K) → Unique d → Unique (del_item k d)
  Unique-del_item [] k u = tt
  Unique-del_item ((i, w) ∷ d) k u = elim (Bool-cases (E.same k i)) [
    | inl hit ↦ rw hit (Unique-del_item d k u.1)
    | inr miss ↦ rw miss (rw (get-del_item d k i, same-sym i k ∙ miss) u.0, Unique-del_item d k u.1)
  ]
