-- ===== src/OrderBook/Best/Keys.antt =====
-- What the first, second, last and last but one of an ascending list of keys are.
use spectuel_backend.Prelude.{
  ℕ, suc, ◌-◌, ◌<◌, ◌≤◌, ◌≡◌, refl, ◌≢◌, Bool, true, false, ◌&&◌, not, Option, none, some, List, [],
  ◌∷◌, arith, leb, length, get_elem?, All, ◌==◌, ap, ◌∙◌,
}
use spectuel_backend.Enums.{Side}
use spectuel_backend.Sorted.{Ascending, has}
use spectuel_backend.OrderBook.{best_key, second_key}

-- A best price that no other key beats, or none where there is no key.
abbrev pub IsBest : Side → Option ℕ → (ℕ → Bool) → Type 0
IsBest side none present = (k : ℕ) → present k ≡ false
IsBest Side.bid (some b) present = (present b ≡ true) × ((k : ℕ) → present k ≡ true → k ≤ b)
IsBest Side.ask (some a) present = (present a ≡ true) × ((k : ℕ) → present k ≡ true → a ≤ k)

above : (k j : ℕ) (ks : List ℕ) → All (λ i. k < i) ks → has j ks ≡ true → k < j
above k j [] a h = absurd (cc)
above k j (i ∷ ks) a h = ground (arith, above k j ks a.1)

pub first_key :
    (k : ℕ) (ks : List ℕ) → Ascending (k ∷ ks) → IsBest Side.ask (some k) (λ j. has j (k ∷ ks))
first_key k ks a = (ground arith, λ j h. ground (arith, above k j ks a.0))

-- The last key, by recursion.
abbrev pub last_key : ℕ → List ℕ → ℕ
last_key k [] = k
last_key k (j ∷ ks) = last_key j ks

pub get_last : (k : ℕ) (ks : List ℕ) → get_elem? (k ∷ ks) (length ks) ≡ some (last_key k ks)
get_last k [] = refl
get_last k (j ∷ ks) = get_last j ks

last_mem : (k : ℕ) (ks : List ℕ) → has (last_key k ks) (k ∷ ks) ≡ true
last_mem k [] = ground arith
last_mem k (j ∷ ks) = ground (arith, last_mem j ks)

last_max :
    (k : ℕ) (ks : List ℕ) → Ascending (k ∷ ks) → (j : ℕ) → has j (k ∷ ks) ≡ true → j ≤ last_key k ks
last_max k [] a j h = ground arith
last_max k (i ∷ ks) a j h = ground (arith, last_max i ks a.1 j, last_max i ks a.1 i)

pub last_IsBest :
    (k : ℕ) (ks : List ℕ)
    → Ascending (k ∷ ks)
    → IsBest Side.bid (some (last_key k ks)) (λ j. has j (k ∷ ks))
last_IsBest k ks a = (last_mem k ks, last_max k ks a)

-- The keys other than `z`.
abbrev pub but : ℕ → List ℕ → ℕ → Bool
but z ks j = has j ks && not (j == z)

second_ask :
    (k j : ℕ) (ks : List ℕ) → Ascending (k ∷ j ∷ ks) → IsBest Side.ask (some j) (but k (k ∷ j ∷ ks))
second_ask k j ks a = (ground arith, λ i h. ground (arith, above j i ks a.1.0))

-- The key before the last, by recursion.
abbrev pub prior_key : ℕ → ℕ → List ℕ → ℕ
prior_key k j [] = k
prior_key k j (i ∷ ks) = prior_key j i ks

pub get_prior :
    (k j : ℕ) (ks : List ℕ) → get_elem? (k ∷ j ∷ ks) (length ks) ≡ some (prior_key k j ks)
get_prior k j [] = refl
get_prior k j (i ∷ ks) = get_prior j i ks

prior_mem :
    (k j : ℕ) (ks : List ℕ)
    → Ascending (k ∷ j ∷ ks)
    → (has (prior_key k j ks) (k ∷ j ∷ ks) ≡ true) × (prior_key k j ks < last_key j ks)
prior_mem k j [] a = (ground arith, a.0.0)
prior_mem k j (i ∷ ks) a = ground (arith, prior_mem j i ks a.1)

prior_max :
    (k j : ℕ) (ks : List ℕ)
    → Ascending (k ∷ j ∷ ks)
    → (i : ℕ) → has i (k ∷ j ∷ ks) ≡ true
    → i ≢ last_key j ks
    → i ≤ prior_key k j ks
prior_max k j [] a i h ne = ground arith
prior_max k j (x ∷ ks) a i h ne = ground (
  arith,
  prior_max j x ks a.1 i,
  prior_max j x ks a.1 j,
  (prior_mem j x ks a.1).1,
  last_max x ks a.1.1 x,
)

best_bid : (k : ℕ) (ks : List ℕ) → best_key Side.bid (k ∷ ks) ≡ some (last_key k ks)
best_bid k ks =
    let n : suc (length ks) - 1 ≡ length ks = omega arith in
    ap (get_elem? (k ∷ ks)) n ∙ get_last k ks

second_bid : (k j : ℕ) (ks : List ℕ) → second_key Side.bid (k ∷ j ∷ ks) ≡ some (prior_key k j ks)
second_bid k j ks =
    let n : suc (suc (length ks)) - 2 ≡ length ks = omega arith in
    let long : leb 2 (suc (suc (length ks))) ≡ true = ground arith in
    rw long (ap (get_elem? (k ∷ j ∷ ks)) n ∙ get_prior k j ks)

-- The key that `remove` falls back to is the best of the keys other than the best one.
pub second_IsBest :
    (side : Side) (z : ℕ) (ks : List ℕ)
    → Ascending ks
    → best_key side ks ≡ some z
    → IsBest side (second_key side ks) (but z ks)
second_IsBest Side.bid z [] a e = absurd (cc)
second_IsBest Side.ask z [] a e = absurd (cc)
second_IsBest Side.bid z (k ∷ []) a e = λ i. ground arith
second_IsBest Side.ask z (k ∷ []) a e = λ i. ground arith
second_IsBest Side.bid z (k ∷ j ∷ ks) a e =
    let last : last_key j ks ≡ z = cc (best_bid k (j ∷ ks)) in
    rw (second_bid k j ks)
      (ground (arith, prior_mem k j ks a), λ i h. ground (arith, prior_max k j ks a i))
second_IsBest Side.ask z (k ∷ j ∷ ks) a e =
    let same : k ≡ z = cc in
    let long : leb 2 (suc (suc (length ks))) ≡ true = ground arith in
    rw (long, ← same) (second_ask k j ks a)

-- The key that `remove` compares with the price is the best of all keys.
pub IsBest-best_key :
    (side : Side) (ks : List ℕ) → Ascending ks → IsBest side (best_key side ks) (λ j. has j ks)
IsBest-best_key Side.bid [] a = λ k. refl
IsBest-best_key Side.ask [] a = λ k. refl
IsBest-best_key Side.bid (k ∷ ks) a = rw (best_bid k ks) (last_IsBest k ks a)
IsBest-best_key Side.ask (k ∷ ks) a = first_key k ks a
