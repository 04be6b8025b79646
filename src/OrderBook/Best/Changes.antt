-- ===== src/OrderBook/Best/Changes.antt =====
-- How the keys of a dict and the best of them change with one key.
use spectuel_backend.Prelude.{
  ℕ, ◌≡◌, refl, inl, inr, Bool, true, false, Option, none, some, arith, if◌then◌else◌, is_ref, ◌==◌,
  sym, ◌∙◌, ltb, List, Bool-cases,
}
use spectuel_backend.Enums.{Side}
use spectuel_backend.Sorted.{Ascending, has}
use spectuel_backend.OrderBook.{best_key, second_key, raises_bid, lowers_ask}
use spectuel_backend.OrderBook.Best.Keys.{IsBest, but, second_IsBest, IsBest-best_key}

-- Adding a price to the keys and improving the best price by it.
abbrev pub with_key : ℕ → (ℕ → Bool) → ℕ → Bool
with_key p has_price k = if k == p then true else has_price k

abbrev pub without_key : ℕ → (ℕ → Bool) → ℕ → Bool
without_key p has_price k = if k == p then false else has_price k

pub IsBest-cong :
    (side : Side) (o : Option ℕ) (f g : ℕ → Bool)
    → ((k : ℕ) → g k ≡ f k)
    → IsBest side o f
    → IsBest side o g
IsBest-cong Side.bid none f g e h = λ k. e k ∙ h k
IsBest-cong Side.ask none f g e h = λ k. e k ∙ h k
IsBest-cong Side.bid (some b) f g e h = (e b ∙ h.0, λ k m. h.1 k (sym (e k) ∙ m))
IsBest-cong Side.ask (some b) f g e h = (e b ∙ h.0, λ k m. h.1 k (sym (e k) ∙ m))

pub without-cong :
    (p : ℕ) (f g : ℕ → Bool)
    → ((k : ℕ) → f k ≡ g k)
    → (k : ℕ) → without_key p f k ≡ without_key p g k
without-cong p f g e k = rw (e k)

pub improve_bid :
    (p : ℕ) (o : Option ℕ) (f : ℕ → Bool)
    → IsBest Side.bid o f
    → IsBest Side.bid (if raises_bid p o then some p else o) (with_key p f)
improve_bid p none f h = (ground arith, λ k m. ground (arith, h k))
improve_bid p (some b) f h = elim (Bool-cases (ltb b p)) [
  | inl up ↦ rw up (ground arith, λ k m. ground (arith, h.1 k))
  | inr keep ↦ rw keep (ground (arith, h.0), λ k m. ground (arith, h.1 k))
]

pub improve_ask :
    (p : ℕ) (o : Option ℕ) (f : ℕ → Bool)
    → IsBest Side.ask o f
    → IsBest Side.ask (if lowers_ask p o then some p else o) (with_key p f)
improve_ask p none f h = (ground arith, λ k m. ground (arith, h k))
improve_ask p (some b) f h = elim (Bool-cases (ltb p b)) [
  | inl down ↦ rw down (ground arith, λ k m. ground (arith, h.1 k))
  | inr keep ↦ rw keep (ground (arith, h.0), λ k m. ground (arith, h.1 k))
]

pub no_key :
    (side : Side) (p : ℕ) (ks : List ℕ) → has p ks ≡ true → ¬ (IsBest side none (λ j. has j ks))
no_key Side.bid p ks m h = ground (arith, h p)
no_key Side.ask p ks m h = ground (arith, h p)

-- A key that is not the best one may go.
pub keep-IsBest :
    (side : Side) (p z : ℕ) (o : Option ℕ) (f : ℕ → Bool)
    → f p ≡ true
    → (z == p) ≡ false
    → IsBest side o f
    → IsBest side (some z) f
    → IsBest side o (without_key p f)
keep-IsBest Side.bid p z none f m ne h g = ground (arith, h p)
keep-IsBest Side.ask p z none f m ne h g = ground (arith, h p)
keep-IsBest Side.bid p z (some b) f m ne h g =
    (ground (arith, h.0, g.0, h.1 z, g.1 b), λ k i. ground (arith, h.1 k))
keep-IsBest Side.ask p z (some b) f m ne h g =
    (ground (arith, h.0, g.0, h.1 z, g.1 b), λ k i. ground (arith, h.1 k))

-- Without its best key a set of keys has the second best one; without another it keeps its best.
pub drop_IsBest :
    (side : Side) (p : ℕ) (o : Option ℕ) (ks : List ℕ)
    → Ascending ks
    → has p ks ≡ true
    → IsBest side o (λ j. has j ks)
    → IsBest side
        (if is_ref (best_key side ks) p then second_key side ks else o)
        (without_key p (λ j. has j ks))
drop_IsBest side p o ks a m h = by_best (best_key side ks) refl
  where
    by_best :
        (z : Option ℕ)
        → best_key side ks ≡ z
        → IsBest side
            (if is_ref (best_key side ks) p then second_key side ks else o)
            (without_key p (λ j. has j ks))
    by_best none e = absurd (no_key side p ks m (rw e at (IsBest-best_key side ks a)))
    by_best (some z) e = elim (Bool-cases (z == p)) [
      | inl same ↦
          rw (e, same)
            (IsBest-cong side (second_key side ks) (but z ks) (without_key p (λ j. has j ks))
              (λ k. ground arith) (second_IsBest side z ks a e))
      | inr differ ↦
          rw (e, differ)
            (keep-IsBest side p z o (λ j. has j ks) m differ h
              (rw e at (IsBest-best_key side ks a)))
    ]
