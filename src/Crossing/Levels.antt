-- ===== src/Crossing/Levels.antt =====
-- When a price crosses the other side of a book whose best prices are right.
use spectuel_backend.Prelude.{
  ℕ, ◌≤◌, ◌≡◌, Bool, true, false, Option, none, some, leb→le, arith, ap, ◌↔◌, ◌∙◌, refl, Bool-cases,
  inl, inr,
}
use spectuel_backend.Errors.{ok}
use spectuel_backend.Enums.{Side, opposite}
use spectuel_backend.PriceLevel.{PriceLevel}
use spectuel_backend.Sorted.{SortedDict}
use spectuel_backend.OrderBook.{OrderBook, best_price, side_levels}
use spectuel_backend.OrderBook.Best.{BestValid, present, IsBest}
use spectuel_backend.Crossing.{limit_crossable, stop_crossable, limit_test, stop_test, compare_best}

-- A price `p` of one side meets the price `k` of the other.
abbrev pub Meets : Side → ℕ → ℕ → Type 0
Meets Side.bid p k = k ≤ p
Meets Side.ask p k = p ≤ k

-- A stop at `p` is reached by the price `k`.
abbrev pub Reaches : Side → ℕ → ℕ → Type 0
Reaches Side.bid p k = p ≤ k
Reaches Side.ask p k = k ≤ p

ok_true : {b : Bool} → ok b ≡ ok true → b ≡ true
ok_true h = cc

nothing : {b : Bool} → b ≡ false → b ≡ true → ⊥
nothing e h = cc

ok_false : {A : Type 0} → ok false ≡ ok true → A
ok_false h = absurd (cc)

limit_by_best :
    (side : Side) (p : ℕ) (best : Option ℕ) (has_level : ℕ → Bool)
    → IsBest (opposite side) best has_level
    → (compare_best (limit_test side) (some p) best ≡ ok true)
      ↔ ((k : ℕ) × (has_level k ≡ true) × Meets side p k)
limit_by_best Side.bid p none f v = ((λ h. ok_false h), (λ x. absurd (nothing (v x.0) x.1)))
limit_by_best Side.ask p none f v = ((λ h. ok_false h), (λ x. absurd (nothing (v x.0) x.1)))
limit_by_best Side.bid p (some b) f v =
    ((λ h. (b, v.0, leb→le b p (ok_true h))), (λ x. ap ok (ground (arith, v.1 x.0 x.1, x.2))))
limit_by_best Side.ask p (some b) f v =
    ((λ h. (b, v.0, leb→le p b (ok_true h))), (λ x. ap ok (ground (arith, v.1 x.0 x.1, x.2))))

stop_by_best :
    (side : Side) (p : ℕ) (best : Option ℕ) (has_level : ℕ → Bool)
    → IsBest (opposite side) best has_level
    → (compare_best (stop_test side) (some p) best ≡ ok true)
      ↔ (((k : ℕ) × (has_level k ≡ true)) × ((k : ℕ) → has_level k ≡ true → Reaches side p k))
stop_by_best Side.bid p none f v = ((λ h. ok_false h), (λ x. absurd (nothing (v x.0.0) x.0.1)))
stop_by_best Side.ask p none f v = ((λ h. ok_false h), (λ x. absurd (nothing (v x.0.0) x.0.1)))
stop_by_best Side.bid p (some b) f v = (
  (λ h. ((b, v.0), λ k e. omega (arith, v.1 k e, leb→le p b (ok_true h)))),
  (λ x. ap ok (ground (arith, x.1 b v.0))),
)
stop_by_best Side.ask p (some b) f v = (
  (λ h. ((b, v.0), λ k e. omega (arith, v.1 k e, leb→le b p (ok_true h)))),
  (λ x. ap ok (ground (arith, x.1 b v.0))),
)

module _ ⦃D : SortedDict PriceLevel⦄ where
  side-IsBest :
      (side : Side) (b : OrderBook)
      → BestValid b
      → IsBest side (best_price side b) (present (side_levels side b))
  side-IsBest Side.bid b v = v.bid_best
  side-IsBest Side.ask b v = v.ask_best

  -- In a book whose best prices are right, a limit price is crossable just if some level of the
  -- other side has a price that meets it: at most the limit of a bid, at least that of an ask.
  pub limit_crossable_iff :
      (p : ℕ) (side : Side) (b : OrderBook)
      → BestValid b
      → (limit_crossable (some p) side b ≡ ok true)
        ↔ ((k : ℕ) × (present (side_levels (opposite side) b) k ≡ true) × Meets side p k)
  unfolding limit_crossable
  limit_crossable_iff p side b v =
      limit_by_best side p (best_price (opposite side) b) _ (side-IsBest (opposite side) b v)

  limit_answers :
      (p : ℕ) (side : Side) (b : OrderBook)
      → (answer : Bool) × (limit_crossable (some p) side b ≡ ok answer)
  unfolding limit_crossable
  limit_answers p side b =
      elim (best_price (opposite side) b)
        as (λ best. (answer : Bool) × (compare_best (limit_test side) (some p) best ≡ ok answer)) [
          | none ↦ (false, refl)
          | some k ↦ (limit_test side p k, refl)
        ]

  -- A limit price that meets no level of the other side does not cross.
  pub limit_passive :
      (p : ℕ) (side : Side) (b : OrderBook)
      → BestValid b
      → ((k : ℕ) → present (side_levels (opposite side) b) k ≡ true → Meets side p k → ⊥)
      → limit_crossable (some p) side b ≡ ok false
  limit_passive p side b v apart =
      let (answer, given) = limit_answers p side b in
      elim (Bool-cases answer) [
        | inl crosses ↦
            let (k, there, meets) = (limit_crossable_iff p side b v).0 (given ∙ ap ok crosses) in
            absurd (apart k there meets)
        | inr passive ↦ given ∙ ap ok passive
      ]

  -- In a book whose best prices are right, a stop price is crossable just if the other side has
  -- a level, and all its levels lie at or above the stop of a bid, at or below that of an ask.
  pub stop_crossable_iff :
      (p : ℕ) (side : Side) (b : OrderBook)
      → BestValid b
      → (stop_crossable (some p) side b ≡ ok true) ↔ (
          ((k : ℕ) × (present (side_levels (opposite side) b) k ≡ true))
          × ((k : ℕ) → present (side_levels (opposite side) b) k ≡ true → Reaches side p k))
  unfolding stop_crossable
  stop_crossable_iff p side b v =
      stop_by_best side p (best_price (opposite side) b) _ (side-IsBest (opposite side) b v)
