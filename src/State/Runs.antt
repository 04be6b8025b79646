-- ===== src/State/Runs.antt =====
-- A step whose run is known, inside a sequence of steps.
use spectuel_backend.Prelude.{◌≡◌, ◌∙◌, ap}
use spectuel_backend.Errors.{Error, Run, done, raised}
use spectuel_backend.PriceLevel.{PriceLevel}
use spectuel_backend.Sorted.{SortedDict}
use spectuel_backend.Redis.{Redis}
use spectuel_backend.State.{State, M}

module _ ⦃D : SortedDict PriceLevel⦄ ⦃R : Redis⦄ where
  abbrev pub after : {A B : Type 0} → Run State A → (A → M B) → Run State B
  after x k = elim x [ done a s ↦ k a s | raised e s ↦ raised e s ]

  pub after_done :
      {A B : Type 0} {x : Run State A} (k : A → M B) {a : A} {s : State} {y : Run State B}
      → x ≡ done a s
      → k a s ≡ y
      → after x k ≡ y
  after_done k e h = ap (λ x. after x k) e ∙ h

  pub after_raised :
      {A B : Type 0} {x : Run State A} (k : A → M B) {e : Error} {s : State}
      → x ≡ raised e s
      → after x k ≡ raised e s
  after_raised k h = ap (λ x. after x k) h
