-- ===== src/Errors.antt =====
-- The exceptions that the engine's code raises or lets through, and pure code that may raise.

use spectuel_backend.Prelude.{◌≡◌}

-- `out_of_fuel` is no exception of the program: it marks a loop cut short by the model's bound.
pub data Error : Type 0 where
  key_error value_error attribute_error type_error not_implemented validation_error : Error
  out_of_fuel : Error

pub data Result {ℓ} (A : Type ℓ) : Type ℓ where
  ok : A → Result A
  err : Error → Result A

-- A step on a state that may raise. What was written before the raise stays written.
pub data Run {ℓ κ} (S : Type ℓ) (A : Type κ) : Type (ℓ ⊔ κ) where
  done : A → S → Run S A
  raised : Error → S → Run S A

abbrev pub state_of {ℓ κ} : {S : Type ℓ} {A : Type κ} → Run S A → S
state_of (done a s) = s
state_of (raised e s) = s

pub ok_second :
    {A B : Type 0} {a c : A} {b d : B} → ◌≡◌ {A = Result (A × B)} (ok (a, b)) (ok (c, d)) → b ≡ d
ok_second e = cc
