-- ===== src/Sorted/Keys.antt =====
-- Ascending lists of keys.
use spectuel_backend.Prelude.{ℕ, ◌<◌, Bool, false, ◌||◌, List, [], ◌∷◌, ◌==◌, All}

abbrev pub has : ℕ → List ℕ → Bool
has k [] = false
has k (j ∷ ks) = (k == j) || has k ks

abbrev pub Ascending : List ℕ → Type 0
Ascending [] = Unit
Ascending (k ∷ ks) = All (λ j. k < j) ks × Ascending ks
