-- ===== src/Sorted.antt =====
-- `sortedcontainers.SortedDict`, which the order book keeps its price levels in: the operations
-- that the book calls, with the documented behaviour that it relies on.
mod Keys
pub mod Assoc
pub use Keys.*
use spectuel_backend.Prelude.{ℕ, ◌≡◌, Option, none, some, List, [], ◌==◌, if◌then◌else◌, is_some}

pub record SortedDict (V : Type 0) : Type 1 where
  pub Dict : Type 0
  pub empty : Dict
  pub get : Dict → ℕ → Option V
  pub set_item : Dict → ℕ → V → Dict
  pub pop : Dict → ℕ → Dict
  pub keys : Dict → List ℕ
  pub keys-empty : keys empty ≡ []
  pub get-set_item :
      (d : Dict) (k : ℕ) (v : V) (j : ℕ)
      → get (set_item d k v) j ≡ (if j == k then some v else get d j)
  pub get-pop : (d : Dict) (k : ℕ) (j : ℕ) → get (pop d k) j ≡ (if j == k then none else get d j)
  -- `keys()` goes through the keys in ascending order, each once.
  pub keys-Ascending : (d : Dict) → Ascending (keys d)
  pub has-keys : (d : Dict) (k : ℕ) → has k (keys d) ≡ is_some (get d k)
