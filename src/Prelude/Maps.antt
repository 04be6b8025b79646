-- ===== src/Prelude/Maps.antt =====
-- A Python dict keyed by numbers, of which only lookups are observed: a function.
use Prim.Native.Nat.{ℕ}
use mathlib.Core.Option.{Option, none, some}
use spectuel_backend.Prelude.Tests.{◌==◌, if◌then◌else◌}

module _ {ℓ} {V : Type ℓ} where
  abbrev pub empty_map : ℕ → Option V
  empty_map k = none

  -- `d[k] = v`
  abbrev pub put : (ℕ → Option V) → ℕ → V → ℕ → Option V
  put d k v j = if j == k then some v else d j

  -- `d.pop(k, None)`
  abbrev pub drop_key : (ℕ → Option V) → ℕ → ℕ → Option V
  drop_key d k j = if j == k then none else d j

  -- A write into a total table.
  abbrev pub write : (ℕ → V) → ℕ → V → ℕ → V
  write d k v j = if j == k then v else d j
