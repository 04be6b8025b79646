-- ===== src/Redis.antt =====
-- The Redis server that keeps balances: the commands that the balance scripts call, on amounts
-- that are exact integers, with the documented behaviour that the code relies on.
-- A key is one of the strings that the key functions of src/engine/services/balance_manager.py
-- and src/engine/utils.py build, known by its template and the parts that are filled in.
pub mod Table
use spectuel_backend.Prelude.{
  ℕ, ◌≡◌, Bool, true, false, ◌&&◌, Option, none, some, ◌==◌, if◌then◌else◌,
}
use spectuel_backend.Prelude.Int.{ℤ, pos, ◌+ℤ◌}

pub data Key : Type 0 where
  cash_balance cash_balance_log cash_escrow cash_escrow_log : ℕ → Key
  asset_balance asset_balance_log asset_escrow asset_escrow_log : ℕ → ℕ → Key

abbrev pub template : Key → ℕ
template (Key.cash_balance _) = 0
template (Key.cash_balance_log _) = 1
template (Key.cash_escrow _) = 2
template (Key.cash_escrow_log _) = 3
template (Key.asset_balance _ _) = 4
template (Key.asset_balance_log _ _) = 5
template (Key.asset_escrow _ _) = 6
template (Key.asset_escrow_log _ _) = 7

abbrev pub key_user : Key → ℕ
key_user (Key.cash_balance u) = u
key_user (Key.cash_balance_log u) = u
key_user (Key.cash_escrow u) = u
key_user (Key.cash_escrow_log u) = u
key_user (Key.asset_balance _ u) = u
key_user (Key.asset_balance_log _ u) = u
key_user (Key.asset_escrow _ u) = u
key_user (Key.asset_escrow_log _ u) = u

abbrev pub key_symbol : Key → ℕ
key_symbol (Key.asset_balance s _) = s
key_symbol (Key.asset_balance_log s _) = s
key_symbol (Key.asset_escrow s _) = s
key_symbol (Key.asset_escrow_log s _) = s
key_symbol _ = 0

-- Two keys are one string.
abbrev pub same_key : Key → Key → Bool
same_key j k =
    template j == template k && (key_user j == key_user k && key_symbol j == key_symbol k)

abbrev pub amount_or_zero : Option ℤ → ℤ
amount_or_zero none = pos 0
amount_or_zero (some v) = v

pub record Redis : Type 1 where
  pub Store : Type 0
  pub get : Store → Key → Option ℤ
  pub set : Store → Key → ℤ → Store
  pub incrbyfloat : Store → Key → ℤ → Store
  pub hexists : Store → Key → ℕ → Bool
  pub hset : Store → Key → ℕ → ℤ → Store
  pub get-set :
      (s : Store) (k : Key) (v : ℤ) (j : Key)
      → get (set s k v) j ≡ (if same_key j k then some v else get s j)
  -- An absent key counts as zero.
  pub get-incrbyfloat :
      (s : Store) (k : Key) (v : ℤ) (j : Key)
      → get (incrbyfloat s k v) j
        ≡ (if same_key j k then some (amount_or_zero (get s k) +ℤ v) else get s j)
  -- Writing a field of a hash changes no amount under another key.
  pub get-hset :
      (s : Store) (k : Key) (f : ℕ) (v : ℤ) (j : Key)
      → same_key j k ≡ false
      → get (hset s k f v) j ≡ get s j
  pub hexists-set :
      (s : Store) (k : Key) (v : ℤ) (j : Key) (f : ℕ)
      → same_key j k ≡ false
      → hexists (set s k v) j f ≡ hexists s j f
  pub hexists-incrbyfloat :
      (s : Store) (k : Key) (v : ℤ) (j : Key) (f : ℕ)
      → same_key j k ≡ false
      → hexists (incrbyfloat s k v) j f ≡ hexists s j f
  pub hexists-hset :
      (s : Store) (k : Key) (f : ℕ) (v : ℤ) (j : Key) (g : ℕ)
      → hexists (hset s k f v) j g ≡ (if same_key j k && g == f then true else hexists s j g)
