-- ===== src/Balance/Steps.antt =====
-- What three steps of a script with new ids do to the amounts.
use spectuel_backend.Prelude.{
  ℕ, ◌≡◌, refl, some, Bool, true, false, ◌&&◌, ◌==◌, if◌then◌else◌, ◌∙◌, ap,
}
use spectuel_backend.Prelude.Int.{ℤ, ◌+ℤ◌}
use spectuel_backend.Redis.{Redis, Key, same_key, amount_or_zero}
use spectuel_backend.Balance.Scripts.{apply_once}
use spectuel_backend.Balance.Once.{amount, apply_once_new, same_key_refl}

-- The keys of three amounts and of their hashes are all different.
pub record Separate (k1 l1 k2 l2 k3 l3 : Key) : Type 0 where
  pub k1_l1 : same_key k1 l1 ≡ false
  pub k1_l2 : same_key k1 l2 ≡ false
  pub k1_l3 : same_key k1 l3 ≡ false
  pub k2_l1 : same_key k2 l1 ≡ false
  pub k2_l2 : same_key k2 l2 ≡ false
  pub k2_l3 : same_key k2 l3 ≡ false
  pub k3_l1 : same_key k3 l1 ≡ false
  pub k3_l2 : same_key k3 l2 ≡ false
  pub k3_l3 : same_key k3 l3 ≡ false
  pub k1_k2 : same_key k1 k2 ≡ false
  pub k1_k3 : same_key k1 k3 ≡ false
  pub k2_k1 : same_key k2 k1 ≡ false
  pub k2_k3 : same_key k2 k3 ≡ false
  pub k3_k1 : same_key k3 k1 ≡ false
  pub k3_k2 : same_key k3 k2 ≡ false
  pub l2_k1 : same_key l2 k1 ≡ false
  pub l2_l1 : same_key l2 l1 ≡ false
  pub l3_k1 : same_key l3 k1 ≡ false
  pub l3_l1 : same_key l3 l1 ≡ false
  pub l3_k2 : same_key l3 k2 ≡ false
  pub l3_l2 : same_key l3 l2 ≡ false

-- A key is none of those.
pub record Outside (j k1 l1 k2 l2 k3 l3 : Key) : Type 0 where
  pub not_k1 : same_key j k1 ≡ false
  pub not_k2 : same_key j k2 ≡ false
  pub not_k3 : same_key j k3 ≡ false
  pub not_l1 : same_key j l1 ≡ false
  pub not_l2 : same_key j l2 ≡ false
  pub not_l3 : same_key j l3 ≡ false

module _ ⦃R : Redis⦄ where
  -- One step with a new id: the amount under its key moves, no other does.
  pub amount-apply_once :
      (key log : Key) (id : ℕ) (d e : ℤ) (s : R.Store) (j : Key)
      → R.hexists s log id ≡ false
      → same_key j log ≡ false
      → amount (apply_once key log id d e s) j
        ≡ (if same_key j key then amount s key +ℤ d else amount s j)
  amount-apply_once key log id d e s j new ne =
      rw
        (
          apply_once_new key log id d e s new,
          R.get-hset (R.incrbyfloat s key d) log id e j ne,
          R.get-incrbyfloat s key d j,
        )
        (by_test (same_key j key))
    where
      by_test :
          (b : Bool)
          → amount_or_zero (if b then some (amount s key +ℤ d) else R.get s j)
            ≡ (if b then amount s key +ℤ d else amount s j)
      by_test true = refl
      by_test false = refl

  pub hexists-apply_other :
      (key log : Key) (id : ℕ) (d e : ℤ) (s : R.Store) (l : Key) (g : ℕ)
      → R.hexists s log id ≡ false
      → same_key l key ≡ false
      → (same_key l log && g == id) ≡ false
      → R.hexists (apply_once key log id d e s) l g ≡ R.hexists s l g
  hexists-apply_other key log id d e s l g new ne other =
      rw
        (
          apply_once_new key log id d e s new,
          R.hexists-hset (R.incrbyfloat s key d) log id e l g,
          other,
        )
        (R.hexists-incrbyfloat s key d l g ne)

-- Three steps with new ids, one after the other, as the settlement scripts make them.
module _ ⦃R : Redis⦄ (k1 l1 k2 l2 k3 l3 : Key) (i1 i2 i3 : ℕ) (d1 e1 d2 e2 d3 e3 : ℤ) (s : R.Store)
    (apart : Separate k1 l1 k2 l2 k3 l3) (new1 : R.hexists s l1 i1 ≡ false)
    (new2 : R.hexists s l2 i2 ≡ false) (new3 : R.hexists s l3 i3 ≡ false) where
  abbrev step1 : R.Store
  step1 = apply_once k1 l1 i1 d1 e1 s

  abbrev step2 : R.Store
  step2 = apply_once k2 l2 i2 d2 e2 step1

  abbrev step3 : R.Store
  step3 = apply_once k3 l3 i3 d3 e3 step2

  other_log : (l k : Key) (g i : ℕ) → same_key l k ≡ false → (same_key l k && g == i) ≡ false
  other_log l k g i e = rw e

  new2_later : R.hexists step1 l2 i2 ≡ false
  new2_later =
      hexists-apply_other k1 l1 i1 d1 e1 s l2 i2 new1 apart.l2_k1
        (other_log l2 l1 i2 i1 apart.l2_l1)
      ∙ new2

  new3_later : R.hexists step2 l3 i3 ≡ false
  new3_later =
      hexists-apply_other k2 l2 i2 d2 e2 step1 l3 i3 new2_later apart.l3_k2
        (other_log l3 l2 i3 i2 apart.l3_l2)
      ∙ hexists-apply_other k1 l1 i1 d1 e1 s l3 i3 new1 apart.l3_k1
          (other_log l3 l1 i3 i1 apart.l3_l1)
      ∙ new3

  pub hexists-Outside :
      (l : Key) (g : ℕ) → Outside l k1 l1 k2 l2 k3 l3 → R.hexists step3 l g ≡ R.hexists s l g
  hexists-Outside l g o =
      hexists-apply_other k3 l3 i3 d3 e3 step2 l g new3_later o.not_k3
        (other_log l l3 g i3 o.not_l3)
      ∙ hexists-apply_other k2 l2 i2 d2 e2 step1 l g new2_later o.not_k2
          (other_log l l2 g i2 o.not_l2)
      ∙ hexists-apply_other k1 l1 i1 d1 e1 s l g new1 o.not_k1 (other_log l l1 g i1 o.not_l1)

  at1 :
      (j : Key)
      → same_key j l1 ≡ false
      → amount step1 j ≡ (if same_key j k1 then amount s k1 +ℤ d1 else amount s j)
  at1 j ne = amount-apply_once k1 l1 i1 d1 e1 s j new1 ne

  at2 :
      (j : Key)
      → same_key j l2 ≡ false
      → amount step2 j ≡ (if same_key j k2 then amount step1 k2 +ℤ d2 else amount step1 j)
  at2 j ne = amount-apply_once k2 l2 i2 d2 e2 step1 j new2_later ne

  at3 :
      (j : Key)
      → same_key j l3 ≡ false
      → amount step3 j ≡ (if same_key j k3 then amount step2 k3 +ℤ d3 else amount step2 j)
  at3 j ne = amount-apply_once k3 l3 i3 d3 e3 step2 j new3_later ne

  pub amount-Outside : (j : Key) → Outside j k1 l1 k2 l2 k3 l3 → amount step3 j ≡ amount s j
  amount-Outside j o =
      at3 j o.not_l3
      ∙ rw o.not_k3 (at2 j o.not_l2 ∙ rw o.not_k2 (at1 j o.not_l1 ∙ rw o.not_k1 refl))

  pub amount_first : amount step3 k1 ≡ amount s k1 +ℤ d1
  amount_first =
      at3 k1 apart.k1_l3
      ∙ rw apart.k1_k3
          (at2 k1 apart.k1_l2 ∙ rw apart.k1_k2 (at1 k1 apart.k1_l1 ∙ rw (same_key_refl k1) refl))

  pub amount_second : amount step3 k2 ≡ amount s k2 +ℤ d2
  amount_second =
      at3 k2 apart.k2_l3
      ∙ rw apart.k2_k3 (
          at2 k2 apart.k2_l2
          ∙ rw (same_key_refl k2) (ap (λ v. v +ℤ d2) (at1 k2 apart.k2_l1 ∙ rw apart.k2_k1 refl)))

  pub amount_third : amount step3 k3 ≡ amount s k3 +ℤ d3
  amount_third =
      at3 k3 apart.k3_l3
      ∙ rw (same_key_refl k3) (
          ap (λ v. v +ℤ d3)
            (at2 k3 apart.k3_l2 ∙ rw apart.k3_k2 (at1 k3 apart.k3_l1 ∙ rw apart.k3_k1 refl)))
