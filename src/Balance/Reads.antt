-- ===== src/Balance/Reads.antt =====
-- The reads of the available balance, which store a default under an absent key
-- (src/engine/services/balance_manager.py).
use spectuel_backend.Prelude.{
  ℕ, ◌≡◌, refl, false, Option, none, some, ◌∙◌, ap, Option-cases, inl, inr,
}
use spectuel_backend.Prelude.Int.{ℤ, pos, ◌-ℤ◌}
use spectuel_backend.Errors.{done}
use spectuel_backend.PriceLevel.{PriceLevel}
use spectuel_backend.Sorted.{SortedDict}
use spectuel_backend.Redis.{Redis, Key, same_key}
use spectuel_backend.State.{State}
use spectuel_backend.Balance.{get_available_cash_balance, default_cash_balance}
use spectuel_backend.Balance.Scripts.{get_or_set}
use spectuel_backend.Balance.Once.{same_key_refl}

-- The value under a key, or a default.
abbrev pub value_or : ℤ → Option ℤ → ℤ
value_or v none = v
value_or v (some w) = w

module _ ⦃R : Redis⦄ where
  -- The store after a read with a default.
  abbrev after_read : Key → ℤ → R.Store → Option ℤ → R.Store
  after_read k v s none = R.set s k v
  after_read k v s (some w) = s

  get_or_set_lem :
      (k : Key) (v : ℤ) (s : R.Store)
      → get_or_set k v s ≡ (value_or v (R.get s k), after_read k v s (R.get s k))
  unfolding get_or_set
  get_or_set_lem k v s = elim (Option-cases (R.get s k)) [
    | inl e ↦ rw (e, get_or_set) refl
    | inr (w, e) ↦ rw (e, get_or_set) refl
  ]

  get-after_read :
      (k : Key) (v : ℤ) (s : R.Store) (o : Option ℤ)
      → R.get s k ≡ o
      → R.get (after_read k v s o) k ≡ some (value_or v o)
  get-after_read k v s none e = R.get-set s k v k ∙ rw (same_key_refl k) refl
  get-after_read k v s (some w) e = e

  get-after_other :
      (k : Key) (v : ℤ) (s : R.Store) (o : Option ℤ) (j : Key)
      → same_key j k ≡ false
      → R.get (after_read k v s o) j ≡ R.get s j
  get-after_other k v s none j ne = R.get-set s k v j ∙ rw ne refl
  get-after_other k v s (some w) j ne = refl

module _ ⦃D : SortedDict PriceLevel⦄ ⦃R : Redis⦄ where
  module _ (user : ℕ) (s : State) where
    abbrev cash : Key
    cash = Key.cash_balance user

    abbrev escrow : Key
    escrow = Key.cash_escrow user

    abbrev store1 : R.Store
    store1 = after_read cash default_cash_balance s.redis (R.get s.redis cash)

    abbrev store2 : R.Store
    store2 = after_read escrow (pos 0) store1 (R.get store1 escrow)

    abbrev available : ℤ
    available =
        value_or default_cash_balance (R.get s.redis cash)
        -ℤ value_or (pos 0) (R.get s.redis escrow)

    first_read : get_available_cash_balance user s ≡ done available (record s { redis = store2 })
    unfolding get_available_cash_balance
    first_read =
        rw
          (
            get_or_set_lem cash default_cash_balance s.redis,
            get_or_set_lem escrow (pos 0) store1,
            get-after_other cash default_cash_balance s.redis (R.get s.redis cash) escrow refl,
          )
          refl

    cash_kept : R.get store2 cash ≡ some (value_or default_cash_balance (R.get s.redis cash))
    cash_kept =
        get-after_other escrow (pos 0) store1 (R.get store1 escrow) cash refl
        ∙ get-after_read cash default_cash_balance s.redis (R.get s.redis cash) refl

    escrow_kept : R.get store2 escrow ≡ some (value_or (pos 0) (R.get s.redis escrow))
    escrow_kept =
        get-after_read escrow (pos 0) store1 (R.get store1 escrow) refl
        ∙ ap (λ o. some (value_or (pos 0) o))
            (get-after_other cash default_cash_balance s.redis (R.get s.redis cash) escrow refl)

  -- A read of the available cash balance succeeds with the balance less the escrow, where an
  -- absent balance counts as the default and an absent escrow as zero; a second read right
  -- after it has the same result and changes nothing more.
  pub available_cash_twice :
      (user : ℕ) (s : State)
      → (s' : State) × (get_available_cash_balance user s
          ≡ done
              (value_or default_cash_balance (R.get s.redis (Key.cash_balance user))
                -ℤ value_or (pos 0) (R.get s.redis (Key.cash_escrow user)))
              s')
        × (get_available_cash_balance user s'
            ≡ done
                (value_or default_cash_balance (R.get s.redis (Key.cash_balance user))
                  -ℤ value_or (pos 0) (R.get s.redis (Key.cash_escrow user)))
                s')
  available_cash_twice user s =
      let s' : State = record s { redis = store2 user s } in
      (s', first_read user s, first_read user s' ∙ rw (cash_kept user s, escrow_kept user s) refl)
