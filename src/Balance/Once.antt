-- ===== src/Balance/Once.antt =====
-- The scripts of src/engine/services/balance_manager.py run a second time with the same event
-- ids.
use spectuel_backend.Prelude.{
  ℕ, ◌*◌, ◌≡◌, refl, Bool, true, false, ◌&&◌, ◌==◌, if◌then◌else◌, arith, Bool-cases, inl, inr,
}
use spectuel_backend.Prelude.Int.{ℤ, pos, ◌-ℤ◌}
use spectuel_backend.Redis.{Redis, Key, same_key, amount_or_zero}
use spectuel_backend.Balance.Scripts.{
  apply_once, update_balance, settle_ask_script, settle_bid_script,
}

pub same_key_refl : (k : Key) → same_key k k ≡ true
same_key_refl k = ground arith

module _ ⦃R : Redis⦄ where
  -- The amount under a key, an absent one counting as zero.
  abbrev pub amount : R.Store → Key → ℤ
  amount s k = amount_or_zero (R.get s k)

  pub apply_once_seen :
      (key log : Key) (id : ℕ) (d e : ℤ) (s : R.Store)
      → R.hexists s log id ≡ true
      → apply_once key log id d e s ≡ s
  unfolding apply_once
  apply_once_seen key log id d e s h = rw h

  pub apply_once_new :
      (key log : Key) (id : ℕ) (d e : ℤ) (s : R.Store)
      → R.hexists s log id ≡ false
      → apply_once key log id d e s ≡ R.hset (R.incrbyfloat s key d) log id e
  unfolding apply_once
  apply_once_new key log id d e s h = rw h

  pub hexists-apply_once :
      (key log : Key) (id : ℕ) (d e : ℤ) (s : R.Store)
      → R.hexists (apply_once key log id d e s) log id ≡ true
  unfolding apply_once
  hexists-apply_once key log id d e s = elim (Bool-cases (R.hexists s log id)) [
    | inl seen ↦ rw (seen, seen)
    | inr new ↦
        rw (new, R.hexists-hset (R.incrbyfloat s key d) log id e log id)
          (ground (arith, same_key_refl log))
  ]

  -- An id that was seen stays seen.
  pub hexists_kept :
      (key log : Key) (id : ℕ) (d e : ℤ) (s : R.Store) (l : Key) (g : ℕ)
      → same_key l key ≡ false
      → R.hexists s l g ≡ true
      → R.hexists (apply_once key log id d e s) l g ≡ true
  unfolding apply_once
  hexists_kept key log id d e s l g ne h = elim (Bool-cases (R.hexists s log id)) [
    | inl seen ↦ rw (seen, h)
    | inr new ↦
        rw
          (
            new,
            R.hexists-hset (R.incrbyfloat s key d) log id e l g,
            R.hexists-incrbyfloat s key d l g ne,
            h,
          )
          (either (same_key l log && g == id))
  ]
    where
      either : (b : Bool) → (if b then true else true) ≡ true
      either true = refl
      either false = refl

  -- The script of a balance update, run twice with the same event id, leaves the store that it
  -- leaves when it is run once.
  pub update_balance_once :
      (key log : Key) (id : ℕ) (d : ℤ) (s : R.Store)
      → update_balance key log id d (update_balance key log id d s) ≡ update_balance key log id d s
  unfolding update_balance
  update_balance_once key log id d s =
      apply_once_seen key log id d d (apply_once key log id d d s)
        (hexists-apply_once key log id d d s)

  -- Three steps, each with its own hash, run twice.
  three_once :
      (k1 l1 k2 l2 k3 l3 : Key) (i1 i2 i3 : ℕ) (d1 e1 d2 e2 d3 e3 : ℤ) (s : R.Store)
      → same_key l1 k2 ≡ false
      → same_key l1 k3 ≡ false
      → same_key l2 k3 ≡ false
      → let run = λ (t : R.Store).
        apply_once k3 l3 i3 d3 e3 (apply_once k2 l2 i2 d2 e2 (apply_once k1 l1 i1 d1 e1 t)) in
        run (run s) ≡ run s
  three_once k1 l1 k2 l2 k3 l3 i1 i2 i3 d1 e1 d2 e2 d3 e3 s a b c =
      let s1 = apply_once k1 l1 i1 d1 e1 s in
      let s2 = apply_once k2 l2 i2 d2 e2 s1 in
      let s3 = apply_once k3 l3 i3 d3 e3 s2 in
      let seen1 =
        hexists_kept k3 l3 i3 d3 e3 s2 l1 i1 b
          (hexists_kept k2 l2 i2 d2 e2 s1 l1 i1 a (hexists-apply_once k1 l1 i1 d1 e1 s)) in
      let seen2 = hexists_kept k3 l3 i3 d3 e3 s2 l2 i2 c (hexists-apply_once k2 l2 i2 d2 e2 s1) in
      rw (apply_once_seen k1 l1 i1 d1 e1 s3 seen1, apply_once_seen k2 l2 i2 d2 e2 s3 seen2)
        (apply_once_seen k3 l3 i3 d3 e3 s3 (hexists-apply_once k3 l3 i3 d3 e3 s2))

  -- The script of a settled ask, run twice with the same event ids, leaves the store that it
  -- leaves when it is run once.
  pub settle_ask_once :
      (symbol user qty price a b c : ℕ) (s : R.Store)
      → let run = settle_ask_script symbol user qty price a b c in run (run s) ≡ run s
  unfolding settle_ask_script
  settle_ask_once symbol user qty price a b c s =
      three_once (Key.asset_escrow symbol user) (Key.asset_escrow_log symbol user)
        (Key.asset_balance symbol user) (Key.asset_balance_log symbol user) (Key.cash_balance user)
        (Key.cash_balance_log user) a b c (pos 0 -ℤ pos qty) (pos qty) (pos 0 -ℤ pos qty) (pos qty)
        (pos (qty * price)) (pos (qty * price)) s refl refl refl

  -- The script of a settled bid, run twice with the same event ids, leaves the store that it
  -- leaves when it is run once.
  pub settle_bid_once :
      (symbol user qty price a b c : ℕ) (s : R.Store)
      → let run = settle_bid_script symbol user qty price a b c in run (run s) ≡ run s
  unfolding settle_bid_script
  settle_bid_once symbol user qty price a b c s =
      three_once (Key.cash_escrow user) (Key.cash_escrow_log user) (Key.cash_balance user)
        (Key.cash_balance_log user) (Key.asset_balance symbol user)
        (Key.asset_balance_log symbol user) a b c (pos 0 -ℤ pos (qty * price)) (pos (qty * price))
        (pos 0 -ℤ pos (qty * price)) (pos (qty * price)) (pos qty) (pos qty) s refl refl refl
