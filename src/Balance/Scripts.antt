-- ===== src/Balance/Scripts.antt =====
-- The Lua scripts of src/engine/services/balance_manager.py, on the store of Redis.
use spectuel_backend.Prelude.{ℕ, ◌*◌, none, some, if◌then◌else◌}
use spectuel_backend.Prelude.Int.{ℤ, pos, ◌-ℤ◌}
use spectuel_backend.Redis.{Redis, Key}

module _ ⦃R : Redis⦄ where
  -- `if HEXISTS(log, id) == 0 then INCRBYFLOAT(key, delta); HSET(log, id, entry)`
  unfoldable pub apply_once : Key → Key → ℕ → ℤ → ℤ → R.Store → R.Store
  apply_once key log id delta entry s =
      if R.hexists s log id then s else R.hset (R.incrbyfloat s key delta) log id entry

  -- `LUA_UPDATE_BALANCE`
  unfoldable pub update_balance : Key → Key → ℕ → ℤ → R.Store → R.Store
  unfolding apply_once
  update_balance key log id delta s = apply_once key log id delta delta s

  -- `LUA_SETTLE_ASK`, with the keys of `settle_ask`
  unfoldable pub settle_ask_script : ℕ → ℕ → ℕ → ℕ → ℕ → ℕ → ℕ → R.Store → R.Store
  unfolding apply_once
  settle_ask_script symbol user qty price escrow_id balance_id cash_id s =
      let cash_amt = qty * price in
      let s1 =
        apply_once (Key.asset_escrow symbol user) (Key.asset_escrow_log symbol user) escrow_id
          (pos 0 -ℤ pos qty) (pos qty) s in
      let s2 =
        apply_once (Key.asset_balance symbol user) (Key.asset_balance_log symbol user) balance_id
          (pos 0 -ℤ pos qty) (pos qty) s1 in
      apply_once (Key.cash_balance user) (Key.cash_balance_log user) cash_id (pos cash_amt)
        (pos cash_amt) s2

  -- `LUA_SETTLE_BID`, with the keys of `settle_bid`
  unfoldable pub settle_bid_script : ℕ → ℕ → ℕ → ℕ → ℕ → ℕ → ℕ → R.Store → R.Store
  unfolding apply_once
  settle_bid_script symbol user qty price escrow_id cash_id asset_id s =
      let total_cash = qty * price in
      let s1 =
        apply_once (Key.cash_escrow user) (Key.cash_escrow_log user) escrow_id
          (pos 0 -ℤ pos total_cash) (pos total_cash) s in
      let s2 =
        apply_once (Key.cash_balance user) (Key.cash_balance_log user) cash_id
          (pos 0 -ℤ pos total_cash) (pos total_cash) s1 in
      apply_once (Key.asset_balance symbol user) (Key.asset_balance_log symbol user) asset_id
        (pos qty) (pos qty) s2

  -- `GET`, and `SET` of a default if the key is absent
  unfoldable pub get_or_set : Key → ℤ → R.Store → ℤ × R.Store
  get_or_set k v s = elim (R.get s k) [ none ↦ (v, R.set s k v) | some w ↦ (w, s) ]
