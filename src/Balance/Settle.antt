-- ===== src/Balance/Settle.antt =====
-- The settlement scripts of src/engine/services/balance_manager.py and the amounts of a user.
use spectuel_backend.Prelude.{ℕ, ◌*◌, ◌≡◌, refl, false, ◌∙◌}
use spectuel_backend.Prelude.Int.{ℤ, pos, ◌+ℤ◌, ◌-ℤ◌, int_laws}
use spectuel_backend.Redis.{Redis, Key}
use spectuel_backend.Balance.Scripts.{settle_ask_script, settle_bid_script}
use spectuel_backend.Balance.Once.{amount}
use spectuel_backend.Balance.Steps.{Separate, amount_first, amount_second, amount_third}

pub ask-Separate :
    (symbol user : ℕ)
    → Separate
        (Key.asset_escrow symbol user)
        (Key.asset_escrow_log symbol user)
        (Key.asset_balance symbol user)
        (Key.asset_balance_log symbol user)
        (Key.cash_balance user)
        (Key.cash_balance_log user)
ask-Separate symbol user = record {
  k1_l1 = refl;
  k1_l2 = refl;
  k1_l3 = refl;
  k2_l1 = refl;
  k2_l2 = refl;
  k2_l3 = refl;
  k3_l1 = refl;
  k3_l2 = refl;
  k3_l3 = refl;
  k1_k2 = refl;
  k1_k3 = refl;
  k2_k1 = refl;
  k2_k3 = refl;
  k3_k1 = refl;
  k3_k2 = refl;
  l2_k1 = refl;
  l2_l1 = refl;
  l3_k1 = refl;
  l3_l1 = refl;
  l3_k2 = refl;
  l3_l2 = refl;
}

pub bid-Separate :
    (symbol user : ℕ)
    → Separate
        (Key.cash_escrow user)
        (Key.cash_escrow_log user)
        (Key.cash_balance user)
        (Key.cash_balance_log user)
        (Key.asset_balance symbol user)
        (Key.asset_balance_log symbol user)
bid-Separate symbol user = record {
  k1_l1 = refl;
  k1_l2 = refl;
  k1_l3 = refl;
  k2_l1 = refl;
  k2_l2 = refl;
  k2_l3 = refl;
  k3_l1 = refl;
  k3_l2 = refl;
  k3_l3 = refl;
  k1_k2 = refl;
  k1_k3 = refl;
  k2_k1 = refl;
  k2_k3 = refl;
  k3_k1 = refl;
  k3_k2 = refl;
  l2_k1 = refl;
  l2_l1 = refl;
  l3_k1 = refl;
  l3_l1 = refl;
  l3_k2 = refl;
  l3_l2 = refl;
}

module _ ⦃R : Redis⦄ where
  -- The ids of a settlement are new to the hashes that they are looked up in.
  pub record NewAsk (symbol user escrow_id balance_id cash_id : ℕ) (s : R.Store) : Type 0 where
    pub escrow_new : R.hexists s (Key.asset_escrow_log symbol user) escrow_id ≡ false
    pub asset_new : R.hexists s (Key.asset_balance_log symbol user) balance_id ≡ false
    pub cash_new : R.hexists s (Key.cash_balance_log user) cash_id ≡ false

  pub record NewBid (symbol user escrow_id cash_id asset_id : ℕ) (s : R.Store) : Type 0 where
    pub escrow_new : R.hexists s (Key.cash_escrow_log user) escrow_id ≡ false
    pub cash_new : R.hexists s (Key.cash_balance_log user) cash_id ≡ false
    pub asset_new : R.hexists s (Key.asset_balance_log symbol user) asset_id ≡ false

  minus : (a : ℤ) (n : ℕ) → a +ℤ (pos 0 -ℤ pos n) ≡ a -ℤ pos n
  minus a n = omega int_laws

  -- If the event ids of a settled ask are new to the user's hashes, then the asset escrow and
  -- the asset balance fall by the quantity, and the cash balance rises by the quantity times
  -- the price.
  pub settle_ask_amounts :
      (symbol user qty price a b c : ℕ) (s : R.Store)
      → NewAsk symbol user a b c s
      → let s' = settle_ask_script symbol user qty price a b c s in
        (amount s' (Key.asset_escrow symbol user)
          ≡ amount s (Key.asset_escrow symbol user) -ℤ pos qty)
        × (amount s' (Key.asset_balance symbol user)
            ≡ amount s (Key.asset_balance symbol user) -ℤ pos qty)
        × (amount s' (Key.cash_balance user)
            ≡ amount s (Key.cash_balance user) +ℤ pos (qty * price))
  unfolding settle_ask_script
  settle_ask_amounts symbol user qty price a b c s new = (
    amount_first _ _ _ _ _ _ a b c _ _ _ _ _ _ s (ask-Separate symbol user) new.escrow_new
          new.asset_new new.cash_new
        ∙ minus _ qty,
    amount_second _ _ _ _ _ _ a b c _ _ _ _ _ _ s (ask-Separate symbol user) new.escrow_new
          new.asset_new new.cash_new
        ∙ minus _ qty,
    amount_third _ _ _ _ _ _ a b c _ _ _ _ _ _ s (ask-Separate symbol user) new.escrow_new
        new.asset_new new.cash_new,
  )

  -- If the event ids of a settled bid are new to the user's hashes, then the cash escrow and
  -- the cash balance fall by the quantity times the price, and the asset balance rises by the
  -- quantity.
  pub settle_bid_amounts :
      (symbol user qty price a b c : ℕ) (s : R.Store)
      → NewBid symbol user a b c s
      → let s' = settle_bid_script symbol user qty price a b c s in
        (amount s' (Key.cash_escrow user) ≡ amount s (Key.cash_escrow user) -ℤ pos (qty * price))
        × (amount s' (Key.cash_balance user)
            ≡ amount s (Key.cash_balance user) -ℤ pos (qty * price))
        × (amount s' (Key.asset_balance symbol user)
            ≡ amount s (Key.asset_balance symbol user) +ℤ pos qty)
  unfolding settle_bid_script
  settle_bid_amounts symbol user qty price a b c s new = (
    amount_first _ _ _ _ _ _ a b c _ _ _ _ _ _ s (bid-Separate symbol user) new.escrow_new
          new.cash_new new.asset_new
        ∙ minus _ (qty * price),
    amount_second _ _ _ _ _ _ a b c _ _ _ _ _ _ s (bid-Separate symbol user) new.escrow_new
          new.cash_new new.asset_new
        ∙ minus _ (qty * price),
    amount_third _ _ _ _ _ _ a b c _ _ _ _ _ _ s (bid-Separate symbol user) new.escrow_new
        new.cash_new new.asset_new,
  )
