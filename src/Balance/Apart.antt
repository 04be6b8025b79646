-- ===== src/Balance/Apart.antt =====
-- The keys of two users are apart.
use spectuel_backend.Prelude.{ℕ, ◌≡◌, refl, false, ◌==◌}
use spectuel_backend.Redis.{Key}
use spectuel_backend.Balance.Steps.{Outside}

-- The keys of one user are outside those that a settlement for another one writes.
module _ (symbol b s : ℕ) (e : (b == s) ≡ false) where
  pub buyer_cash :
      Outside
        (Key.cash_balance b)
        (Key.asset_escrow symbol s)
        (Key.asset_escrow_log symbol s)
        (Key.asset_balance symbol s)
        (Key.asset_balance_log symbol s)
        (Key.cash_balance s)
        (Key.cash_balance_log s)
  buyer_cash = record {
    not_k1 = refl;
    not_k2 = refl;
    not_k3 = rw e refl;
    not_l1 = refl;
    not_l2 = refl;
    not_l3 = refl;
  }

  pub buyer_asset :
      Outside
        (Key.asset_balance symbol b)
        (Key.asset_escrow symbol s)
        (Key.asset_escrow_log symbol s)
        (Key.asset_balance symbol s)
        (Key.asset_balance_log symbol s)
        (Key.cash_balance s)
        (Key.cash_balance_log s)
  buyer_asset = record {
    not_k1 = refl;
    not_k2 = rw e refl;
    not_k3 = refl;
    not_l1 = refl;
    not_l2 = refl;
    not_l3 = refl;
  }

  pub buyer_escrow_log :
      Outside
        (Key.cash_escrow_log b)
        (Key.asset_escrow symbol s)
        (Key.asset_escrow_log symbol s)
        (Key.asset_balance symbol s)
        (Key.asset_balance_log symbol s)
        (Key.cash_balance s)
        (Key.cash_balance_log s)
  buyer_escrow_log = record {
    not_k1 = refl;
    not_k2 = refl;
    not_k3 = refl;
    not_l1 = refl;
    not_l2 = refl;
    not_l3 = refl;
  }

  pub buyer_cash_log :
      Outside
        (Key.cash_balance_log b)
        (Key.asset_escrow symbol s)
        (Key.asset_escrow_log symbol s)
        (Key.asset_balance symbol s)
        (Key.asset_balance_log symbol s)
        (Key.cash_balance s)
        (Key.cash_balance_log s)
  buyer_cash_log = record {
    not_k1 = refl;
    not_k2 = refl;
    not_k3 = refl;
    not_l1 = refl;
    not_l2 = refl;
    not_l3 = rw e refl;
  }

  pub buyer_asset_log :
      Outside
        (Key.asset_balance_log symbol b)
        (Key.asset_escrow symbol s)
        (Key.asset_escrow_log symbol s)
        (Key.asset_balance symbol s)
        (Key.asset_balance_log symbol s)
        (Key.cash_balance s)
        (Key.cash_balance_log s)
  buyer_asset_log = record {
    not_k1 = refl;
    not_k2 = refl;
    not_k3 = refl;
    not_l1 = refl;
    not_l2 = rw e refl;
    not_l3 = refl;
  }

module _ (symbol b s : ℕ) (e : (s == b) ≡ false) where
  pub seller_cash :
      Outside
        (Key.cash_balance s)
        (Key.cash_escrow b)
        (Key.cash_escrow_log b)
        (Key.cash_balance b)
        (Key.cash_balance_log b)
        (Key.asset_balance symbol b)
        (Key.asset_balance_log symbol b)
  seller_cash = record {
    not_k1 = refl;
    not_k2 = rw e refl;
    not_k3 = refl;
    not_l1 = refl;
    not_l2 = refl;
    not_l3 = refl;
  }

  pub seller_asset :
      Outside
        (Key.asset_balance symbol s)
        (Key.cash_escrow b)
        (Key.cash_escrow_log b)
        (Key.cash_balance b)
        (Key.cash_balance_log b)
        (Key.asset_balance symbol b)
        (Key.asset_balance_log symbol b)
  seller_asset = record {
    not_k1 = refl;
    not_k2 = refl;
    not_k3 = rw e refl;
    not_l1 = refl;
    not_l2 = refl;
    not_l3 = refl;
  }
