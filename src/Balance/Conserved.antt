-- ===== src/Balance/Conserved.antt =====
-- A trade settled for its two users (the end of `_process_trade`,
-- src/engine/matching_engines/spot_engine.py): the two scripts one after the other.
use spectuel_backend.Prelude.{ℕ, ◌≡◌, false, ◌≢◌, ◌==◌, ◌∙◌, ap, sym, ◌*◌, arith}
use spectuel_backend.Prelude.Int.{ℤ, pos, ◌+ℤ◌, ◌-ℤ◌, int_laws}
use spectuel_backend.Redis.{Redis, Key}
use spectuel_backend.Balance.Scripts.{settle_ask_script, settle_bid_script}
use spectuel_backend.Balance.Once.{amount}
use spectuel_backend.Balance.Steps.{Outside, hexists-Outside, amount-Outside}
use spectuel_backend.Balance.Apart.{
  buyer_cash, buyer_asset, buyer_escrow_log, buyer_cash_log, buyer_asset_log, seller_cash,
  seller_asset,
}
use spectuel_backend.Balance.Settle.{
  ask-Separate, bid-Separate, NewAsk, NewBid, settle_ask_amounts, settle_bid_amounts,
}

other_users : (b s : ℕ) → b ≢ s → (b == s) ≡ false
other_users b s ne = ground arith

sums : (a b c d x : ℤ) → c ≡ a -ℤ x → d ≡ b +ℤ x → c +ℤ d ≡ a +ℤ b
sums a b c d x h k = rw (h, k) (omega int_laws)

sums' : (a b c d x : ℤ) → c ≡ a +ℤ x → d ≡ b -ℤ x → c +ℤ d ≡ a +ℤ b
sums' a b c d x h k = rw (h, k) (omega int_laws)

module _ ⦃R : Redis⦄ (symbol buyer seller qty price a1 a2 a3 b1 b2 b3 : ℕ) (s : R.Store)
    (ne : buyer ≢ seller) (asked : NewAsk symbol seller a1 a2 a3 s)
    (bid : NewBid symbol buyer b1 b2 b3 s) where
  abbrev sold : R.Store
  sold = settle_ask_script symbol seller qty price a1 a2 a3 s

  abbrev bought : R.Store
  bought = settle_bid_script symbol buyer qty price b1 b2 b3 sold

  unmoved :
      (j : Key)
      → Outside j
          (Key.asset_escrow symbol seller)
          (Key.asset_escrow_log symbol seller)
          (Key.asset_balance symbol seller)
          (Key.asset_balance_log symbol seller)
          (Key.cash_balance seller)
          (Key.cash_balance_log seller)
      → amount sold j ≡ amount s j
  unfolding settle_ask_script
  unmoved j o =
      amount-Outside _ _ _ _ _ _ a1 a2 a3 _ _ _ _ _ _ s (ask-Separate symbol seller)
        asked.escrow_new asked.asset_new asked.cash_new j o

  log_unmoved :
      (l : Key) (g : ℕ)
      → Outside l
          (Key.asset_escrow symbol seller)
          (Key.asset_escrow_log symbol seller)
          (Key.asset_balance symbol seller)
          (Key.asset_balance_log symbol seller)
          (Key.cash_balance seller)
          (Key.cash_balance_log seller)
      → R.hexists sold l g ≡ R.hexists s l g
  unfolding settle_ask_script
  log_unmoved l g o =
      hexists-Outside _ _ _ _ _ _ a1 a2 a3 _ _ _ _ _ _ s (ask-Separate symbol seller)
        asked.escrow_new asked.asset_new asked.cash_new l g o

  apart : (buyer == seller) ≡ false
  apart = other_users buyer seller ne

  apart' : (seller == buyer) ≡ false
  apart' = other_users seller buyer (λ h. ne (sym h))

  bid_later : NewBid symbol buyer b1 b2 b3 sold
  bid_later = record {
    escrow_new = log_unmoved _ b1 (buyer_escrow_log symbol buyer seller apart) ∙ bid.escrow_new;
    cash_new = log_unmoved _ b2 (buyer_cash_log symbol buyer seller apart) ∙ bid.cash_new;
    asset_new = log_unmoved _ b3 (buyer_asset_log symbol buyer seller apart) ∙ bid.asset_new;
  }

  kept :
      (j : Key)
      → Outside j
          (Key.cash_escrow buyer)
          (Key.cash_escrow_log buyer)
          (Key.cash_balance buyer)
          (Key.cash_balance_log buyer)
          (Key.asset_balance symbol buyer)
          (Key.asset_balance_log symbol buyer)
      → amount bought j ≡ amount sold j
  unfolding settle_bid_script
  kept j o =
      amount-Outside _ _ _ _ _ _ b1 b2 b3 _ _ _ _ _ _ sold (bid-Separate symbol buyer)
        bid_later.escrow_new bid_later.cash_new bid_later.asset_new j o

  -- If a trade is settled for two different users, the seller's script and then the buyer's,
  -- with event ids that are new to the users' hashes, then the sum of their cash balances and
  -- the sum of their asset balances stay as they were.
  pub settled_trade_conserves :
      (amount bought (Key.cash_balance buyer) +ℤ amount bought (Key.cash_balance seller)
        ≡ amount s (Key.cash_balance buyer) +ℤ amount s (Key.cash_balance seller))
      × (amount bought (Key.asset_balance symbol buyer)
            +ℤ amount bought (Key.asset_balance symbol seller)
          ≡ amount s (Key.asset_balance symbol buyer) +ℤ amount s (Key.asset_balance symbol seller))
  settled_trade_conserves =
      let (_, sold_asset, sold_cash) =
        settle_ask_amounts symbol seller qty price a1 a2 a3 s asked in
      let (_, paid, got) = settle_bid_amounts symbol buyer qty price b1 b2 b3 sold bid_later in
      (
        sums _ _ _ _ (pos (qty * price))
            (paid
              ∙ ap (λ v. v -ℤ pos (qty * price)) (unmoved _ (buyer_cash symbol buyer seller apart)))
            (kept _ (seller_cash symbol buyer seller apart') ∙ sold_cash),
        sums' _ _ _ _ (pos qty)
            (got ∙ ap (λ v. v +ℤ pos qty) (unmoved _ (buyer_asset symbol buyer seller apart)))
            (kept _ (seller_asset symbol buyer seller apart') ∙ sold_asset),
      )
