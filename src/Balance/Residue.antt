-- ===== src/Balance/Residue.antt =====
-- What is left in escrow when a bid is filled below its limit price (`_process_trade` of
-- src/engine/matching_engines/spot_engine.py): escrow goes in at the limit price, and out at the
-- price of the trade.
use spectuel_backend.Prelude.{ℕ, Bool, ◌*◌, ◌≡◌, ◌≢◌, refl, false, ◌==◌, ◌&&◌, ◌∙◌, ap, arith}
use spectuel_backend.Prelude.Int.{pos, ◌+ℤ◌, ◌-ℤ◌}
use spectuel_backend.Redis.{Redis, Key, same_key}
use spectuel_backend.Balance.Scripts.{apply_once, update_balance, settle_bid_script}
use spectuel_backend.Balance.Once.{amount, same_key_refl}
use spectuel_backend.Balance.Steps.{amount-apply_once, hexists-apply_other}
use spectuel_backend.Balance.Settle.{NewBid, settle_bid_amounts}

other_id : (b : Bool) (a e : ℕ) → a ≢ e → (b && a == e) ≡ false
other_id b a e ne = ground arith

module _ ⦃R : Redis⦄ where
  escrowed-NewBid :
      (symbol user total e a b c : ℕ) (s : R.Store)
      → NewBid symbol user a b c s
      → R.hexists s (Key.cash_escrow_log user) e ≡ false
      → a ≢ e
      → NewBid symbol user a b c
          (update_balance (Key.cash_escrow user) (Key.cash_escrow_log user) e (pos total) s)
  unfolding update_balance
  escrowed-NewBid symbol user total e a b c s new once ne =
      let other : (l : Key) (g : ℕ)
          → same_key l (Key.cash_escrow user) ≡ false
          → (same_key l (Key.cash_escrow_log user) && g == e) ≡ false
          → R.hexists
              (apply_once (Key.cash_escrow user) (Key.cash_escrow_log user) e (pos total)
                (pos total) s)
              l g
            ≡ R.hexists s l g =
        λ l g k h.
          hexists-apply_other (Key.cash_escrow user) (Key.cash_escrow_log user) e (pos total)
            (pos total) s l g once k h in
      record {
        escrow_new = other (Key.cash_escrow_log user) a refl (other_id _ a e ne) ∙ new.escrow_new;
        cash_new = other (Key.cash_balance_log user) b refl refl ∙ new.cash_new;
        asset_new = other (Key.asset_balance_log symbol user) c refl refl ∙ new.asset_new;
      }

  -- If a bid's escrow is raised by quantity times limit price and the bid is then settled in
  -- full at some price, with event ids that are new and differ in the escrow hash, then the
  -- cash escrow ends at what it was, plus quantity times limit price, less quantity times the
  -- price of the trade: a fill below the limit leaves the difference in escrow.
  pub filled_bid_escrow :
      (symbol user qty limit price e a b c : ℕ) (s : R.Store)
      → NewBid symbol user a b c s
      → R.hexists s (Key.cash_escrow_log user) e ≡ false
      → a ≢ e
      → let s1 =
          update_balance
            (Key.cash_escrow user)
            (Key.cash_escrow_log user)
            e
            (pos (qty * limit))
            s in
        amount (settle_bid_script symbol user qty price a b c s1) (Key.cash_escrow user)
        ≡ (amount s (Key.cash_escrow user) +ℤ pos (qty * limit)) -ℤ pos (qty * price)
  unfolding update_balance
  filled_bid_escrow symbol user qty limit price e a b c s new once ne =
      let s1 : R.Store =
        update_balance (Key.cash_escrow user) (Key.cash_escrow_log user) e (pos (qty * limit)) s in
      let (escrow, _, _) =
        settle_bid_amounts symbol user qty price a b c s1
          (escrowed-NewBid symbol user (qty * limit) e a b c s new once ne) in
      escrow
      ∙ ap (λ v. v -ℤ pos (qty * price))
          (amount-apply_once (Key.cash_escrow user) (Key.cash_escrow_log user) e _ _ s
              (Key.cash_escrow user) once refl
            ∙ rw (same_key_refl (Key.cash_escrow user)) refl)
