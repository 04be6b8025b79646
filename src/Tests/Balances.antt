-- ===== src/Tests/Balances.antt =====
-- The balances of a trade, and the theorems on the scripts at them.
use spectuel_backend.Prelude.{◌≡◌, refl, arith}
use spectuel_backend.Prelude.Int.{pos, ◌+ℤ◌, ◌-ℤ◌}
use spectuel_backend.Redis.{Key}
use spectuel_backend.Redis.Table.{Tables, table_redis, no_tables}
use spectuel_backend.Balance.Scripts.{update_balance, settle_ask_script, settle_bid_script}
use spectuel_backend.Balance.Once.{amount, update_balance_once, settle_ask_once, settle_bid_once}
use spectuel_backend.Balance.Settle.{NewAsk, NewBid, settle_ask_amounts, settle_bid_amounts}
use spectuel_backend.Balance.Residue.{filled_bid_escrow}
use spectuel_backend.Balance.Conserved.{settled_trade_conserves}

-- The balances of a trade of 4 units at 25 between buyer 7 and seller 8.
update_balance_once_example :
    update_balance ⦃R = table_redis⦄ (Key.cash_balance 7) (Key.cash_balance_log 7) 1 (pos 30) (
      update_balance ⦃R = table_redis⦄
        (Key.cash_balance 7)
        (Key.cash_balance_log 7)
        1
        (pos 30)
        no_tables)
    ≡ update_balance ⦃R = table_redis⦄
        (Key.cash_balance 7)
        (Key.cash_balance_log 7)
        1
        (pos 30)
        no_tables
update_balance_once_example =
    update_balance_once ⦃R = table_redis⦄ (Key.cash_balance 7) (Key.cash_balance_log 7) 1 (pos 30)
      no_tables

settle_ask_once_example :
    settle_ask_script ⦃R = table_redis⦄ 3 8 4 25 1 2 3
      (settle_ask_script ⦃R = table_redis⦄ 3 8 4 25 1 2 3 no_tables)
    ≡ settle_ask_script ⦃R = table_redis⦄ 3 8 4 25 1 2 3 no_tables
settle_ask_once_example = settle_ask_once ⦃R = table_redis⦄ 3 8 4 25 1 2 3 no_tables

settle_bid_once_example :
    settle_bid_script ⦃R = table_redis⦄ 3 7 4 25 4 5 6
      (settle_bid_script ⦃R = table_redis⦄ 3 7 4 25 4 5 6 no_tables)
    ≡ settle_bid_script ⦃R = table_redis⦄ 3 7 4 25 4 5 6 no_tables
settle_bid_once_example = settle_bid_once ⦃R = table_redis⦄ 3 7 4 25 4 5 6 no_tables

new_ask : NewAsk ⦃R = table_redis⦄ 3 8 1 2 3 no_tables
new_ask = record { escrow_new = refl; asset_new = refl; cash_new = refl }

new_bid : NewBid ⦃R = table_redis⦄ 3 7 4 5 6 no_tables
new_bid = record { escrow_new = refl; cash_new = refl; asset_new = refl }

abbrev asked : Tables
asked = settle_ask_script ⦃R = table_redis⦄ 3 8 4 25 1 2 3 no_tables

abbrev paid : Tables
paid = settle_bid_script ⦃R = table_redis⦄ 3 7 4 25 4 5 6 no_tables

abbrev traded : Tables
traded = settle_bid_script ⦃R = table_redis⦄ 3 7 4 25 4 5 6 asked

settle_ask_amounts_example :
    (amount ⦃R = table_redis⦄ asked (Key.asset_escrow 3 8) ≡ pos 0 -ℤ pos 4)
    × (amount ⦃R = table_redis⦄ asked (Key.asset_balance 3 8) ≡ pos 0 -ℤ pos 4)
    × (amount ⦃R = table_redis⦄ asked (Key.cash_balance 8) ≡ pos 0 +ℤ pos 100)
settle_ask_amounts_example = settle_ask_amounts ⦃R = table_redis⦄ 3 8 4 25 1 2 3 no_tables new_ask

settle_bid_amounts_example :
    (amount ⦃R = table_redis⦄ paid (Key.cash_escrow 7) ≡ pos 0 -ℤ pos 100)
    × (amount ⦃R = table_redis⦄ paid (Key.cash_balance 7) ≡ pos 0 -ℤ pos 100)
    × (amount ⦃R = table_redis⦄ paid (Key.asset_balance 3 7) ≡ pos 0 +ℤ pos 4)
settle_bid_amounts_example = settle_bid_amounts ⦃R = table_redis⦄ 3 7 4 25 4 5 6 no_tables new_bid

settled_trade_conserves_example :
    (amount ⦃R = table_redis⦄ traded (Key.cash_balance 7)
        +ℤ amount ⦃R = table_redis⦄ traded (Key.cash_balance 8)
      ≡ pos 0 +ℤ pos 0)
    × (amount ⦃R = table_redis⦄ traded (Key.asset_balance 3 7)
          +ℤ amount ⦃R = table_redis⦄ traded (Key.asset_balance 3 8)
        ≡ pos 0 +ℤ pos 0)
settled_trade_conserves_example =
    settled_trade_conserves ⦃R = table_redis⦄ 3 7 8 4 25 1 2 3 4 5 6 no_tables (λ e. omega arith)
      new_ask new_bid

-- A bid for 4 units with the limit 30 is filled at 25: 20 stay in escrow.
filled_bid_escrow_example :
    amount ⦃R = table_redis⦄
      (settle_bid_script ⦃R = table_redis⦄ 3 7 4 25 4 5 6 (
        update_balance ⦃R = table_redis⦄
          (Key.cash_escrow 7)
          (Key.cash_escrow_log 7)
          9
          (pos 120)
          no_tables))
      (Key.cash_escrow 7)
    ≡ (pos 0 +ℤ pos 120) -ℤ pos 100
filled_bid_escrow_example =
    filled_bid_escrow ⦃R = table_redis⦄ 3 7 4 30 25 9 4 5 6 no_tables new_bid refl
      (λ e. omega arith)
