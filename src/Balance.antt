-- ===== src/Balance.antt =====
-- `BalanceManager` (src/engine/services/balance_manager.py): every change of a balance is logged
-- and then applied by a Lua script that records the event's id, so that it is applied once.
pub mod Scripts
pub mod Once
pub mod Steps
pub mod Settle
pub mod Apart
pub mod Conserved
pub mod Residue
pub mod Reads
use spectuel_backend.Prelude.{ℕ}
use spectuel_backend.Prelude.Int.{ℤ, pos, ◌-ℤ◌}
use spectuel_backend.Errors.{done}
use spectuel_backend.PriceLevel.{PriceLevel}
use spectuel_backend.Sorted.{SortedDict}
use spectuel_backend.Redis.{Redis, Key}
use spectuel_backend.State.{M, pure, gets, modify, new_uuid, ◌>>=◌, ◌>>◌, BalanceEvent}
use spectuel_backend.Logger.{ignore_system_user, log_balance_event}
use Scripts.{update_balance, settle_ask_script, settle_bid_script, get_or_set}

-- The key functions.
abbrev pub get_cash_balance_key : ℕ → Key
get_cash_balance_key user = Key.cash_balance user

abbrev pub get_cash_balance_hkey : ℕ → Key
get_cash_balance_hkey user = Key.cash_balance_log user

abbrev pub get_cash_escrow_key : ℕ → Key
get_cash_escrow_key user = Key.cash_escrow user

abbrev pub get_cash_escrow_hkey : ℕ → Key
get_cash_escrow_hkey user = Key.cash_escrow_log user

abbrev pub get_asset_balance_key : ℕ → ℕ → Key
get_asset_balance_key symbol user = Key.asset_balance symbol user

abbrev pub get_asset_balance_hkey : ℕ → ℕ → Key
get_asset_balance_hkey symbol user = Key.asset_balance_log symbol user

abbrev pub get_asset_escrow_key : ℕ → ℕ → Key
get_asset_escrow_key symbol user = Key.asset_escrow symbol user

abbrev pub get_asset_escrow_hkey : ℕ → ℕ → Key
get_asset_escrow_hkey symbol user = Key.asset_escrow_log symbol user

-- `get_default_cash_balance()`, 10,000 in units of a hundredth of a unit times a tick
abbrev pub default_cash_balance : ℤ
default_cash_balance = pos 100_000_000

abbrev pub minus : ℕ → ℤ
minus n = pos 0 -ℤ pos n

module _ ⦃D : SortedDict PriceLevel⦄ ⦃R : Redis⦄ where
  -- A script run, for its effect.
  abbrev pub on_redis : (R.Store → R.Store) → M (Unit {0})
  on_redis f = modify (λ s. record s { redis = f s.redis })

  -- A read that stores a default for an absent key.
  abbrev pub read_or_default : Key → ℤ → M ℤ
  read_or_default k v s =
      let (r, store) = get_or_set k v s.redis in done r (record s { redis = store })

  abbrev pub get_cash_balance : ℕ → M ℤ
  get_cash_balance user = read_or_default (get_cash_balance_key user) default_cash_balance

  abbrev pub get_cash_escrow : ℕ → M ℤ
  get_cash_escrow user = read_or_default (get_cash_escrow_key user) (pos 0)

  unfoldable pub get_available_cash_balance : ℕ → M ℤ
  get_available_cash_balance user = do
    balance ← get_cash_balance user
    escrow ← get_cash_escrow user
    pure (balance -ℤ escrow)

  unfoldable pub get_available_asset_balance : ℕ → M ℤ
  get_available_asset_balance user = do
    symbol ← gets (λ s. s.symbol)
    balance ← read_or_default (get_asset_balance_key symbol user) (pos 0)
    escrow ← read_or_default (get_asset_escrow_key symbol user) (pos 0)
    pure (balance -ℤ escrow)

  -- `_wal` and the update script, which all the simple changes share.
  abbrev pub logged_update : ℕ → ℕ → (ℕ → BalanceEvent) → Key → Key → ℤ → M (Unit {0})
  logged_update user command event key hkey delta = do
    id ← new_uuid
    log_balance_event user command (event id)
    on_redis (λ store. update_balance key hkey id delta store)

  unfoldable pub increase_cash_balance : ℕ → ℕ → ℕ → M (Unit {0})
  increase_cash_balance user amount command = ignore_system_user user (
      logged_update user command (λ id. BalanceEvent.cash_balance_increased id amount)
        (get_cash_balance_key user) (get_cash_balance_hkey user) (pos amount))

  unfoldable pub decrease_cash_balance : ℕ → ℕ → ℕ → M (Unit {0})
  decrease_cash_balance user amount command = ignore_system_user user (
      logged_update user command (λ id. BalanceEvent.cash_balance_decreased id amount)
        (get_cash_balance_key user) (get_cash_balance_hkey user) (minus amount))

  unfoldable pub increase_cash_escrow : ℕ → ℕ → ℕ → M (Unit {0})
  increase_cash_escrow user amount command = ignore_system_user user (
      logged_update user command (λ id. BalanceEvent.cash_escrow_increased id amount)
        (get_cash_escrow_key user) (get_cash_escrow_hkey user) (pos amount))

  unfoldable pub decrease_cash_escrow : ℕ → ℕ → ℕ → M (Unit {0})
  decrease_cash_escrow user amount command = ignore_system_user user (
      logged_update user command (λ id. BalanceEvent.cash_escrow_decreased id amount)
        (get_cash_escrow_key user) (get_cash_escrow_hkey user) (minus amount))

  unfoldable pub increase_asset_balance : ℕ → ℕ → ℕ → M (Unit {0})
  increase_asset_balance user amount command = ignore_system_user user (do
    symbol ← gets (λ s. s.symbol)
    logged_update user command (λ id. BalanceEvent.asset_balance_increased id symbol amount)
        (get_asset_balance_key symbol user) (get_asset_balance_hkey symbol user) (pos amount))

  unfoldable pub decrease_asset_balance : ℕ → ℕ → ℕ → M (Unit {0})
  decrease_asset_balance user amount command = ignore_system_user user (do
    symbol ← gets (λ s. s.symbol)
    logged_update user command (λ id. BalanceEvent.asset_balance_decreased id symbol amount)
        (get_asset_balance_key symbol user) (get_asset_balance_hkey symbol user) (minus amount))

  unfoldable pub increase_asset_escrow : ℕ → ℕ → ℕ → M (Unit {0})
  increase_asset_escrow user amount command = ignore_system_user user (do
    symbol ← gets (λ s. s.symbol)
    logged_update user command (λ id. BalanceEvent.asset_escrow_increased id symbol amount)
        (get_asset_escrow_key symbol user) (get_asset_escrow_hkey symbol user) (pos amount))

  unfoldable pub decrease_asset_escrow : ℕ → ℕ → ℕ → M (Unit {0})
  decrease_asset_escrow user amount command = ignore_system_user user (do
    symbol ← gets (λ s. s.symbol)
    logged_update user command (λ id. BalanceEvent.asset_escrow_decreased id symbol amount)
        (get_asset_escrow_key symbol user) (get_asset_escrow_hkey symbol user) (minus amount))

  unfoldable pub settle_ask : ℕ → ℕ → ℕ → ℕ → ℕ → M (Unit {0})
  settle_ask user quantity price command trade = ignore_system_user user (do
    symbol ← gets (λ s. s.symbol)
    balance_id ← new_uuid
    escrow_id ← new_uuid
    cash_id ← new_uuid
    id ← new_uuid
    log_balance_event user command
        (BalanceEvent.ask_settled id symbol quantity price trade balance_id escrow_id cash_id)
    on_redis (settle_ask_script symbol user quantity price escrow_id balance_id cash_id))

  unfoldable pub settle_bid : ℕ → ℕ → ℕ → ℕ → ℕ → M (Unit {0})
  settle_bid user quantity price command trade = ignore_system_user user (do
    symbol ← gets (λ s. s.symbol)
    escrow_id ← new_uuid
    cash_id ← new_uuid
    asset_id ← new_uuid
    id ← new_uuid
    log_balance_event user command
        (BalanceEvent.bid_settled id symbol quantity price trade escrow_id cash_id asset_id)
    on_redis (settle_bid_script symbol user quantity price escrow_id cash_id asset_id))
