-- ===== src/Strategy/Single.antt =====
-- `SingleOrderStrategy` (src/engine/strategies/single_strategy.py), but for `handle_new`.
use spectuel_backend.Prelude.{ℕ}
use spectuel_backend.Enums.{OrderEventType}
use spectuel_backend.PriceLevel.{PriceLevel}
use spectuel_backend.Sorted.{SortedDict}
use spectuel_backend.Redis.{Redis}
use spectuel_backend.State.{M, pure, price_of, book_remove, store_remove, ◌>>=◌, ◌>>◌}
use spectuel_backend.Strategy.Base.{log_order, release_escrow}

module _ ⦃D : SortedDict PriceLevel⦄ ⦃R : Redis⦄ where
  unfoldable pub single_filled : ℕ → M (Unit {0})
  single_filled r = pure tt

  unfoldable pub single_cancel : ℕ → M (Unit {0})
  single_cancel r = do
    log_order OrderEventType.order_cancelled r
    price ← price_of r
    book_remove r price
    store_remove r
    release_escrow r
