-- ===== src/Strategy/Oco.antt =====
-- `OCOStrategy` (src/engine/strategies/oco_strategy.py), but for `handle_new`.
use spectuel_backend.Prelude.{ℕ}
use spectuel_backend.Enums.{OrderEventType}
use spectuel_backend.PriceLevel.{PriceLevel}
use spectuel_backend.Sorted.{SortedDict}
use spectuel_backend.Redis.{Redis}
use spectuel_backend.State.{M, deref, linked, price_of, book_remove, store_remove, ◌>>=◌, ◌>>◌}
use spectuel_backend.Strategy.Base.{log_order_for, log_order, release_escrow}

module _ ⦃D : SortedDict PriceLevel⦄ ⦃R : Redis⦄ where
  -- The other leg is cancelled; the escrow that is released is that of the filled order.
  unfoldable pub oco_filled : ℕ → M (Unit {0})
  oco_filled r = do
    o ← deref r
    other ← linked o.counterparty
    log_order_for o.user_id OrderEventType.order_cancelled other
    price ← price_of other
    book_remove other price
    store_remove other
    release_escrow r

  unfoldable pub oco_cancel : ℕ → M (Unit {0})
  oco_cancel r = do
    o ← deref r
    log_order OrderEventType.order_cancelled r
    other ← linked o.counterparty
    log_order_for o.user_id OrderEventType.order_cancelled other
    price ← price_of r
    book_remove r price
    other_price ← price_of other
    book_remove other other_price
    store_remove r
    store_remove other
    release_escrow r
