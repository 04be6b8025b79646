-- ===== src/Placing/Oco.antt =====
-- `OCOStrategy.handle_new` (src/engine/strategies/oco_strategy.py).
use spectuel_backend.Prelude.{ℕ, none, some, List, [], ◌∷◌}
use spectuel_backend.Errors.{value_error}
use spectuel_backend.Enums.{OrderEventType}
use spectuel_backend.PriceLevel.{PriceLevel}
use spectuel_backend.Sorted.{SortedDict}
use spectuel_backend.Redis.{Redis}
use spectuel_backend.Order.{Order, OrderDict, new_order}
use spectuel_backend.State.{M, raise, assign, create, price_of, store_add, book_append, ◌>>=◌, ◌>>◌}
use spectuel_backend.Strategy.{log_order}

abbrev pub set_counterparty : ℕ → Order → Order
set_counterparty r o = record o { counterparty = some r }

module _ ⦃D : SortedDict PriceLevel⦄ ⦃R : Redis⦄ where
  unfoldable pub place_legs : ℕ → ℕ → M (Unit {0})
  place_legs a b = do
    log_order OrderEventType.order_placed a
    log_order OrderEventType.order_placed b
    price_a ← price_of a
    book_append a price_a
    price_b ← price_of b
    book_append b price_b
    store_add a
    store_add b

  unfoldable pub oco_new_legs : OrderDict → OrderDict → M (Unit {0})
  unfolding place_legs
  oco_new_legs leg_a leg_b = do
    a ← create (new_order leg_a none)
    b ← create (new_order leg_b none)
    assign a (set_counterparty b)
    assign b (set_counterparty a)
    place_legs a b

  -- Unpacking anything but two legs raises.
  unfoldable pub oco_new : List OrderDict → M (Unit {0})
  unfolding oco_new_legs
  oco_new (leg_a ∷ leg_b ∷ []) = oco_new_legs leg_a leg_b
  oco_new _ = raise value_error
