-- ===== src/Engine/Steps.antt =====
-- Steps of the handlers that succeed: the log of an order and the read of its price.
use spectuel_backend.Prelude.{ℕ, ◌≡◌, refl, true, false, none, some, ◌==◌, ◌∷◌, put}
use spectuel_backend.Errors.{done}
use spectuel_backend.Enums.{OrderType, OrderEventType}
use spectuel_backend.PriceLevel.{PriceLevel}
use spectuel_backend.Sorted.{SortedDict}
use spectuel_backend.Redis.{Redis}
use spectuel_backend.Order
use spectuel_backend.Order.{holds_order}
use spectuel_backend.State.{State, price_of, order_event, store_add}
use spectuel_backend.Logger.{is_valid_event, log_order_event}
use spectuel_backend.Strategy.{log_order, log_order_for}

module _ ⦃D : SortedDict PriceLevel⦄ ⦃R : Redis⦄ (r : ℕ) (s : State) where
  abbrev pub logged : OrderEventType → State
  logged t = record s {
    log =
        order_event t (s.objects r).user_id (s.objects r).id s.cur_command_id (s.objects r) ∷ s.log;
  }

  pub log_order_done :
      (t : OrderEventType)
      → is_valid_event t (some (s.objects r)) none ≡ true
      → ((s.objects r).user_id == s.system_user_id) ≡ false
      → holds_order (s.objects r) ≡ false
      → log_order t r s ≡ done tt (logged t)
  unfolding log_order log_order_for log_order_event
  log_order_done t valid user unlinked = rw (user, valid, unlinked) refl

  pub price_done :
      (p : ℕ)
      → (s.objects r).order_type ≡ OrderType.limit
      → (s.objects r).limit_price ≡ some p
      → price_of r s ≡ done (some p) s
  unfolding Order.price
  price_done p limit at_price = rw (limit, at_price) refl

  pub store_add_done :
      s.order_store (s.objects r).id ≡ none
      → store_add r s ≡ done tt (record s { order_store = put s.order_store (s.objects r).id r })
  unfolding store_add
  store_add_done fresh = rw fresh refl
