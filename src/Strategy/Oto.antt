-- ===== src/Strategy/Oto.antt =====
-- `OTOStrategy` (src/engine/strategies/oto_strategy.py), but for `handle_new`.
use spectuel_backend.Prelude.{
  ℕ, Bool, true, false, Option, none, some, ◌==◌, ◌&&◌, is_some, if◌then◌else◌,
}
use spectuel_backend.Enums.{OrderEventType}
use spectuel_backend.PriceLevel.{PriceLevel}
use spectuel_backend.Sorted.{SortedDict}
use spectuel_backend.Redis.{Redis}
use spectuel_backend.Order
use spectuel_backend.Order.{Order}
use spectuel_backend.State.{
  M, pure, deref, assign, linked, price_of, book_append, book_remove, store_add, store_remove, when,
  ◌>>=◌, ◌>>◌,
}
use spectuel_backend.Strategy.Base.{log_order_for, log_order, log_bare, release_escrow}
use spectuel_backend.Strategy.Modify.{
  ModifyCommand, modify_order, validate_modify, get_modified_price,
}

abbrev pub activate : Order → Order
activate o = record o { active = true }

abbrev pub is_full : Order → Bool
is_full o = o.executed_quantity == o.quantity

module _ ⦃D : SortedDict PriceLevel⦄ ⦃R : Redis⦄ where
  unfoldable pub place_child : ℕ → M (Unit {0})
  place_child child = do
    assign child activate
    log_order OrderEventType.order_placed child
    price ← price_of child
    book_append child price
    store_add child

  abbrev pub oto_trigger : Option ℕ → Bool → M (Unit {0})
  oto_trigger none full = pure tt
  oto_trigger (some child) full = when full (place_child child)

  -- A full parent places its child.
  unfoldable pub oto_filled : ℕ → M (Unit {0})
  unfolding place_child
  oto_filled r = do o ← deref r; oto_trigger o.child (is_full o)

  abbrev pub oto_cancel_parent : ℕ → ℕ → M (Unit {0})
  oto_cancel_parent r child = do
    log_order OrderEventType.order_cancelled r
    price ← price_of r
    book_remove r price
    store_remove r
    store_remove child
    release_escrow r

  abbrev pub oto_cancel_active : ℕ → M (Unit {0})
  oto_cancel_active r = do
    log_order OrderEventType.order_cancelled r
    price ← price_of r
    book_remove r price
    store_remove r
    release_escrow r

  -- Cancelling a child that waits cancels its parent too.
  abbrev pub oto_cancel_waiting : ℕ → M (Unit {0})
  oto_cancel_waiting r = do
    o ← deref r
    parent ← linked o.parent
    log_order_for o.user_id OrderEventType.order_cancelled parent
    price ← price_of parent
    book_remove parent price
    store_remove parent
    store_remove r
    release_escrow parent

  abbrev pub oto_cancel_by : Option ℕ → Bool → ℕ → M (Unit {0})
  oto_cancel_by (some child) active r = oto_cancel_parent r child
  oto_cancel_by none true r = oto_cancel_active r
  oto_cancel_by none false r = oto_cancel_waiting r

  unfoldable pub oto_cancel : ℕ → M (Unit {0})
  oto_cancel r = do o ← deref r; oto_cancel_by o.child o.active r

  -- A waiting child: the event carries `details` and no price.
  unfoldable pub oto_modify_waiting : ModifyCommand → ℕ → M (Unit {0})
  oto_modify_waiting cmd r = do
    valid ← validate_modify cmd r
    when valid (do
      price_of r
      log_bare OrderEventType.order_modified r none
      new_price ← get_modified_price cmd r
      assign r (Order.set_price new_price))

  unfoldable pub oto_modify : ModifyCommand → ℕ → M (Unit {0})
  unfolding oto_modify_waiting
  oto_modify cmd r = do
    o ← deref r
    if is_some o.parent && (if o.active then false else true)
        then oto_modify_waiting cmd r
        else modify_order cmd r
