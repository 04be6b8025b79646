-- ===== src/Strategy/Otoco.antt =====
-- `OTOCOStrategy` (src/engine/strategies/otoco_strategy.py), but for `handle_new`.
use spectuel_backend.Prelude.{ℕ, Bool, true, false, Option, none, some, if◌then◌else◌}
use spectuel_backend.Enums.{OrderEventType}
use spectuel_backend.PriceLevel.{PriceLevel}
use spectuel_backend.Sorted.{SortedDict}
use spectuel_backend.Redis.{Redis}
use spectuel_backend.Order
use spectuel_backend.Order.{Order}
use spectuel_backend.State.{
  M, pure, deref, assign, linked, price_of, book_append, book_remove, store_remove, when, ◌>>=◌,
  ◌>>◌,
}
use spectuel_backend.Strategy.Base.{log_order, log_bare, release_escrow}
use spectuel_backend.Strategy.Modify.{
  ModifyCommand, modify_order, validate_modify, get_modified_price,
}
use spectuel_backend.Strategy.Oco.{oco_cancel}
use spectuel_backend.Strategy.Oto.{activate, is_full}

abbrev pub deactivate : Order → Order
deactivate o = record o { active = false }

module _ ⦃D : SortedDict PriceLevel⦄ ⦃R : Redis⦄ where
  -- The body of the loop over the two children. The price is read for the event first.
  unfoldable pub place_leg : ℕ → M (Unit {0})
  place_leg leg = do
    price_of leg
    log_bare OrderEventType.order_placed leg none
    assign leg activate
    price ← price_of leg
    book_append leg price

  unfoldable pub trigger_legs : ℕ → ℕ → M (Unit {0})
  unfolding place_leg
  trigger_legs r a = do
    assign r deactivate
    o ← deref r
    place_leg a
    b ← linked o.child_b
    place_leg b

  abbrev pub cancel_peer : Option ℕ → M (Unit {0})
  cancel_peer none = pure tt
  cancel_peer (some other) = oco_cancel other

  abbrev pub otoco_filled_by : Option ℕ → Bool → ℕ → M (Unit {0})
  otoco_filled_by (some a) true r = trigger_legs r a
  otoco_filled_by _ _ r = do o ← deref r; cancel_peer o.counterparty

  unfoldable pub otoco_filled : ℕ → M (Unit {0})
  unfolding trigger_legs
  otoco_filled r = do o ← deref r; otoco_filled_by o.child_a (is_full o) r

  abbrev pub otoco_cancel_parent : ℕ → ℕ → M (Unit {0})
  otoco_cancel_parent r a = do
    log_order OrderEventType.order_cancelled r
    price ← price_of r
    book_remove r price
    store_remove r
    store_remove a
    o ← deref r
    b ← linked o.child_b
    store_remove b
    release_escrow r

  abbrev pub otoco_cancel_active : ℕ → Option ℕ → M (Unit {0})
  otoco_cancel_active r counterparty = do
    log_order OrderEventType.order_cancelled r
    other ← linked counterparty
    log_order OrderEventType.order_cancelled other
    price ← price_of r
    book_remove r price
    other_price ← price_of other
    book_remove other other_price
    release_escrow r

  abbrev pub otoco_cancel_waiting : ℕ → M (Unit {0})
  otoco_cancel_waiting r = do
    o ← deref r
    log_bare OrderEventType.order_cancelled r none
    parent ← linked o.parent
    price ← price_of parent
    book_remove parent price
    store_remove parent
    release_escrow parent

  abbrev pub otoco_cancel_child : Bool → ℕ → M (Unit {0})
  otoco_cancel_child active r = do
    o ← deref r
    if active then otoco_cancel_active r o.counterparty else otoco_cancel_waiting r
    store_remove r
    other ← linked o.counterparty
    store_remove other

  abbrev pub otoco_cancel_by : Option ℕ → Bool → ℕ → M (Unit {0})
  otoco_cancel_by (some a) active r = otoco_cancel_parent r a
  otoco_cancel_by none active r = otoco_cancel_child active r

  unfoldable pub otoco_cancel : ℕ → M (Unit {0})
  otoco_cancel r = do o ← deref r; otoco_cancel_by o.child_a o.active r

  unfoldable pub otoco_modify_waiting : ModifyCommand → ℕ → M (Unit {0})
  otoco_modify_waiting cmd r = do
    valid ← validate_modify cmd r
    when valid (do
      new_price ← get_modified_price cmd r
      log_bare OrderEventType.order_modified r new_price
      assign r (Order.set_price new_price))

  unfoldable pub otoco_modify : ModifyCommand → ℕ → M (Unit {0})
  unfolding otoco_modify_waiting
  otoco_modify cmd r = do
    o ← deref r
    if o.active then modify_order cmd r else otoco_modify_waiting cmd r
