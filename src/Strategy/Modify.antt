-- ===== src/Strategy/Modify.antt =====
-- `ModifyOrderMixin` (src/engine/strategies/mixins/modify_order_mixin.py).
use spectuel_backend.Prelude.{ℕ, Bool, true, false, Option, none, ◌&&◌, is_some, if◌then◌else◌}
use spectuel_backend.Enums.{OrderEventType, is_limit, is_stop}
use spectuel_backend.PriceLevel.{PriceLevel}
use spectuel_backend.Sorted.{SortedDict}
use spectuel_backend.Redis.{Redis}
use spectuel_backend.Order
use spectuel_backend.Order.{Order}
use spectuel_backend.State.{
  M, deref, assign, gets, pure, of_result, price_of, book_append, book_remove, when, ◌>>=◌, ◌>>◌,
}
use spectuel_backend.Crossing.{limit_crossable, stop_crossable}
use spectuel_backend.Strategy.Base.{log_bare}

-- The prices of a `ModifyOrderCommand`.
pub record ModifyCommand : Type 0 where
  pub limit_price : Option ℕ
  pub stop_price : Option ℕ

-- The command's price for a limit order, and for a stop order.
abbrev pub new_limit : ModifyCommand → Order → Bool
new_limit cmd o = is_some cmd.limit_price && is_limit o.order_type

abbrev pub new_stop : ModifyCommand → Order → Bool
new_stop cmd o = is_some cmd.stop_price && is_stop o.order_type

module _ ⦃D : SortedDict PriceLevel⦄ ⦃R : Redis⦄ where
  -- `_get_modified_price`
  unfoldable pub get_modified_price : ModifyCommand → ℕ → M (Option ℕ)
  get_modified_price cmd r = do
    o ← deref r
    old ← price_of r
    pure (
        if new_stop cmd o then cmd.stop_price else if new_limit cmd o then cmd.limit_price else old)

  -- A failed check: the rejection is logged, and the result is `False`.
  abbrev pub reject_if : Bool → ℕ → M Bool
  reject_if true r = do log_bare OrderEventType.order_modify_rejected r none; pure false
  reject_if false r = pure true

  abbrev pub check_limit : ModifyCommand → ℕ → M Bool
  check_limit cmd r = do
    o ← deref r
    book ← gets (λ s. s.market.book)
    if new_limit cmd o
        then (of_result (limit_crossable cmd.limit_price o.side book) >>= λ crosses.
            reject_if crosses r)
        else pure true

  abbrev pub check_stop : ModifyCommand → ℕ → M Bool
  check_stop cmd r = do
    o ← deref r
    book ← gets (λ s. s.market.book)
    if new_stop cmd o
        then (of_result (stop_crossable cmd.stop_price o.side book) >>= λ crosses.
            reject_if crosses r)
        else pure true

  -- `_validate_modify`
  unfoldable pub validate_modify : ModifyCommand → ℕ → M Bool
  validate_modify cmd r = do
    passed ← check_limit cmd r
    if passed then check_stop cmd r else pure false

  -- The part of `_modify_order` after the checks.
  unfoldable pub apply_modify : ModifyCommand → ℕ → M (Unit {0})
  unfolding get_modified_price
  apply_modify cmd r = do
    new_price ← get_modified_price cmd r
    log_bare OrderEventType.order_modified r new_price
    old ← price_of r
    book_remove r old
    assign r (Order.set_price new_price)
    now ← price_of r
    book_append r now

  -- `_modify_order`
  unfoldable pub modify_order : ModifyCommand → ℕ → M (Unit {0})
  unfolding validate_modify apply_modify
  modify_order cmd r = do valid ← validate_modify cmd r; when valid (apply_modify cmd r)
