-- ===== src/Order.antt =====
-- `Order` and its subclasses (src/engine/orders): the dict that every attribute goes through, the
-- fills, and the links of OCO, OTO and OTOCO orders. Quantities are whole hundredths of a unit
-- and prices whole ticks. A link is a reference to another order object.
pub mod Fills
use spectuel_backend.Prelude.{
  ℕ, ◌+◌, ◌*◌, Bool, true, false, ◌||◌, Option, none, some, List, [], ◌∷◌, ◌++◌, ltb, if◌then◌else◌,
  is_some,
}
use spectuel_backend.Errors.{Result, ok, err, not_implemented}
use spectuel_backend.Enums.{Side, OrderType, StrategyType, OrderStatus}

-- The dict of an order as a command carries it.
pub record OrderDict : Type 0 where
  pub order_id : ℕ
  pub user_id : ℕ
  pub strategy_type : StrategyType
  pub order_type : OrderType
  pub side : Side
  pub quantity : ℕ
  pub executed_quantity : Option ℕ
  pub limit_price : Option ℕ
  pub stop_price : Option ℕ

-- A quotient of two sums, kept exact.
pub record Ratio : Type 0 where
  pub num : ℕ
  pub den : ℕ

-- An order object: `_order_dict`, `_fills` and what the subclasses add to the dict.
-- `price_entry` is the key "price" of the dict.
pub record Order : Type 0 where
  pub id : ℕ
  pub user_id : ℕ
  pub strategy_type : StrategyType
  pub order_type : OrderType
  pub side : Side
  pub quantity : ℕ
  pub executed_quantity : ℕ
  pub limit_price : Option ℕ
  pub stop_price : Option ℕ
  pub price_entry : Option ℕ
  pub avg_fill_price : Option Ratio
  pub status : OrderStatus
  pub fills : List (ℕ × ℕ)
  pub parent : Option ℕ
  pub child : Option ℕ
  pub child_a : Option ℕ
  pub child_b : Option ℕ
  pub counterparty : Option ℕ
  pub active : Bool

abbrev pub quantity_or_zero : Option ℕ → ℕ
quantity_or_zero none = 0
quantity_or_zero (some q) = q

abbrev pub is_none {ℓ} : {A : Type ℓ} → Option A → Bool
is_none none = true
is_none (some a) = false

-- `Order(order_dict)`, and `OTOOrder(order_dict, parent)`, which is active if it has no parent
unfoldable pub new_order : OrderDict → Option ℕ → Order
new_order d parent = record {
  id = d.order_id;
  user_id = d.user_id;
  strategy_type = d.strategy_type;
  order_type = d.order_type;
  side = d.side;
  quantity = d.quantity;
  executed_quantity = quantity_or_zero d.executed_quantity;
  limit_price = d.limit_price;
  stop_price = d.stop_price;
  price_entry = none;
  avg_fill_price = none;
  status = OrderStatus.pending;
  fills = [];
  parent = parent;
  child = none;
  child_a = none;
  child_b = none;
  counterparty = none;
  active = is_none parent;
}

abbrev pub price_for : OrderType → Order → Result (Option ℕ)
price_for OrderType.limit o = ok o.limit_price
price_for OrderType.stop o = ok o.stop_price
price_for OrderType.market o = err not_implemented

-- The property `Order.price`
unfoldable pub price : Order → Result (Option ℕ)
price o = price_for o.order_type o

-- `order.price = v`: `__setattr__` writes the dict's key "price", which the property does not read.
unfoldable pub set_price : Option ℕ → Order → Order
set_price v o = record o { price_entry = v }

abbrev pub total_value : List (ℕ × ℕ) → ℕ
total_value [] = 0
total_value ((q, p) ∷ fs) = q * p + total_value fs

abbrev pub total_quantity : List (ℕ × ℕ) → ℕ
total_quantity [] = 0
total_quantity ((q, p) ∷ fs) = q + total_quantity fs

-- `_calculate_avg_fill_price`
unfoldable pub calculate_avg_fill_price : Order → Order
calculate_avg_fill_price o = record o {
  avg_fill_price =
      if ltb 0 (total_quantity o.fills)
      then some (record { num = total_value o.fills; den = total_quantity o.fills })
      else none;
}

-- `Order.add_fill`
unfoldable pub add_fill : ℕ → ℕ → Order → Order
unfolding calculate_avg_fill_price
add_fill q p o =
    calculate_avg_fill_price
      (record o { fills = o.fills ++ ((q, p) ∷ []); executed_quantity = o.executed_quantity + q })

-- The dict holds another order object, which `json.dumps` cannot write.
unfoldable pub holds_order : Order → Bool
holds_order o =
    is_some o.parent
    || (is_some o.child || (is_some o.child_a || (is_some o.child_b || is_some o.counterparty)))
