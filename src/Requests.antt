-- ===== src/Requests.antt =====
-- The requests of the web API for new orders (src/api/routers/orders/models.py) and their validation.
-- Quantities are whole hundredths, as `round(v, 2)` leaves them, and may be negative; prices are
-- whole ticks.
use spectuel_backend.Prelude.{
  ℕ, zero, suc, Bool, true, false, ◌&&◌, not, Option, none, some, List, [], ◌∷◌, ◌==◌, length,
}
use spectuel_backend.Prelude.Int.{ℤ, pos, negsuc}
use spectuel_backend.Enums.{Side, OrderType, is_bid}

-- `OrderBase`
pub record OrderBase : Type 0 where
  pub order_type : OrderType
  pub side : Side
  pub quantity : ℤ
  pub limit_price : Option ℕ
  pub stop_price : Option ℕ

-- The four models of a request, without their strategy type.
pub data Details : Type 0 where
  single_order : (symbol : ℕ) → OrderBase → Details
  oco_order : (symbol : ℕ) → (legs : List OrderBase) → Details
  oto_order : (symbol : ℕ) → (parent child : OrderBase) → Details
  otoco_order : (symbol : ℕ) → (parent : OrderBase) → (oco_legs : List OrderBase) → Details

abbrev pub is_market_type : OrderType → Bool
is_market_type OrderType.market = true
is_market_type _ = false

-- `bool(v)` of a quantity
abbrev pub is_nonzero : ℤ → Bool
is_nonzero (pos zero) = false
is_nonzero (pos (suc n)) = true
is_nonzero (negsuc n) = true

-- `Field(None, gt=0.0)`
abbrev pub is_valid_price : Option ℕ → Bool
is_valid_price none = true
is_valid_price (some zero) = false
is_valid_price (some (suc n)) = true

-- The validators of `OrderBase`. Its `Field(g=0)` checks nothing.
unfoldable pub is_valid_base : OrderBase → Bool
is_valid_base o =
    not (is_market_type o.order_type)
    && (is_nonzero o.quantity && (is_valid_price o.limit_price && is_valid_price o.stop_price))

abbrev pub all_valid : List OrderBase → Bool
all_valid [] = true
all_valid (o ∷ os) = is_valid_base o && all_valid os

abbrev pub same_quantity : ℤ → ℤ → Bool
same_quantity (pos m) (pos n) = m == n
same_quantity (negsuc m) (negsuc n) = m == n
same_quantity _ _ = false

abbrev pub same_direction : Side → Side → Bool
same_direction Side.bid s = is_bid s
same_direction Side.ask s = not (is_bid s)

-- The tests of a leg in `OTOCOOrderCreate.model_post_init`
abbrev pub fits_parent : OrderBase → OrderBase → Bool
fits_parent p o = same_quantity o.quantity p.quantity && not (same_direction o.side p.side)

abbrev pub all_fit : OrderBase → List OrderBase → Bool
all_fit p [] = true
all_fit p (o ∷ os) = fits_parent p o && all_fit p os

-- Whether the model accepts a request.
unfoldable pub is_valid : Details → Bool
unfolding is_valid_base
is_valid (Details.single_order symbol o) = is_valid_base o
is_valid (Details.oco_order symbol legs) = (length legs == 2) && all_valid legs
is_valid (Details.oto_order symbol p c) =
    is_valid_base p
    && (is_valid_base c
        && (same_quantity p.quantity c.quantity && not (same_direction p.side c.side)))
is_valid (Details.otoco_order symbol p legs) =
    is_valid_base p && ((length legs == 2) && (all_valid legs && all_fit p legs))
