-- ===== src/OrderService.antt =====
-- The orders' service of the web API (src/api/routers/orders/service/service.py): the orders of a
-- request become rows of the table of orders, and a command carries them to the engine. `uuid4`
-- draws from a counter. Kafka and the response are left out: a command counts as sent once its
-- constructor accepts its fields.
pub mod Mirrored
use spectuel_backend.Prelude.{
  ℕ, zero, suc, Bool, true, false, ◌&&◌, ◌||◌, not, Option, none, some, List, [], ◌∷◌,
  if◌then◌else◌, ◌==◌, leb, ◌+◌, length, map,
}
use spectuel_backend.Prelude.Int.{ℤ, pos, negsuc}
use spectuel_backend.Errors.{Run, done, raised, attribute_error, validation_error}
use spectuel_backend.Enums.{Side, OrderType, StrategyType, OrderStatus, is_bid}
use spectuel_backend.Requests.{OrderBase, Details}

-- A row of `Orders`, as it is added.
pub record NewRow : Type 0 where
  pub order_id : ℕ
  pub user_id : ℕ
  pub order_group_id : Option ℕ
  pub parent_order_id : Option ℕ
  pub symbol : ℕ
  pub side : Side
  pub order_type : OrderType
  pub quantity : ℤ
  pub limit_price : Option ℕ
  pub stop_price : Option ℕ
  pub status : OrderStatus
  pub strategy_type : StrategyType

-- The dict of an order in a command, without `created_at`, which only `_create_single` adds.
pub record CommandDict : Type 0 where
  pub order_id : ℕ
  pub user_id : ℕ
  pub symbol : ℕ
  pub side : Side
  pub order_type : OrderType
  pub quantity : ℤ
  pub limit_price : Option ℕ
  pub stop_price : Option ℕ
  pub status : OrderStatus
  pub strategy_type : StrategyType
  pub executed_quantity : ℕ
  pub avg_fill_price : Option ℕ

-- The command of each strategy.
pub data NewOrderCommand : Type 0 where
  new_single_order : CommandDict → NewOrderCommand
  new_oco_order : (legs : List CommandDict) → NewOrderCommand
  new_oto_order : (parent child : CommandDict) → NewOrderCommand
  new_otoco_order : (parent : CommandDict) → (oco_legs : List CommandDict) → NewOrderCommand

-- What a call of `create` leaves: the rows that it committed and the next id.
pub record Session : Type 0 where
  pub rows : List NewRow
  pub next_id : ℕ

-- `put_command`, after the commit, of a command whose constructor validates its fields.
abbrev pub sent_if : Bool → NewOrderCommand → Session → Run Session NewOrderCommand
sent_if true command s = done command s
sent_if false command s = raised validation_error s

-- `_build_db_order`
unfoldable pub build_db_order : ℕ → ℕ → OrderBase → ℕ → StrategyType → NewRow
build_db_order symbol user_id o order_id strategy_type = record {
  order_id = order_id;
  user_id = user_id;
  order_group_id = none;
  parent_order_id = none;
  symbol = symbol;
  side = o.side;
  order_type = o.order_type;
  quantity = o.quantity;
  limit_price = o.limit_price;
  stop_price = o.stop_price;
  status = OrderStatus.pending;
  strategy_type = strategy_type;
}

-- `_to_order_dict`
unfoldable pub to_order_dict : ℕ → ℕ → OrderBase → ℕ → StrategyType → CommandDict
to_order_dict order_id user_id o symbol strategy_type = record {
  order_id = order_id;
  user_id = user_id;
  symbol = symbol;
  side = o.side;
  order_type = o.order_type;
  quantity = o.quantity;
  limit_price = o.limit_price;
  stop_price = o.stop_price;
  status = OrderStatus.pending;
  strategy_type = strategy_type;
  executed_quantity = 0;
  avg_fill_price = none;
}

-- The assignments of `order_group_id` and `parent_order_id`
abbrev pub in_group : Option ℕ → Option ℕ → NewRow → NewRow
in_group group parent r = record r { order_group_id = group; parent_order_id = parent }

-- `_create_single`
unfoldable pub create_single : ℕ → ℕ → OrderBase → ℕ → Run Session NewOrderCommand
unfolding build_db_order to_order_dict
create_single user symbol o n =
    done (NewOrderCommand.new_single_order (to_order_dict n user o symbol StrategyType.single))
      (record { rows = build_db_order symbol user o n StrategyType.single ∷ []; next_id = suc n })

-- The loop over legs: their rows, their dicts and the next id
unfoldable pub create_legs :
    ℕ
    → ℕ
    → Option ℕ
    → Option ℕ
    → StrategyType
    → List OrderBase
    → ℕ
    → List NewRow × List CommandDict × ℕ
unfolding build_db_order to_order_dict
create_legs user symbol group parent t [] n = ([], [], n)
create_legs user symbol group parent t (o ∷ os) n =
    let (rows, dicts, n') = create_legs user symbol group parent t os (suc n) in
    (
      in_group group parent (build_db_order symbol user o n t) ∷ rows,
      to_order_dict n user o symbol t ∷ dicts,
      n',
    )

-- `_create_oco`: `NewOCOOrderCommand` takes at most two legs.
unfoldable pub create_oco : ℕ → ℕ → List OrderBase → ℕ → Run Session NewOrderCommand
unfolding create_legs
create_oco user symbol legs n =
    let (rows, dicts, n') = create_legs user symbol (some n) none StrategyType.oco legs (suc n) in
    sent_if (leb (length dicts) 2) (NewOrderCommand.new_oco_order dicts)
      (record { rows = rows; next_id = n' })

-- `_create_oto`
unfoldable pub create_oto : ℕ → ℕ → OrderBase → OrderBase → ℕ → Run Session NewOrderCommand
unfolding build_db_order to_order_dict
create_oto user symbol p c n =
    let t = StrategyType.oto in
    let parent = to_order_dict (suc n) user p symbol t in
    let child = to_order_dict (suc (suc n)) user c symbol t in
    done (NewOrderCommand.new_oto_order parent child) (record {
      rows =
          in_group (some n) none (build_db_order symbol user p (suc n) t)
          ∷ in_group (some n) (some (suc n)) (build_db_order symbol user c (suc (suc n)) t)
          ∷ [];
      next_id = suc (suc (suc n));
    })

-- `_create_otoco`: `NewOTOCOOrderCommand` takes two legs.
unfoldable pub create_otoco : ℕ → ℕ → OrderBase → List OrderBase → ℕ → Run Session NewOrderCommand
unfolding build_db_order to_order_dict create_legs
create_otoco user symbol p legs n =
    let t = StrategyType.otoco in
    let (rows, dicts, n') = create_legs user symbol (some n) (some (suc n)) t legs (suc (suc n)) in
    sent_if (length dicts == 2)
      (NewOrderCommand.new_otoco_order (to_order_dict (suc n) user p symbol t) dicts)
      (record {
        rows = in_group (some n) none (build_db_order symbol user p (suc n) t) ∷ rows;
        next_id = n';
      })

-- An attribute is missing before anything is committed, after so many ids have been drawn.
abbrev pub missing_after : ℕ → ℕ → Run Session NewOrderCommand
missing_after drawn n = raised attribute_error (record { rows = []; next_id = drawn + n })

-- `create`: the strategy type is a field of its own, and a handler that meets another model misses
-- an attribute.
unfoldable pub create : StrategyType → Details → ℕ → ℕ → Run Session NewOrderCommand
unfolding create_single create_oco create_oto create_otoco
create StrategyType.single (Details.single_order symbol o) user n = create_single user symbol o n
create StrategyType.oco (Details.oco_order symbol legs) user n = create_oco user symbol legs n
create StrategyType.oto (Details.oto_order symbol p c) user n = create_oto user symbol p c n
create StrategyType.otoco (Details.otoco_order symbol p legs) user n =
    create_otoco user symbol p legs n
create StrategyType.oto (Details.otoco_order symbol p legs) user n = missing_after 3 n
create StrategyType.oto _ user n = missing_after 2 n
create StrategyType.otoco _ user n = missing_after 2 n
create _ _ user n = missing_after 1 n
