-- ===== src/Tests/Codecs.antt =====
-- A level of two plain orders, saved and loaded.
use spectuel_backend.Prelude.{ℕ, refl, none, some, [], ◌∷◌, if◌then◌else◌, ◌==◌, arith, true}
use spectuel_backend.Enums.{Side, OrderType, StrategyType, OrderStatus}
use spectuel_backend.Order.{Order}
use spectuel_backend.PriceLevel.Chain.{Holds}
use spectuel_backend.Snapshots.{World, save_level, load_level}
use spectuel_backend.Snapshots.Loaded.{loaded}
use spectuel_backend.Snapshots.Levels.{PlainCells, Restored, load_level-Holds}
use spectuel_backend.Tests.Levels.{two_nodes, cells, two_orders, two_orders-Holds}

-- The order with an id, with one fill.
abbrev plain : ℕ → Order
plain i = record {
  id = i;
  user_id = 7;
  strategy_type = StrategyType.single;
  order_type = OrderType.limit;
  side = Side.bid;
  quantity = 5;
  executed_quantity = 2;
  limit_price = some 100;
  stop_price = none;
  price_entry = none;
  avg_fill_price = none;
  status = OrderStatus.placed;
  fills = (2, 100) ∷ [];
  parent = none;
  child = none;
  child_a = none;
  child_b = none;
  counterparty = none;
  active = true;
}

abbrev old_world : World
old_world = record {
  nodes = two_nodes;
  objects = λ r. if r == 10 then plain 1 else plain 2;
  next_object = 20;
}

plain_cells : PlainCells old_world cells
plain_cells = (
  (
    record {
      no_parent = refl;
      no_child = refl;
      no_child_a = refl;
      no_child_b = refl;
      no_counterparty = refl;
      is_active = refl;
    },
    refl,
  ),
  (
    (
      record {
        no_parent = refl;
        no_child = refl;
        no_child_a = refl;
        no_child_b = refl;
        no_counterparty = refl;
        is_active = refl;
      },
      refl,
    ),
    tt,
  ),
)

load_level-Holds_example :
    let (l, w) = load_level 4 (save_level 4 two_orders old_world) old_world in
    Holds w.nodes l (loaded 2 20 cells) × Restored old_world w 20 cells
load_level-Holds_example =
    load_level-Holds 4 old_world old_world two_orders cells two_orders-Holds plain_cells
      (omega arith)
