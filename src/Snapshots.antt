-- ===== src/Snapshots.antt =====
-- `to_dict` and `from_dict` of a plain order, of a node and of a price level (src/engine/orders/order.py,
-- src/engine/orderbook/price_level_node.py and price_level.py).
pub mod Loaded
pub mod Levels
use spectuel_backend.Prelude.{
  ℕ, zero, suc, Bool, true, Option, none, some, List, [], ◌∷◌, write, put,
}
use spectuel_backend.Enums.{Side, OrderType, StrategyType, OrderStatus}
use spectuel_backend.Order.{Order, Ratio}
use spectuel_backend.PriceLevel.{Node, Nodes, PriceLevel, alloc, set_prev, set_next, empty_level}

-- The dict of an order of the class `Order`, with the key "order_dict". The key "type" is "Order".
pub record SavedOrder : Type 0 where
  pub order_id : ℕ
  pub user_id : ℕ
  pub strategy_type : StrategyType
  pub order_type : OrderType
  pub side : Side
  pub quantity : ℕ
  pub executed_quantity : ℕ
  pub limit_price : Option ℕ
  pub stop_price : Option ℕ
  pub price_entry : Option ℕ
  pub avg_fill_price : Option Ratio
  pub status : OrderStatus

-- `Order.to_dict`: the fills are no part of the dict.
unfoldable pub save_order : Order → SavedOrder
save_order o = record {
  order_id = o.id;
  user_id = o.user_id;
  strategy_type = o.strategy_type;
  order_type = o.order_type;
  side = o.side;
  quantity = o.quantity;
  executed_quantity = o.executed_quantity;
  limit_price = o.limit_price;
  stop_price = o.stop_price;
  price_entry = o.price_entry;
  avg_fill_price = o.avg_fill_price;
  status = o.status;
}

-- `Order.from_dict`
unfoldable pub load_order : SavedOrder → Order
load_order d = record {
  id = d.order_id;
  user_id = d.user_id;
  strategy_type = d.strategy_type;
  order_type = d.order_type;
  side = d.side;
  quantity = d.quantity;
  executed_quantity = d.executed_quantity;
  limit_price = d.limit_price;
  stop_price = d.stop_price;
  price_entry = d.price_entry;
  avg_fill_price = d.avg_fill_price;
  status = d.status;
  fills = [];
  parent = none;
  child = none;
  child_a = none;
  child_b = none;
  counterparty = none;
  active = true;
}

-- The dict of a node. Its "id" is the node's address, which nothing reads back.
pub data NodeDict : Type 0 where
  no_node : NodeDict
  node_dict : (id : ℕ) → SavedOrder → NodeDict → NodeDict

-- The nodes and the order objects.
pub record World : Type 0 where
  pub nodes : Nodes
  pub objects : ℕ → Order
  pub next_object : ℕ

-- `PriceLevelNode.to_dict`, with a unit of fuel for each node
unfoldable pub save_node : ℕ → Option ℕ → World → NodeDict
unfolding save_order
save_node zero cur w = NodeDict.no_node
save_node (suc fuel) none w = NodeDict.no_node
save_node (suc fuel) (some n) w =
    let node = w.nodes.node_at n in
    NodeDict.node_dict n (save_order (w.objects node.order)) (save_node fuel node.next w)

-- The order and the node that `PriceLevelNode.from_dict` makes before it goes on to the next.
unfoldable pub new_node : SavedOrder → Option ℕ → World → World
unfolding load_order alloc set_prev
new_node o prev w = record {
  nodes = set_prev w.nodes.fresh prev (alloc w.next_object w.nodes);
  objects = write w.objects w.next_object (load_order o);
  next_object = suc w.next_object;
}

-- `PriceLevelNode.from_dict`
unfoldable pub load_node : NodeDict → Option ℕ → World → Option ℕ × World
unfolding new_node set_next
load_node NodeDict.no_node prev w = (none, w)
load_node (NodeDict.node_dict id o next) prev w =
    let n = w.nodes.fresh in
    let (q, w') = load_node next (some n) (new_node o prev w) in
    (some n, record w' { nodes = set_next n q w'.nodes })

-- The `while` loop of `PriceLevel.from_dict`
unfoldable pub fill_tracker : ℕ → Option ℕ → World → PriceLevel → PriceLevel
fill_tracker zero cur w l = l
fill_tracker (suc fuel) none w l = l
fill_tracker (suc fuel) (some n) w l =
    let node = w.nodes.node_at n in
    fill_tracker fuel node.next w
      (record l { tail = some n; tracker = put l.tracker (w.objects node.order).id n })

-- `PriceLevel.to_dict`, the entry "head" of it
unfoldable pub save_level : ℕ → PriceLevel → World → NodeDict
unfolding save_node
save_level fuel l w = save_node fuel l.head w

-- `PriceLevel.from_dict`
unfoldable pub load_level : ℕ → NodeDict → World → PriceLevel × World
unfolding load_node fill_tracker
load_level fuel NodeDict.no_node w = (empty_level, w)
load_level fuel d w =
    let (h, w') = load_node d none w in
    (fill_tracker fuel h w' (record empty_level { head = h }), w')
