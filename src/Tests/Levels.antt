-- ===== src/Tests/Levels.antt =====
-- A price level of two orders, and the theorems on levels at it.
use spectuel_backend.Prelude.{
  ◌≡◌, refl, none, some, List, [], ◌∷◌, ◌++◌, if◌then◌else◌, ◌==◌, arith,
}
use spectuel_backend.Errors.{ok}
use spectuel_backend.PriceLevel
use spectuel_backend.PriceLevel.{
  append_new, link_last, alloc, set_next, set_prev, unlink, Node, Nodes, PriceLevel, walk,
}
use spectuel_backend.PriceLevel.Chain.{Cell, Holds, find}
use spectuel_backend.PriceLevel.Append.{cell, append-Holds}
use spectuel_backend.PriceLevel.Remove.{remove-Holds}
use spectuel_backend.PriceLevel.Queue.{append_last, remove-walk}

-- A level with the orders 10 (id 1) and 11 (id 2) at the nodes 0 and 1.
abbrev pub cells : List Cell
cells = cell 0 10 1 ∷ cell 1 11 2 ∷ []

abbrev pub two_nodes : Nodes
two_nodes = record {
  node_at = λ n.
      if n == 0
      then record { order = 10; prev = none; next = some 1 }
      else record { order = 11; prev = some 0; next = none };
  fresh = 2;
}

abbrev pub two_orders : PriceLevel
two_orders = record { head = some 0; tail = some 1; tracker = λ i. find i cells }

pub two_orders-Holds : Holds two_nodes two_orders cells
two_orders-Holds = record {
  at_head = refl;
  at_tail = refl;
  linked = (refl, (refl, tt));
  distinct = (((λ e. omega arith), tt), ((λ e. omega arith), tt), (tt, tt, tt));
  below = (omega arith, (omega arith, tt));
  tracked = λ i. refl;
}

append-Holds_example :
    (l' : PriceLevel) × (h' : Nodes) × (PriceLevel.append 12 3 two_orders two_nodes ≡ ok (l', h'))
    × Holds h' l' (cells ++ (cell 2 12 3 ∷ []))
append-Holds_example = append-Holds 12 3 two_orders two_nodes cells two_orders-Holds refl

remove-Holds_example :
    (l' : PriceLevel) × (h' : Nodes) × (PriceLevel.remove 1 two_orders two_nodes ≡ ok (l', h'))
    × Holds h' l' (cell 1 11 2 ∷ [])
remove-Holds_example = remove-Holds 1 0 two_orders two_nodes cells two_orders-Holds refl

append_last_example :
    (l' : PriceLevel) × (h' : Nodes) × (PriceLevel.append 12 3 two_orders two_nodes ≡ ok (l', h'))
    × (walk 3 l'.head h' ≡ walk 3 (some 0) two_nodes ++ (12 ∷ []))
append_last_example =
    append_last 3 12 3 two_orders two_nodes cells two_orders-Holds refl (omega arith)

remove-walk_example :
    (l' : PriceLevel) × (h' : Nodes) × (PriceLevel.remove 1 two_orders two_nodes ≡ ok (l', h'))
    × (walk 2 l'.head h' ≡ 11 ∷ [])
remove-walk_example =
    remove-walk 2 1 0 two_orders two_nodes cells two_orders-Holds refl (omega arith)
