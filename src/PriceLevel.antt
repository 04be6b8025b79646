-- ===== src/PriceLevel.antt =====
-- `PriceLevel` and `PriceLevelNode` (src/engine/orderbook/price_level.py, price_level_node.py):
-- a doubly linked list of nodes on a heap, with a tracker from order ids to nodes.
-- A node's address stands for the Python object; an order is known by its reference.
pub mod Chain
pub mod Append
pub mod Unlink
pub mod Remove
pub mod Queue
pub mod Frame
use spectuel_backend.Prelude.{
  ℕ, suc, zero, Bool, true, false, Option, none, some, List, [], ◌∷◌, if◌then◌else◌, is_ref,
  is_some, put, drop_key, write, empty_map,
}
use spectuel_backend.Errors.{Result, ok, err, key_error, value_error, attribute_error}

pub record Node : Type 0 where
  pub order : ℕ
  pub prev : Option ℕ
  pub next : Option ℕ

-- The nodes that exist; `fresh` is the address of the next one.
pub record Nodes : Type 0 where
  pub node_at : ℕ → Node
  pub fresh : ℕ

pub record PriceLevel : Type 0 where
  pub head : Option ℕ
  pub tail : Option ℕ
  pub tracker : ℕ → Option ℕ

-- `PriceLevel()`
abbrev pub empty_level : PriceLevel
empty_level = record { head = none; tail = none; tracker = empty_map }

-- `node.next = v`
unfoldable pub set_next : ℕ → Option ℕ → Nodes → Nodes
set_next n v h = record h {
  node_at =
      write h.node_at n
        (record { order = (h.node_at n).order; prev = (h.node_at n).prev; next = v });
}

-- `node.prev = v`
unfoldable pub set_prev : ℕ → Option ℕ → Nodes → Nodes
set_prev n v h = record h {
  node_at =
      write h.node_at n
        (record { order = (h.node_at n).order; prev = v; next = (h.node_at n).next });
}

-- `PriceLevelNode(order)`, at the address `h.fresh`
unfoldable pub alloc : ℕ → Nodes → Nodes
alloc order h = record {
  node_at = write h.node_at h.fresh (record { order = order; prev = none; next = none });
  fresh = suc h.fresh;
}

-- `if ref is not None: write through it`
abbrev pub through : Option ℕ → (ℕ → Nodes → Nodes) → Nodes → Nodes
through none f h = h
through (some n) f h = f n h

-- The branch of `append` on an occupied level; Python raises if there is no tail.
unfoldable pub link_last : Option ℕ → ℕ → ℕ → PriceLevel → Nodes → Result (PriceLevel × Nodes)
link_last none n id l h = err attribute_error
link_last (some t) n id l h = ok (
  record { head = l.head; tail = some n; tracker = put l.tracker id n },
  set_prev n (some t) (set_next t (some n) h),
)

unfoldable pub append_new : ℕ → ℕ → PriceLevel → Nodes → Result (PriceLevel × Nodes)
unfolding link_last
append_new n id l h = elim l.head [
  | none ↦ ok (record { head = some n; tail = some n; tracker = put l.tracker id n }, h)
  | some _ ↦ link_last l.tail n id l h
]

-- `PriceLevel.append`, for the order object `order` with order id `id`
unfoldable pub append : ℕ → ℕ → PriceLevel → Nodes → Result (PriceLevel × Nodes)
unfolding alloc append_new
append order id l h =
    if is_some (l.tracker id) then err value_error else append_new h.fresh id l (alloc order h)

-- The writes of `remove` around the node `n`.
unfoldable pub unlink : ℕ → Nodes → Nodes
unfolding set_next set_prev
unlink n h =
    let h1 = through (h.node_at n).prev (λ p. set_next p (h.node_at n).next) h in
    through (h1.node_at n).next (λ q. set_prev q (h1.node_at n).prev) h1

-- `PriceLevel.remove`
unfoldable pub remove : ℕ → PriceLevel → Nodes → Result (PriceLevel × Nodes)
unfolding unlink
remove id l h = elim (l.tracker id) [
  | none ↦ err key_error
  | some n ↦
      let h' = unlink n h in
      ok (
        record {
          head = if is_ref l.head n then (h'.node_at n).next else l.head;
          tail = if is_ref l.tail n then (h'.node_at n).prev else l.tail;
          tracker = drop_key l.tracker id;
        },
        h',
      )
]

-- `PriceLevel.__bool__`
abbrev pub is_occupied : PriceLevel → Bool
is_occupied l = is_some l.head

-- A walk along the `next` links from `cur`, as `get_orders` makes it: the orders in turn.
unfoldable pub walk : ℕ → Option ℕ → Nodes → List ℕ
walk zero cur h = []
walk (suc fuel) none h = []
walk (suc fuel) (some n) h = (h.node_at n).order ∷ walk fuel (h.node_at n).next h
