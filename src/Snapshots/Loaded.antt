-- ===== src/Snapshots/Loaded.antt =====
-- The chain of nodes that `PriceLevelNode.from_dict` (src/engine/orderbook/price_level_node.py)
-- makes.
use spectuel_backend.Prelude.{
  ℕ, zero, suc, ◌+◌, ◌≤◌, ◌<◌, ◌≡◌, refl, ◌∙◌, Option, none, some, List, [], ◌∷◌, arith, All,
  length,
}
use spectuel_backend.PriceLevel.{Nodes, alloc, set_prev, set_next}
use spectuel_backend.PriceLevel.Chain.{Cell, first, Linked, Linked-frame}
use spectuel_backend.Snapshots.{
  SavedOrder, save_order, load_order, NodeDict, World, save_node, new_node, load_node,
}

-- The cells of a loaded chain: new nodes and new order objects, the ids as they were.
abbrev pub loaded : ℕ → ℕ → List Cell → List Cell
loaded a r [] = []
loaded a r (x ∷ xs) = record { addr = a; order = r; id = x.id } ∷ loaded (suc a) (suc r) xs

-- The dict of a chain.
abbrev pub chain_dict : World → List Cell → NodeDict
chain_dict v [] = NodeDict.no_node
chain_dict v (x ∷ xs) = NodeDict.node_dict x.addr (save_order (v.objects x.order)) (chain_dict v xs)

-- The objects from `r` on are what was saved of the cells' orders.
abbrev pub Copied : World → World → ℕ → List Cell → Type 0
Copied v w r [] = Unit
Copied v w r (x ∷ xs) =
    (w.objects r ≡ load_order (save_order (v.objects x.order))) × Copied v w (suc r) xs

pub save_node-Linked :
    (fuel : ℕ) (v : World) (p : Option ℕ) (xs : List Cell)
    → length xs ≤ fuel
    → Linked v.nodes p xs
    → save_node fuel (first xs) v ≡ chain_dict v xs
unfolding save_node
save_node-Linked zero v p [] b s = refl
save_node-Linked zero v p (x ∷ xs) b s = absurd (omega arith)
save_node-Linked (suc fuel) v p [] b s = refl
save_node-Linked (suc fuel) v p (x ∷ xs) b s =
    rw (s.0, save_node-Linked fuel v (some x.addr) xs (omega arith) s.1) refl

pub above : (a r : ℕ) (xs : List Cell) → All (λ (y : Cell). a ≤ y.addr) (loaded a r xs)
above a r [] = tt
above a r (x ∷ xs) =
    (omega arith, above_mono (loaded (suc a) (suc r) xs) (above (suc a) (suc r) xs))
  where
    above_mono :
        (ys : List Cell) → All (λ (y : Cell). suc a ≤ y.addr) ys → All (λ (y : Cell). a ≤ y.addr) ys
    above_mono [] d = tt
    above_mono (y ∷ ys) d = (omega (arith, d.0), above_mono ys d.1)

-- What loading a chain into a world leaves there.
pub record Loads (v w w' : World) (q prev : Option ℕ) (xs : List Cell) : Type 0 where
  pub start : q ≡ first (loaded w.nodes.fresh w.next_object xs)
  pub linked : Linked w'.nodes prev (loaded w.nodes.fresh w.next_object xs)
  pub fresh : w'.nodes.fresh ≡ w.nodes.fresh + length xs
  pub nodes_same : (b : ℕ) → b < w.nodes.fresh → w'.nodes.node_at b ≡ w.nodes.node_at b
  pub objects_same : (r : ℕ) → r < w.next_object → w'.objects r ≡ w.objects r
  pub copied : Copied v w' w.next_object xs

new_node-at :
    (o : SavedOrder) (prev : Option ℕ) (w : World)
    → (new_node o prev w).nodes.node_at w.nodes.fresh
      ≡ record { order = w.next_object; prev = prev; next = none }
unfolding new_node alloc set_prev
new_node-at o prev w = ground arith

new_node_same :
    (o : SavedOrder) (prev : Option ℕ) (w : World) (b : ℕ)
    → b < w.nodes.fresh
    → (new_node o prev w).nodes.node_at b ≡ w.nodes.node_at b
unfolding new_node alloc set_prev
new_node_same o prev w b lt = ground arith

-- A write of the `next` of a node that lies before a chain spares the chain.
spared :
    (n : ℕ) (q : Option ℕ) (h : Nodes) (ys : List Cell)
    → All (λ (y : Cell). suc n ≤ y.addr) ys
    → All (λ (y : Cell). (set_next n q h).node_at y.addr ≡ h.node_at y.addr) ys
unfolding set_next
spared n q h [] d = tt
spared n q h (y ∷ ys) d = (ground (arith, d.0), spared n q h ys d.1)

Copied-step :
    (v w : World) (h : Nodes) (r : ℕ) (xs : List Cell)
    → Copied v w r xs
    → Copied v (record w { nodes = h }) r xs
Copied-step v w h r [] c = tt
Copied-step v w h r (x ∷ xs) c = (c.0, Copied-step v w h (suc r) xs c.1)

-- One node in front of a chain that has been loaded behind it.
Loads-cons :
    (v w w2 : World) (q prev : Option ℕ) (x : Cell) (xs : List Cell)
    → Loads v (new_node (save_order (v.objects x.order)) prev w) w2 q (some w.nodes.fresh) xs
    → Loads v w
        (record w2 { nodes = set_next w.nodes.fresh q w2.nodes })
        (some w.nodes.fresh)
        prev
        (x ∷ xs)
unfolding new_node alloc set_prev set_next
Loads-cons v w w2 q prev x xs s =
    let o = save_order (v.objects x.order) in
    let n = w.nodes.fresh in
    let r = w.next_object in
    let ys = loaded (suc n) (suc r) xs in
    let here : w2.nodes.node_at n ≡ record { order = r; prev = prev; next = none } =
      s.nodes_same n (omega arith) ∙ new_node-at o prev w in
    record {
      start = refl;
      linked = (
        ground (arith, here, s.start),
        Linked-frame w2.nodes (set_next n q w2.nodes) (some n) ys s.linked
            (spared n q w2.nodes ys (above (suc n) (suc r) xs)),
      );
      fresh = omega (arith, s.fresh);
      nodes_same =
          λ b lt. ground (arith, s.nodes_same b (omega arith), new_node_same o prev w b lt);
      objects_same = λ k lt. s.objects_same k (omega arith) ∙ ground arith;
      copied = (
        s.objects_same r (omega arith) ∙ ground arith,
        Copied-step v w2 (set_next n q w2.nodes) (suc r) xs s.copied,
      );
    }

pub load_node-Loads :
    (v w : World) (prev : Option ℕ) (xs : List Cell)
    → Loads v w
        (load_node (chain_dict v xs) prev w).1
        (load_node (chain_dict v xs) prev w).0
        prev
        xs
unfolding load_node
load_node-Loads v w prev [] = record {
  start = refl;
  linked = tt;
  fresh = omega arith;
  nodes_same = λ b lt. refl;
  objects_same = λ r lt. refl;
  copied = tt;
}
load_node-Loads v w prev (x ∷ xs) =
    let n = w.nodes.fresh in
    let w1 = new_node (save_order (v.objects x.order)) prev w in
    let (q, w2) = load_node (chain_dict v xs) (some n) w1 in
    Loads-cons v w w2 q prev x xs (load_node-Loads v w1 (some n) xs)
