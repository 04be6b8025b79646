-- ===== src/Snapshots/Levels.antt =====
-- `PriceLevel.to_dict` and then `PriceLevel.from_dict` (src/engine/orderbook/price_level.py).
use spectuel_backend.Prelude.{
  ℕ, zero, suc, ◌+◌, ◌≤◌, ◌≡◌, refl, ◌∙◌, true, Option, none, some, List, [], ◌∷◌, put, arith, ◌==◌,
  All, length, Bool-cases, inl, inr,
}
use spectuel_backend.Order.{Order}
use spectuel_backend.PriceLevel.{PriceLevel, empty_level}
use spectuel_backend.PriceLevel.Chain.{
  Cell, first, last_of, Linked, Apart, Unlike, Distinct, Below, find, Holds,
}
use spectuel_backend.PriceLevel.Remove.{find-Unlike}
use spectuel_backend.Snapshots.{
  save_order, load_order, World, load_node, fill_tracker, save_level, load_level,
}
use spectuel_backend.Snapshots.Loaded.{
  loaded, chain_dict, Copied, above, Loads, save_node-Linked, load_node-Loads,
}

-- An order of the class `Order` has no links.
pub record IsPlain (o : Order) : Type 0 where
  pub no_parent : o.parent ≡ none
  pub no_child : o.child ≡ none
  pub no_child_a : o.child_a ≡ none
  pub no_child_b : o.child_b ≡ none
  pub no_counterparty : o.counterparty ≡ none
  pub is_active : o.active ≡ true

-- An order that has no links and no fills comes back as it was.
load-save_order : (o : Order) → IsPlain o → load_order (save_order o) ≡ record o { fills = [] }
unfolding load_order save_order
load-save_order o p =
    rw (p.no_parent, p.no_child, p.no_child_a, p.no_child_b, p.no_counterparty, p.is_active) refl

-- The objects from `r` on are the cells' orders without their fills.
abbrev pub Restored : World → World → ℕ → List Cell → Type 0
Restored v w r [] = Unit
Restored v w r (x ∷ xs) =
    (w.objects r ≡ record (v.objects x.order) { fills = [] }) × Restored v w (suc r) xs

-- The cells' orders are plain and have the ids of the cells.
abbrev pub PlainCells : World → List Cell → Type 0
PlainCells v xs =
    All (λ (x : Cell). IsPlain (v.objects x.order) × ((v.objects x.order).id ≡ x.id)) xs

Restored-of_Copied :
    (v w : World) (r : ℕ) (xs : List Cell) → PlainCells v xs → Copied v w r xs → Restored v w r xs
Restored-of_Copied v w r [] p c = tt
Restored-of_Copied v w r (x ∷ xs) p c =
    (c.0 ∙ load-save_order (v.objects x.order) p.0.0, Restored-of_Copied v w (suc r) xs p.1 c.1)

Unlike-loaded : (i a r : ℕ) (xs : List Cell) → Unlike i xs → Unlike i (loaded a r xs)
Unlike-loaded i a r [] u = tt
Unlike-loaded i a r (x ∷ xs) u = (u.0, Unlike-loaded i (suc a) (suc r) xs u.1)

Apart-above : (a : ℕ) (ys : List Cell) → All (λ (y : Cell). suc a ≤ y.addr) ys → Apart a ys
Apart-above a [] d = tt
Apart-above a (y ∷ ys) d = (λ e. omega (arith, d.0, e), Apart-above a ys d.1)

Distinct-loaded : (a r : ℕ) (xs : List Cell) → Distinct xs → Distinct (loaded a r xs)
Distinct-loaded a r [] d = tt
Distinct-loaded a r (x ∷ xs) d = (
  Apart-above a (loaded (suc a) (suc r) xs) (above (suc a) (suc r) xs),
  Unlike-loaded x.id (suc a) (suc r) xs d.1,
  Distinct-loaded (suc a) (suc r) xs d.2,
)

Below-loaded : (n a r : ℕ) (xs : List Cell) → a + length xs ≤ n → Below n (loaded a r xs)
Below-loaded n a r [] le = tt
Below-loaded n a r (x ∷ xs) le =
    (omega (arith, le), Below-loaded n (suc a) (suc r) xs (omega (arith, le)))

length-loaded : (a r : ℕ) (xs : List Cell) → length (loaded a r xs) ≡ length xs
length-loaded a r [] = refl
length-loaded a r (x ∷ xs) = omega (arith, length-loaded (suc a) (suc r) xs)

-- The objects of the cells have their ids.
abbrev HaveIds : World → List Cell → Type 0
HaveIds w ys = All (λ (y : Cell). (w.objects y.order).id ≡ y.id) ys

HaveIds-loaded :
    (v w : World) (a r : ℕ) (xs : List Cell)
    → PlainCells v xs
    → Copied v w r xs
    → HaveIds w (loaded a r xs)
unfolding load_order save_order
HaveIds-loaded v w a r [] p c = tt
HaveIds-loaded v w a r (x ∷ xs) p c = (rw c.0 p.0.1, HaveIds-loaded v w (suc a) (suc r) xs p.1 c.1)

abbrev or_else : Option ℕ → Option ℕ → Option ℕ
or_else none o = o
or_else (some a) o = some a

-- What the loop over a chain leaves in a level.
record Fills (l l' : PriceLevel) (ys : List Cell) : Type 0 where
  head_same : l'.head ≡ l.head
  last : l'.tail ≡ last_of l.tail ys
  found : (j : ℕ) → l'.tracker j ≡ or_else (find j ys) (l.tracker j)

fill_tracker-Fills :
    (fuel : ℕ) (w : World) (p : Option ℕ) (ys : List Cell) (l : PriceLevel)
    → length ys ≤ fuel
    → Linked w.nodes p ys
    → Distinct ys
    → HaveIds w ys
    → Fills l (fill_tracker fuel (first ys) w l) ys
unfolding fill_tracker
fill_tracker-Fills zero w p [] l b s d h = record {
  head_same = refl;
  last = refl;
  found = λ j. refl;
}
fill_tracker-Fills zero w p (y ∷ ys) l b s d h = absurd (omega arith)
fill_tracker-Fills (suc fuel) w p [] l b s d h = record {
  head_same = refl;
  last = refl;
  found = λ j. refl;
}
fill_tracker-Fills (suc fuel) w p (y ∷ ys) l b s d h =
    let l1 : PriceLevel = record l { tail = some y.addr; tracker = put l.tracker y.id y.addr } in
    let rest = fill_tracker-Fills fuel w (some y.addr) ys l1 (omega arith) s.1 d.2 h.1 in
    rw (s.0, h.0)
      (record {
        head_same = rest.head_same;
        last = rest.last;
        found = λ j. rest.found j ∙ elim (Bool-cases (j == y.id)) [
          | inl hit ↦ let e : j ≡ y.id = ground arith in rw (hit, e, find-Unlike y.id ys d.1) refl
          | inr miss ↦ rw miss refl
        ];
      })

or_else-none : (o : Option ℕ) → or_else o none ≡ o
or_else-none none = refl
or_else-none (some a) = refl

-- The level that the loop leaves on a chain that has just been loaded.
filled-Holds :
    (fuel : ℕ) (v w w' : World) (q : Option ℕ) (xs : List Cell)
    → Loads v w w' q none xs
    → Distinct xs
    → PlainCells v xs
    → length xs ≤ fuel
    → Holds w'.nodes
        (fill_tracker fuel q w' (record empty_level { head = q }))
        (loaded w.nodes.fresh w.next_object xs)
filled-Holds fuel v w w' q xs s d p enough =
    let a = w.nodes.fresh in
    let r = w.next_object in
    let ys = loaded a r xs in
    let l0 : PriceLevel = record empty_level { head = q } in
    let f : Fills l0 (fill_tracker fuel q w' l0) ys = rw s.start (
      fill_tracker-Fills fuel w' none ys (record empty_level { head = first ys })
        (omega (arith, length-loaded a r xs)) s.linked (Distinct-loaded a r xs d)
        (HaveIds-loaded v w' a r xs p s.copied)) in
    record {
      at_head = f.head_same ∙ s.start;
      at_tail = f.last;
      linked = s.linked;
      distinct = Distinct-loaded a r xs d;
      below = Below-loaded w'.nodes.fresh a r xs (omega (arith, s.fresh));
      tracked = λ j. f.found j ∙ or_else-none (find j ys);
    }

from_chain :
    (fuel : ℕ) (v w : World) (xs : List Cell)
    → Distinct xs
    → PlainCells v xs
    → length xs ≤ fuel
    → let (l', w') = load_level fuel (chain_dict v xs) w in
      Holds w'.nodes l' (loaded w.nodes.fresh w.next_object xs) × Restored v w' w.next_object xs
unfolding load_level
from_chain fuel v w [] d p enough = (
  record {
    at_head = refl;
    at_tail = refl;
    linked = tt;
    distinct = tt;
    below = tt;
    tracked = λ j. refl;
  },
  tt,
)
from_chain fuel v w (x ∷ xs) d p enough =
    let (q, w') = load_node (chain_dict v (x ∷ xs)) none w in
    let s = load_node-Loads v w none (x ∷ xs) in
    (
      filled-Holds fuel v w w' q (x ∷ xs) s d p enough,
      Restored-of_Copied v w' w.next_object (x ∷ xs) p s.copied,
    )

-- If a level holds a list of cells, their orders are plain and have the cells' ids, and the fuel
-- is at least the length of the list, then the level that is saved and then loaded, in any world,
-- holds new cells for the same ids in the same order, linked both ways and tracked, and their
-- order objects are the saved ones without their fills.
pub load_level-Holds :
    (fuel : ℕ) (v w : World) (l : PriceLevel) (xs : List Cell)
    → Holds v.nodes l xs
    → PlainCells v xs
    → length xs ≤ fuel
    → let (l', w') = load_level fuel (save_level fuel l v) w in
      Holds w'.nodes l' (loaded w.nodes.fresh w.next_object xs) × Restored v w' w.next_object xs
unfolding save_level
load_level-Holds fuel v w l xs h p enough =
    let saved : save_level fuel l v ≡ chain_dict v xs =
      rw h.at_head (save_node-Linked fuel v none xs enough h.linked) in
    rw saved (from_chain fuel v w xs h.distinct p enough)
