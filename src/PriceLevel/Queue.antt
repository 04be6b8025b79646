-- ===== src/PriceLevel/Queue.antt =====
-- A level as a queue: the orders that a walk from its head meets (the loop of
-- `OrderBook.get_orders`, src/engine/orderbook/orderbook.py).
use spectuel_backend.Prelude.{
  ℕ, ◌+◌, ◌≤◌, ◌≡◌, refl, none, some, List, [], ◌∷◌, ◌++◌, map, arith, length, ap, sym, ◌∙◌,
}
use spectuel_backend.Errors.{ok}
use spectuel_backend.PriceLevel.{Nodes, PriceLevel, append, remove, walk}
use spectuel_backend.PriceLevel.Chain.{Cell, Holds, find, without, walk-Linked}
use spectuel_backend.PriceLevel.Append.{cell, append-Holds}
use spectuel_backend.PriceLevel.Remove.{remove-Holds}

abbrev pub orders : List Cell → List ℕ
orders xs = map (λ (x : Cell). x.order) xs

orders-snoc : (xs : List Cell) (x : Cell) → orders (xs ++ (x ∷ [])) ≡ orders xs ++ (x.order ∷ [])
orders-snoc [] x = refl
orders-snoc (y ∷ ys) x = ap (λ r. y.order ∷ r) (orders-snoc ys x)

length-snoc : (xs : List Cell) (x : Cell) → length (xs ++ (x ∷ [])) ≡ length xs + 1
length-snoc [] x = refl
length-snoc (y ∷ ys) x = omega (arith, length-snoc ys x)

length-without : (i : ℕ) (xs : List Cell) → length (without i xs) ≤ length xs
length-without i [] = omega arith
length-without i (x ∷ xs) = ground (arith, length-without i xs)

walk-Holds :
    (fuel : ℕ) (h : Nodes) (l : PriceLevel) (xs : List Cell)
    → Holds h l xs
    → length xs ≤ fuel
    → walk fuel l.head h ≡ orders xs
walk-Holds fuel h l xs v le = rw v.at_head (walk-Linked fuel h none xs le v.linked)

-- If a level and the heap hold a list of cells, the order's id is not in the list and the fuel is
-- more than the length of the list, then an append succeeds, and the walk from the head then
-- meets the orders that it met before, in the same order, and the appended one last.
pub append_last :
    (fuel o i : ℕ) (l : PriceLevel) (h : Nodes) (xs : List Cell)
    → Holds h l xs
    → find i xs ≡ none
    → length xs + 1 ≤ fuel
    → (l' : PriceLevel) × (h' : Nodes) × (append o i l h ≡ ok (l', h'))
      × (walk fuel l'.head h' ≡ walk fuel l.head h ++ (o ∷ []))
append_last fuel o i l h xs v new le =
    let (l', h', e, v') = append-Holds o i l h xs v new in
    let x : Cell = cell h.fresh o i in
    (
      l',
      h',
      e,
      walk-Holds fuel h' l' (xs ++ (x ∷ [])) v' (omega (arith, length-snoc xs x))
          ∙ orders-snoc xs x
          ∙ ap (λ r. r ++ (o ∷ [])) (sym (walk-Holds fuel h l xs v (omega arith))),
    )

-- If a level and the heap hold a list of cells, the order's id is in the list and the fuel is at
-- least the length of the list, then a removal succeeds, and the walk from the head then meets
-- the orders of the other cells in list order.
pub remove-walk :
    (fuel i a : ℕ) (l : PriceLevel) (h : Nodes) (xs : List Cell)
    → Holds h l xs
    → find i xs ≡ some a
    → length xs ≤ fuel
    → (l' : PriceLevel) × (h' : Nodes) × (remove i l h ≡ ok (l', h'))
      × (walk fuel l'.head h' ≡ orders (without i xs))
remove-walk fuel i a l h xs v e le =
    let (l', h', eq, v') = remove-Holds i a l h xs v e in
    (l', h', eq, walk-Holds fuel h' l' (without i xs) v' (omega (arith, length-without i xs)))
