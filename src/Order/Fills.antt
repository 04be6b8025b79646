-- ===== src/Order/Fills.antt =====
-- What the fills of an order add up to.
use spectuel_backend.Prelude.{ℕ, ◌+◌, ◌*◌, ◌<◌, ◌≡◌, refl, some, List, [], ◌∷◌, ◌++◌, arith, ◌∙◌}
use mathlib.Core.List.{append-nil, append_assoc}
use spectuel_backend.Order.{Order, total_value, total_quantity, calculate_avg_fill_price, add_fill}

total_value-snoc :
    (fs : List (ℕ × ℕ)) (q p : ℕ) → total_value (fs ++ ((q, p) ∷ [])) ≡ total_value fs + q * p
total_value-snoc [] q p = omega arith
total_value-snoc (f ∷ fs) q p = omega (arith, total_value-snoc fs q p)

total_quantity-snoc :
    (fs : List (ℕ × ℕ)) (q p : ℕ) → total_quantity (fs ++ ((q, p) ∷ [])) ≡ total_quantity fs + q
total_quantity-snoc [] q p = omega arith
total_quantity-snoc (f ∷ fs) q p = omega (arith, total_quantity-snoc fs q p)

-- Fill after fill.
abbrev pub add_fills : List (ℕ × ℕ) → Order → Order
add_fills [] o = o
add_fills ((q, p) ∷ fs) o = add_fills fs (add_fill q p o)

-- The fills are recorded exactly, and the executed quantity is their sum.
pub record IsFilled (o : Order) : Type 0 where
  pub executed : o.executed_quantity ≡ total_quantity o.fills
  pub average :
      0 < total_quantity o.fills
      → o.avg_fill_price ≡ some (record { num = total_value o.fills; den = total_quantity o.fills })

pub add_fill-IsFilled : (q p : ℕ) (o : Order) → IsFilled o → IsFilled (add_fill q p o)
unfolding add_fill calculate_avg_fill_price
add_fill-IsFilled q p o v = record {
  executed = omega (arith, total_quantity-snoc o.fills q p);
  average = λ h. ground arith;
}

pub add_fills-IsFilled : (fs : List (ℕ × ℕ)) (o : Order) → IsFilled o → IsFilled (add_fills fs o)
add_fills-IsFilled [] o v = v
add_fills-IsFilled ((q, p) ∷ fs) o v =
    add_fills-IsFilled fs (add_fill q p o) (add_fill-IsFilled q p o v)

fills-add_fills : (fs : List (ℕ × ℕ)) (o : Order) → (add_fills fs o).fills ≡ o.fills ++ fs
unfolding add_fill calculate_avg_fill_price
fills-add_fills [] o = rw append-nil
fills-add_fills ((q, p) ∷ fs) o =
    fills-add_fills fs (add_fill q p o) ∙ append_assoc o.fills ((q, p) ∷ []) fs

-- If an order has no fills and an executed quantity of zero, then any run of fills of a positive
-- total quantity leaves the executed quantity at that total, and the average fill price at the
-- value of the fills over that total.
pub add_fills_average :
    (fs : List (ℕ × ℕ)) (o : Order)
    → o.fills ≡ []
    → o.executed_quantity ≡ 0
    → 0 < total_quantity fs
    → ((add_fills fs o).executed_quantity ≡ total_quantity fs)
      × ((add_fills fs o).avg_fill_price
          ≡ some (record { num = total_value fs; den = total_quantity fs }))
add_fills_average fs o new none_yet h =
    let start : IsFilled o = record {
      executed = rw new none_yet;
      average = λ e. absurd (nothing o.fills new e);
    } in
    let all : (add_fills fs o).fills ≡ fs = fills-add_fills fs o ∙ rw new refl in
    let v = add_fills-IsFilled fs o start in
    (v.executed ∙ rw all refl, v.average (rw all h) ∙ rw all refl)
  where
    nothing : (xs : List (ℕ × ℕ)) → xs ≡ [] → ¬ (0 < total_quantity xs)
    nothing xs e = rw e (λ lt. omega arith)
