-- ===== src/Keeps/Engine/Static.antt =====
-- The terms of orders through whole runs of commands.
use spectuel_backend.Prelude.{
  ℕ, ◌≡◌, refl, ◌<◌, ◌≤◌, Option, List, arith, ◌==◌, true, write, ◌∙◌, Bool-cases, inl, inr,
}
use native.Mathlib.Nat.{le_refl}
use spectuel_backend.Errors.{state_of}
use spectuel_backend.Enums.{Side, OrderType, StrategyType}
use spectuel_backend.PriceLevel.{PriceLevel}
use spectuel_backend.Sorted.{SortedDict}
use spectuel_backend.Redis.{Redis}
use spectuel_backend.Order.{Order, set_price, add_fill, calculate_avg_fill_price}
use spectuel_backend.State.{State}
use spectuel_backend.Engine.{Command}
use spectuel_backend.Keeps.Rules.{
  Touch, Count, Counting, activated, deactivated, priced, filled, placed, executed, child, parent,
  counterparty, legs, Invariant,
}
use spectuel_backend.Keeps.Engine.{run_commands, Keeps-commands}

-- What a client fixed when it placed the order.
pub record Terms : Type 0 where
  pub id : ℕ
  pub user_id : ℕ
  pub strategy_type : StrategyType
  pub order_type : OrderType
  pub side : Side
  pub quantity : ℕ
  pub limit_price : Option ℕ
  pub stop_price : Option ℕ

abbrev pub terms : Order → Terms
terms o = record {
  id = o.id;
  user_id = o.user_id;
  strategy_type = o.strategy_type;
  order_type = o.order_type;
  side = o.side;
  quantity = o.quantity;
  limit_price = o.limit_price;
  stop_price = o.stop_price;
}

terms-Touch : (f : Order → Order) → Touch f → (o : Order) → terms (f o) ≡ terms o
unfolding set_price add_fill calculate_avg_fill_price
terms-Touch _ activated o = refl
terms-Touch _ deactivated o = refl
terms-Touch _ (priced v) o = refl
terms-Touch _ placed o = refl
terms-Touch _ (child r) o = refl
terms-Touch _ (parent r) o = refl
terms-Touch _ (counterparty r) o = refl
terms-Touch _ (legs a b) o = refl

terms-Count : (f : Order → Order) → Count f → (o : Order) → terms (f o) ≡ terms o
unfolding add_fill calculate_avg_fill_price
terms-Count _ (filled q p) o = refl
terms-Count _ (executed q) o = refl

module _ ⦃D : SortedDict PriceLevel⦄ ⦃R : Redis⦄ where
  -- The objects below `n` have the terms that `start` gives them.
  record Fixed (n : ℕ) (start : ℕ → Terms) (s : State) : Type 0 where
    allocated : n ≤ s.next_object
    same : (r : ℕ) → r < n → terms (s.objects r) ≡ start r

  terms-write :
      (objects : ℕ → Order) (k : ℕ) (o : Order) (r : ℕ) (t : Terms)
      → terms (objects r) ≡ t
      → (((r == k) ≡ true) → terms o ≡ t)
      → terms (write objects k o r) ≡ t
  terms-write objects k o r t old new = elim (Bool-cases (r == k)) [
    | inl hit ↦ rw hit (new hit)
    | inr miss ↦ rw miss old
  ]

  at_same :
      {t : Terms} (s : State) (k r : ℕ)
      → (r == k) ≡ true
      → terms (s.objects r) ≡ t
      → terms (s.objects k) ≡ t
  at_same s k r hit h = let e : r ≡ k = ground arith in rw (← e) h

  not_new : (n r k : ℕ) → r < n → n ≤ k → ¬ ((r == k) ≡ true)
  not_new n r k lt le hit = ground arith

  Fixed-invariant : (n : ℕ) (start : ℕ → Terms) → Invariant (Fixed n start)
  Fixed-invariant n start = record {
    assign_ok = λ s k f t p. record {
      allocated = p.allocated;
      same = λ r lt.
          terms-write s.objects k (f (s.objects k)) r (start r) (p.same r lt)
            (λ hit. terms-Touch f t (s.objects k) ∙ at_same s k r hit (p.same r lt));
    };
    append_ok = λ s o price p. record { allocated = p.allocated; same = p.same };
    remove_ok = λ s o price p. record { allocated = p.allocated; same = p.same };
    store_ok = λ s f p. record { allocated = p.allocated; same = p.same };
    redis_ok = λ s f p. record { allocated = p.allocated; same = p.same };
    log_ok = λ s e p. record { allocated = p.allocated; same = p.same };
    uuid_ok = λ s p. record { allocated = p.allocated; same = p.same };
    command_ok = λ s id p. record { allocated = p.allocated; same = p.same };
  }

  Fixed-counting : (n : ℕ) (start : ℕ → Terms) → Counting (Fixed n start)
  Fixed-counting n start = record {
    count_ok = λ s k f t p. record {
      allocated = p.allocated;
      same = λ r lt.
          terms-write s.objects k (f (s.objects k)) r (start r) (p.same r lt)
            (λ hit. terms-Count f t (s.objects k) ∙ at_same s k r hit (p.same r lt));
    };
    create_ok = λ s o p. record {
      allocated = omega (arith, p.allocated);
      same = λ r lt.
          terms-write s.objects s.next_object o r (start r) (p.same r lt)
            (λ hit. absurd (not_new n r s.next_object lt p.allocated hit));
    };
  }

  -- Whatever commands run, also where one of them raises, an order object that exists keeps its
  -- id, user, strategy type, order type, side, quantity, limit price and stop price; so a
  -- command that modifies a price leaves both prices of every order as they were.
  pub run_commands-terms :
      (fuel : ℕ) (cs : List Command) (s : State) (r : ℕ)
      → r < s.next_object
      → terms ((state_of (run_commands fuel cs s)).objects r) ≡ terms (s.objects r)
  run_commands-terms fuel cs s r lt =
      let start : ℕ → Terms = λ k. terms (s.objects k) in
      let n = s.next_object in
      ((Keeps-commands (Fixed-invariant n start) (Fixed-counting n start) fuel cs).keeps s
          (record { allocated = le_refl n; same = λ k h. refl })).same
        r lt
