-- ===== src/Keeps/Matching/Bounds.antt =====
-- The executed quantities of orders through a round of the matching
-- (src/engine/matching_engines/spot_engine.py).
use spectuel_backend.Prelude.{
  ℕ, suc, ◌+◌, ◌≤◌, ◌≡◌, refl, ◌∙◌, ◌≢◌, Bool, true, false, some, arith, write, ◌==◌, Bool-cases,
  inl, inr,
}
use spectuel_backend.Errors.{Run, done, raised, state_of}
use spectuel_backend.PriceLevel.{PriceLevel}
use spectuel_backend.Sorted.{SortedDict}
use spectuel_backend.Redis.{Redis}
use spectuel_backend.Order.{Order, add_fill, set_price, calculate_avg_fill_price}
use spectuel_backend.State.{State, M, deref, ◌>>=◌, ◌>>◌}
use spectuel_backend.Strategy.{filled_by}
use spectuel_backend.Matching.{trade_quantity, trade_or_cancel, match_maker}
use spectuel_backend.Matching.Trade.{fill_orders, log_fill_event, process_trade}
use spectuel_backend.Keeps.Rules.{
  Keeps, Invariant, Touch, activated, deactivated, priced, placed, child, parent, counterparty,
  legs, keep_rules, bind,
}
use spectuel_backend.Keeps.Base.{Keeps-trade_event}
use spectuel_backend.Keeps.Strategy.{Keeps-filled, Keeps-cancelled}
use spectuel_backend.Keeps.Matching.{Keeps-check, Keeps-log_fill, Keeps-retire, Keeps-move}

-- The quantities of an order.
pub record Amounts : Type 0 where
  pub executed : ℕ
  pub whole : ℕ

abbrev pub amounts : Order → Amounts
amounts o = record { executed = o.executed_quantity; whole = o.quantity }

amounts-Touch : (f : Order → Order) → Touch f → (o : Order) → amounts (f o) ≡ amounts o
unfolding set_price
amounts-Touch _ activated o = refl
amounts-Touch _ deactivated o = refl
amounts-Touch _ (priced v) o = refl
amounts-Touch _ placed o = refl
amounts-Touch _ (child r) o = refl
amounts-Touch _ (parent r) o = refl
amounts-Touch _ (counterparty r) o = refl
amounts-Touch _ (legs a b) o = refl

module _ ⦃D : SortedDict PriceLevel⦄ ⦃R : Redis⦄ where
  -- The orders have the quantities that `start` gives them.
  record Has (start : ℕ → Amounts) (s : State) : Type 0 where
    same : (r : ℕ) → amounts (s.objects r) ≡ start r

  -- No order is executed beyond its quantity.
  pub record Within (s : State) : Type 0 where
    pub bounded : (r : ℕ) → (s.objects r).executed_quantity ≤ (s.objects r).quantity

  bounded_by :
      (o : Order) (a : Amounts)
      → amounts o ≡ a
      → a.executed ≤ a.whole
      → o.executed_quantity ≤ o.quantity
  bounded_by o a e h = rw (← e) at h

  amounts-write :
      (s : State) (k r : ℕ) (f : Order → Order)
      → Touch f
      → amounts (write s.objects k (f (s.objects k)) r) ≡ amounts (s.objects r)
  amounts-write s k r f t = elim (Bool-cases (r == k)) [
    | inl hit ↦ let e : r ≡ k = ground arith in rw (hit, e) (amounts-Touch f t (s.objects k))
    | inr miss ↦ rw miss refl
  ]

  Has-invariant : (start : ℕ → Amounts) → Invariant (Has start)
  Has-invariant start = record {
    assign_ok = λ s k f t p. record { same = λ r. amounts-write s k r f t ∙ p.same r };
    append_ok = λ s o price p. record { same = p.same };
    remove_ok = λ s o price p. record { same = p.same };
    store_ok = λ s f p. record { same = p.same };
    redis_ok = λ s f p. record { same = p.same };
    log_ok = λ s e p. record { same = p.same };
    uuid_ok = λ s p. record { same = p.same };
    command_ok = λ s id p. record { same = p.same };
  }

  Within-invariant : Invariant Within
  Within-invariant = record {
    assign_ok = λ s k f t p. record {
      bounded = λ r.
          bounded_by (write s.objects k (f (s.objects k)) r) (amounts (s.objects r))
            (amounts-write s k r f t) (p.bounded r);
    };
    append_ok = λ s o price p. record { bounded = p.bounded };
    remove_ok = λ s o price p. record { bounded = p.bounded };
    store_ok = λ s f p. record { bounded = p.bounded };
    redis_ok = λ s f p. record { bounded = p.bounded };
    log_ok = λ s e p. record { bounded = p.bounded };
    uuid_ok = λ s p. record { bounded = p.bounded };
    command_ok = λ s id p. record { bounded = p.bounded };
  }

  -- Started where `P` holds, the call ends or raises where `Q` holds.
  record Into (P Q : State → Type 0) {A : Type 0} (m : M A) : Type 0 where
    into : (s : State) → P s → Q (state_of (m s))

  module _ {Q : State → Type 0} where
    into_then :
        {A B : Type 0} (r : Run State A) (f : A → M B)
        → Q (state_of r)
        → ((a : A) → Keeps Q (f a))
        → Q (
            state_of
              (elim r as (λ x. Run State B) [ done a s' ↦ f a s' | raised e s' ↦ raised e s' ]))
    into_then (done a s) f q k = (k a).keeps s q
    into_then (raised e s) f q k = q

  module _ {P Q : State → Type 0} where
    into_bind :
        {A B : Type 0} (r : Run State A) (f : A → M B)
        → P (state_of r)
        → ((s : State) → P s → Q s)
        → ((a : A) → Into P Q (f a))
        → Q (
            state_of
              (elim r as (λ x. Run State B) [ done a s' ↦ f a s' | raised e s' ↦ raised e s' ]))
    into_bind (done a s) f p w k = (k a).into s p
    into_bind (raised e s) f p w k = w s p

    Into-bind :
        {A B : Type 0} {m : M A} {f : A → M B}
        → Keeps P m
        → ((s : State) → P s → Q s)
        → ((a : A) → Into P Q (f a))
        → Into P Q (m >>= f)
    Into-bind {m} {f} h w k = record { into = λ s p. into_bind (m s) f (h.keeps s p) w k }

    Into-then :
        {A B : Type 0} {m : M A} {f : A → M B}
        → Into P Q m
        → ((a : A) → Keeps Q (f a))
        → Into P Q (m >>= f)
    Into-then {m} {f} h k = record { into = λ s p. into_then (m s) f (h.into s p) k }

    Into-Keeps : {A : Type 0} {m : M A} → ((s : State) → P s → Q s) → Keeps Q m → Into P Q m
    Into-Keeps w h = record { into = λ s p. h.keeps s (w s p) }

  module _ (start : ℕ → Amounts) (fine : (r : ℕ) → (start r).executed ≤ (start r).whole) where
    Has-Within : (s : State) → Has start s → Within s
    Has-Within s h = record {
      bounded = λ r. bounded_by (s.objects r) (start r) (h.same r) (fine r);
    }

    module _ (taker maker q price : ℕ) (apart : taker ≢ maker)
        (for_taker : (start taker).executed + q ≤ (start taker).whole)
        (for_maker : (start maker).executed + q ≤ (start maker).whole) where
      filled_state : State → State
      filled_state s =
          let f = add_fill q price in
          let objects = write s.objects taker (f (s.objects taker)) in
          record s { objects = write objects maker (f (objects maker)) }

      filled_state-Within : (s : State) → Has start s → Within (filled_state s)
      unfolding filled_state add_fill calculate_avg_fill_price
      filled_state-Within s h =
          let other : (maker == taker) ≡ false = ground arith in
          record {
            bounded = λ r. elim (Bool-cases (r == maker)) [
              | inl hit ↦
                  rw (hit, other) (fits (s.objects maker) (start maker) (h.same maker) for_maker)
              | inr miss ↦ rw miss (elim (Bool-cases (r == taker)) [
                | inl hit ↦ rw hit (fits (s.objects taker) (start taker) (h.same taker) for_taker)
                | inr miss' ↦ rw miss' ((Has-Within s h).bounded r)
              ])
            ];
          }
        where
          fits :
              (o : Order) (a : Amounts)
              → amounts o ≡ a
              → a.executed + q ≤ a.whole
              → o.executed_quantity + q ≤ o.quantity
          fits o a e le = rw (← e) at le

      -- What `fill_orders` does after the two fills.
      after_fills : M (Unit {0})
      unfolding log_fill_event
      after_fills = do
        log_fill_event taker
        log_fill_event maker
        t ← deref taker
        m ← deref maker
        filled_by t.strategy_type taker
        filled_by m.strategy_type maker

      Keeps-after : Keeps Within after_fills
      unfolding after_fills
      Keeps-after =
          let log = Keeps-log_fill Within-invariant in
          let react = Keeps-filled Within-invariant in search (keep_rules, log, react) depth 12

      Into-fill : Into (Has start) Within (fill_orders taker maker q price)
      unfolding fill_orders after_fills filled_state
      Into-fill = record {
        into = λ s h. Keeps-after.keeps (filled_state s) (filled_state-Within s h);
      }

      Into-trade : Into (Has start) Within (process_trade taker maker q price)
      unfolding process_trade
      Into-trade = record {
        into = λ s h.
            let logged = Keeps-trade_event (Has-invariant start) in
            let rest = bind (Keeps-retire Within-invariant maker price) (λ _.
              Keeps-move Within-invariant taker maker (s.objects taker).executed_quantity
                (s.objects maker).executed_quantity q price s.next_uuid (suc s.next_uuid)) in
            (Into-bind (logged _ _ _ _ _ _) Has-Within (λ _.
                Into-bind (logged _ _ _ _ _ _) Has-Within
                  (λ _. Into-then Into-fill (λ _. rest)))).into
              (record s { next_uuid = suc (suc s.next_uuid) }) (record { same = h.same });
      }

  -- If no order is executed beyond its quantity, then none is after a round of the matching
  -- between a taker and another order, also where the maker cannot pay and is cancelled, where
  -- the strategies react to the fills and where the round raises.
  pub match_maker-Within :
      (taker maker price : ℕ) (s : State)
      → taker ≢ maker
      → Within s
      → Within (state_of (match_maker taker maker price s))
  unfolding match_maker
  match_maker-Within taker maker price s apart w =
      let start : ℕ → Amounts = λ r. amounts (s.objects r) in
      let q = trade_quantity (s.objects taker) (s.objects maker) in
      (Into-bind (Keeps-check (Has-invariant start) (s.objects maker) q (some price))
          (Has-Within start w.bounded) (λ b. by_check b)).into
        s (record { same = λ r. refl })
    where
      by_check :
          (b : Bool)
          → Into (Has (λ r. amounts (s.objects r))) Within (
              trade_or_cancel b taker maker
                (trade_quantity (s.objects taker) (s.objects maker))
                price)
      by_check true =
          Into-trade (λ r. amounts (s.objects r)) w.bounded taker maker
            (trade_quantity (s.objects taker) (s.objects maker)) price apart
            (let a = w.bounded taker in let b = w.bounded maker in ground arith)
            (let a = w.bounded taker in let b = w.bounded maker in ground arith)
      by_check false = record {
        into = λ s' h.
            (Keeps-cancelled Within-invariant (s'.objects maker).strategy_type maker).keeps s'
              (Has-Within (λ r. amounts (s.objects r)) w.bounded s' h);
      }
