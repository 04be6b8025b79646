-- ===== src/Keeps/Rules.antt =====
-- What it means to keep a predicate, and the rules for the building blocks of calls.
use spectuel_backend.Prelude.{
  ℕ, suc, ◌≡◌, refl, Bool, true, false, Option, none, some, ◌∷◌, ◌==◌, write, put, if◌then◌else◌,
}
use spectuel_backend.Errors.{Error, Result, ok, err, Run, done, raised, state_of}
use spectuel_backend.PriceLevel.{PriceLevel}
use spectuel_backend.Sorted.{SortedDict}
use spectuel_backend.OrderBook
use spectuel_backend.OrderBook.{Market, BookOrder}
use spectuel_backend.Redis.{Redis}
use spectuel_backend.Order
use spectuel_backend.Order.{Order, add_fill}
use spectuel_backend.State.{
  State, Event, M, pure, raise, gets, when, of_result, number, linked, run_market, set_market,
  assign, create, new_uuid, emit, store_add, store_remove, store_get, book_append, book_remove,
  price_of, book_order, ◌>>=◌,
}
use spectuel_backend.Logger.{ignore_system_user}
use spectuel_backend.Strategy.{activate, deactivate}
use spectuel_backend.Placing.{
  set_placed, set_executed, set_child, set_parent, set_counterparty, set_legs,
}

-- The writes that the engine makes to an order object and that leave its quantities alone.
pub data Touch : (Order → Order) → Type 0 where
  activated : Touch activate
  deactivated : Touch deactivate
  priced : (v : Option ℕ) → Touch (Order.set_price v)
  placed : Touch set_placed
  child : (r : ℕ) → Touch (set_child r)
  parent : (r : ℕ) → Touch (set_parent r)
  counterparty : (r : ℕ) → Touch (set_counterparty r)
  legs : (a b : ℕ) → Touch (set_legs a b)

-- The writes of its executed quantity.
pub data Count : (Order → Order) → Type 0 where
  filled : (q p : ℕ) → Count (add_fill q p)
  executed : (q : ℕ) → Count (set_executed q)

module _ ⦃D : SortedDict PriceLevel⦄ ⦃R : Redis⦄ (P : State → Type 0) where
  -- Started where `P` holds, the call ends or raises where `P` holds.
  pub record Keeps {A : Type 0} (m : M A) : Type 0 where
    pub keeps : (s : State) → P s → P (state_of (m s))

  -- Every primitive step keeps `P`, but for those of `Counting`.
  pub record Invariant : Type 0 where
    pub assign_ok :
        (s : State) (r : ℕ) (f : Order → Order)
        → Touch f
        → P s
        → P (record s { objects = write s.objects r (f (s.objects r)) })
    pub append_ok :
        (s : State) (o : BookOrder) (p : Option ℕ)
        → P s
        → P (set_market s (state_of (OrderBook.append o p s.market)))
    pub remove_ok :
        (s : State) (o : BookOrder) (p : Option ℕ)
        → P s
        → P (set_market s (state_of (OrderBook.remove o p s.market)))
    pub store_ok : (s : State) (f : ℕ → Option ℕ) → P s → P (record s { order_store = f })
    pub redis_ok : (s : State) (f : R.Store) → P s → P (record s { redis = f })
    pub log_ok : (s : State) (e : Event) → P s → P (record s { log = e ∷ s.log })
    pub uuid_ok : (s : State) → P s → P (record s { next_uuid = suc s.next_uuid })
    pub command_ok : (s : State) (id : ℕ) → P s → P (record s { cur_command_id = id })

  -- A write of an executed quantity and a new order object keep `P`.
  pub record Counting : Type 0 where
    pub count_ok :
        (s : State) (r : ℕ) (f : Order → Order)
        → Count f
        → P s
        → P (record s { objects = write s.objects r (f (s.objects r)) })
    pub create_ok :
        (s : State) (o : Order)
        → P s
        → P (record s {
          objects = write s.objects s.next_object o;
          next_object = suc s.next_object;
        })

module _ ⦃D : SortedDict PriceLevel⦄ ⦃R : Redis⦄ {P : State → Type 0} where
  bind_state :
      {A B : Type 0} (r : Run State A) (f : A → M B)
      → P (state_of r)
      → ((a : A) → Keeps P (f a))
      → P (
          state_of
            (elim r as (λ x. Run State B) [ done a s' ↦ f a s' | raised e s' ↦ raised e s' ]))
  bind_state (done a s) f p k = (k a).keeps s p
  bind_state (raised e s) f p k = p

  pub bind :
      {A B : Type 0} {m : M A} {f : A → M B}
      → Keeps P m
      → ((a : A) → Keeps P (f a))
      → Keeps P (m >>= f)
  bind {m} {f} h k = record { keeps = λ s p. bind_state (m s) f (h.keeps s p) k }

  pub Keeps-pure : {A : Type 0} (a : A) → Keeps P (pure a)
  Keeps-pure a = record { keeps = λ s p. p }

  pub Keeps-raise : {A : Type 0} (e : Error) → Keeps P (raise {A = A} e)
  Keeps-raise e = record { keeps = λ s p. p }

  pub Keeps-gets : {A : Type 0} (f : State → A) → Keeps P (gets f)
  Keeps-gets f = record { keeps = λ s p. p }

  pub Keeps-when : (b : Bool) {m : M (Unit {0})} → Keeps P m → Keeps P (when b m)
  Keeps-when true h = h
  Keeps-when false h = Keeps-pure tt

  pub Keeps-if :
      {A : Type 0} (b : Bool) {m n : M A} → Keeps P m → Keeps P n → Keeps P (if b then m else n)
  Keeps-if true h k = h
  Keeps-if false h k = k

  pub Keeps-result : {A : Type 0} (r : Result A) → Keeps P (of_result r)
  Keeps-result (ok a) = Keeps-pure a
  Keeps-result (err e) = Keeps-raise e

  pub Keeps-number : (o : Option ℕ) → Keeps P (number o)
  Keeps-number none = Keeps-raise _
  Keeps-number (some n) = Keeps-pure n

  pub Keeps-linked : (o : Option ℕ) → Keeps P (linked o)
  Keeps-linked none = Keeps-raise _
  Keeps-linked (some n) = Keeps-pure n

  -- A call that looks at the state before it chooses.
  pub Keeps-choice :
      {A : Type 0} (b : State → Bool) {m n : M A}
      → Keeps P m
      → Keeps P n
      → Keeps P (λ s. if b s then m s else n s)
  Keeps-choice b {m} {n} h k = record { keeps = λ s p. by_test (b s) s p }
    where
      by_test : (t : Bool) (s : State) → P s → P (state_of (if t then m s else n s))
      by_test true s p = h.keeps s p
      by_test false s p = k.keeps s p

  pub Keeps-ignore : (u : ℕ) {m : M (Unit {0})} → Keeps P m → Keeps P (ignore_system_user u m)
  Keeps-ignore u h = Keeps-choice (λ s. u == s.system_user_id) (Keeps-pure tt) h

  pub Keeps-price : (r : ℕ) → Keeps P (price_of r)
  Keeps-price r = bind (Keeps-gets _) (λ o. Keeps-result (Order.price o))

  module _ (C : Counting P) where
    pub Keeps-count : (r : ℕ) {f : Order → Order} → Count f → Keeps P (assign r f)
    Keeps-count r t = record { keeps = λ s p. C.count_ok s r _ t p }

    pub Keeps-create : (o : Order) → Keeps P (create o)
    Keeps-create o = record { keeps = λ s p. C.create_ok s o p }

  module _ (I : Invariant P) where
    pub Keeps-assign : (r : ℕ) {f : Order → Order} → Touch f → Keeps P (assign r f)
    Keeps-assign r t = record { keeps = λ s p. I.assign_ok s r _ t p }

    pub Keeps-uuid : Keeps P new_uuid
    Keeps-uuid = record { keeps = λ s p. I.uuid_ok s p }

    pub Keeps-emit : (e : Event) → Keeps P (emit e)
    Keeps-emit e = record { keeps = λ s p. I.log_ok s e p }

    run_market_state :
        (s : State) (r : Run Market (Unit {0}))
        → state_of (run_market s r) ≡ set_market s (state_of r)
    run_market_state s (done a m) = refl
    run_market_state s (raised e m) = refl

    pub Keeps-append : (r : ℕ) (p : Option ℕ) → Keeps P (book_append r p)
    Keeps-append r p = record {
      keeps = λ s q.
          rw (run_market_state s (OrderBook.append (book_order r (s.objects r)) p s.market))
            (I.append_ok s (book_order r (s.objects r)) p q);
    }

    pub Keeps-remove : (r : ℕ) (p : Option ℕ) → Keeps P (book_remove r p)
    Keeps-remove r p = record {
      keeps = λ s q.
          rw (run_market_state s (OrderBook.remove (book_order r (s.objects r)) p s.market))
            (I.remove_ok s (book_order r (s.objects r)) p q);
    }

    pub Keeps-store_add : (r : ℕ) → Keeps P (store_add r)
    unfolding store_add
    Keeps-store_add r = record { keeps = λ s q. by_entry s (s.order_store (s.objects r).id) q }
      where
        by_entry :
            (s : State) (e : Option ℕ)
            → P s
            → P (elim e as (λ x. State) [
              | none ↦ record s { order_store = put s.order_store (s.objects r).id r }
              | some _ ↦ s
            ])
        by_entry s none q = I.store_ok s _ q
        by_entry s (some x) q = q

    pub Keeps-store_remove : (r : ℕ) → Keeps P (store_remove r)
    unfolding store_remove
    Keeps-store_remove r = record { keeps = λ s p. I.store_ok s _ p }

  pub Keeps-store_get : (id : ℕ) → Keeps P (store_get id)
  unfolding store_get
  Keeps-store_get id = Keeps-gets _

pub ruleset keep_rules = (
  bind, Keeps-pure, Keeps-raise, Keeps-gets, Keeps-when, Keeps-if, Keeps-result, Keeps-number,
  Keeps-linked, Keeps-ignore, Keeps-price, Keeps-assign, Keeps-count, Keeps-create, Keeps-uuid,
  Keeps-emit, Keeps-append, Keeps-remove, Keeps-store_add, Keeps-store_remove, Keeps-store_get,
  activated, deactivated, priced, filled, placed, executed, child, parent, counterparty, legs,
)
