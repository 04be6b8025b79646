-- ===== src/Engine/Unpriced.antt =====
-- A limit order without a limit price (src/engine/strategies/single_strategy.py), which the web
-- API accepts.
use spectuel_backend.Prelude.{
  ℕ, suc, ◌≡◌, refl, Bool, false, none, write, ◌==◌, arith, Bool-cases, Option-cases, inl, inr,
  equal_refl,
}
use spectuel_backend.Errors.{Error, Run, value_error, type_error, done, raised, state_of}
use spectuel_backend.Enums.{OrderType, OrderEventType, opposite}
use spectuel_backend.PriceLevel.{PriceLevel}
use spectuel_backend.Sorted.{SortedDict}
use spectuel_backend.Redis.{Redis}
use spectuel_backend.OrderBook
use spectuel_backend.OrderBook.{best_price}
use spectuel_backend.Order
use spectuel_backend.Order.{Order, OrderDict, new_order, set_price}
use spectuel_backend.Crossing.{limit_crossable}
use spectuel_backend.State.{State, M, price_of, store_add, book_append, ◌>>=◌, ◌>>◌}
use spectuel_backend.State.Runs.{after_done, after_raised}
use spectuel_backend.Strategy.{log_order}
use spectuel_backend.Placing.{
  single_new, place_single, is_matchable, match_or_place, set_placed, with_limit,
}
use spectuel_backend.Keeps.Rules.{
  Invariant, Touch, activated, deactivated, priced, placed, child, parent, counterparty, legs,
  Keeps-store_add,
}
use spectuel_backend.Keeps.Strategy.{Keeps-log}

abbrev IsUnpriced : Order → Type 0
IsUnpriced o = (o.order_type ≡ OrderType.limit) × (o.limit_price ≡ none)

IsUnpriced-Touch : (f : Order → Order) → Touch f → (o : Order) → IsUnpriced o → IsUnpriced (f o)
unfolding set_price
IsUnpriced-Touch _ activated o u = u
IsUnpriced-Touch _ deactivated o u = u
IsUnpriced-Touch _ (priced v) o u = u
IsUnpriced-Touch _ placed o u = u
IsUnpriced-Touch _ (child r) o u = u
IsUnpriced-Touch _ (parent r) o u = u
IsUnpriced-Touch _ (counterparty r) o u = u
IsUnpriced-Touch _ (legs a b) o u = u

module _ ⦃D : SortedDict PriceLevel⦄ ⦃R : Redis⦄ where
  -- The call raises some exception.
  abbrev pub Raises : {A : Type 0} → M A → State → Type 0
  Raises {A} m s = (e : Error) × (s' : State) × (◌≡◌ {A = Run State A} (m s) (raised e s'))

  record HoldsUnpriced (r : ℕ) (s : State) : Type 0 where
    unpriced : IsUnpriced (s.objects r)

  raises_bind :
      {P : State → Type 0} {A B : Type 0} (x : Run State A) (f : A → M B)
      → P (state_of x)
      → ((a : A) (s : State) → P s → Raises (f a) s)
      → (e : Error) × (s' : State) × (◌≡◌ {A = Run State B}
          (elim x as (λ y. Run State B) [ done a s' ↦ f a s' | raised e s' ↦ raised e s' ])
          (raised e s'))
  raises_bind (done a s) f p h = h a s p
  raises_bind (raised e s) f p h = (e, s, refl)

  module _ (r : ℕ) where
    unpriced-Invariant : Invariant (HoldsUnpriced r)
    unpriced-Invariant = record {
      assign_ok = λ s k f t p. record {
        unpriced = elim (Bool-cases (r == k)) [
          | inl hit ↦
              let e : r ≡ k = ground arith in
              rw hit (IsUnpriced-Touch f t (s.objects k) (rw e at p.unpriced))
          | inr miss ↦ rw miss p.unpriced
        ];
      };
      append_ok = λ s o price p. record { unpriced = p.unpriced };
      remove_ok = λ s o price p. record { unpriced = p.unpriced };
      store_ok = λ s f p. record { unpriced = p.unpriced };
      redis_ok = λ s f p. record { unpriced = p.unpriced };
      log_ok = λ s e p. record { unpriced = p.unpriced };
      uuid_ok = λ s p. record { unpriced = p.unpriced };
      command_ok = λ s id p. record { unpriced = p.unpriced };
    }

    price_unset : (s : State) → HoldsUnpriced r s → price_of r s ≡ done none s
    unfolding Order.price
    price_unset s p = rw (p.unpriced.0, p.unpriced.1) refl

    append-Raises :
        (s : State) → HoldsUnpriced r s → Raises (price_of r >>= λ price. book_append r price) s
    unfolding OrderBook.append
    append-Raises s p =
        (value_error, s, after_done (λ price. book_append r price) (price_unset s p) refl)

    store-Raises :
        (s : State)
        → HoldsUnpriced r s
        → Raises (store_add r >> (price_of r >>= λ price. book_append r price)) s
    store-Raises s p =
        raises_bind (store_add r s) (λ u. price_of r >>= λ price. book_append r price)
          ((Keeps-store_add unpriced-Invariant r).keeps s p) (λ u s' q. append-Raises s' q)

    place-Raises : (s : State) → HoldsUnpriced r s → Raises (place_single r) s
    unfolding place_single
    place-Raises s p =
        let s1 : State = record s { objects = write s.objects r (set_placed (s.objects r)) } in
        let q : HoldsUnpriced r s1 = unpriced-Invariant.assign_ok s r set_placed placed p in
        raises_bind (log_order OrderEventType.order_placed r s1)
          (λ u. store_add r >> (price_of r >>= λ price. book_append r price))
          ((Keeps-log unpriced-Invariant OrderEventType.order_placed r).keeps s1 q)
          (λ u s' w. store-Raises s' w)

    start-Raises :
        (fuel : ℕ) (s : State)
        → HoldsUnpriced r s
        → Raises (is_matchable r >>= λ m. match_or_place m fuel r) s
    unfolding is_matchable limit_crossable
    start-Raises fuel s p =
        let k : Bool → M (Unit {0}) = λ m. match_or_place m fuel r in
        elim (Option-cases (best_price (opposite (s.objects r).side) s.market.book)) [
          | inl absent ↦
              let passive : is_matchable r s ≡ done false s =
                rw (p.unpriced.0, p.unpriced.1, absent) refl in
              let (e, s', raising) = place-Raises s p in (e, s', after_done k passive raising)
          | inr (b, there) ↦
              let compared : is_matchable r s ≡ raised type_error s =
                rw (p.unpriced.0, p.unpriced.1, there) refl in
              (type_error, s, after_raised k compared)
        ]

  -- The placement of a single limit order without a limit price raises an exception whatever
  -- the fuel and the state.
  pub unpriced_limit_raises :
      (fuel : ℕ) (d : OrderDict) (s : State)
      → d.order_type ≡ OrderType.limit
      → d.limit_price ≡ none
      → (e : Error) × (s' : State) × (single_new fuel d s ≡ raised e s')
  unfolding single_new new_order
  unpriced_limit_raises fuel d s h h' =
      let d' = with_limit d.order_type s.market.book.cur_price d in
      let o : Order = new_order d' none in
      let s1 : State = record s {
        objects = write s.objects s.next_object o;
        next_object = suc s.next_object;
      } in
      start-Raises s.next_object fuel s1
        (record { unpriced = rw (equal_refl s.next_object) (rw h (refl, h')) })
