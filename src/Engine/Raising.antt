-- ===== src/Engine/Raising.antt =====
-- The placement of orders at market, and of pairs of orders of users (src/engine/strategies).
use spectuel_backend.Prelude.{
  ℕ, suc, ◌≡◌, refl, true, false, none, ◌==◌, [], ◌∷◌, ◌≢◌, arith, ◌∙◌, write,
}
use spectuel_backend.Errors.{done, raised, not_implemented, type_error}
use spectuel_backend.Enums.{OrderType, OrderEventType}
use spectuel_backend.PriceLevel.{PriceLevel}
use spectuel_backend.Sorted.{SortedDict}
use spectuel_backend.Redis.{Redis}
use spectuel_backend.Order
use spectuel_backend.Order.{Order, OrderDict, new_order, holds_order}
use spectuel_backend.State.{State, price_of, ◌>>=◌}
use spectuel_backend.State.Runs.{after_done, after_raised}
use spectuel_backend.Logger.{log_order_event}
use spectuel_backend.Strategy.{log_order, log_order_for}
use spectuel_backend.Matching.{match_order}
use spectuel_backend.Placing.{
  single_new, oco_new, oco_new_legs, place_legs, is_matchable, match_new, with_limit,
  match_or_place, set_counterparty,
}

module _ ⦃D : SortedDict PriceLevel⦄ ⦃R : Redis⦄ where
  self_eq : (n : ℕ) → (n == n) ≡ true
  self_eq n = ground arith

  module _ (fuel r : ℕ) (s : State) (h : (s.objects r).order_type ≡ OrderType.market) where
    matchable_e : is_matchable r s ≡ done true s
    unfolding is_matchable
    matchable_e = rw h refl

    price_e : price_of r s ≡ raised not_implemented s
    unfolding Order.price
    price_e = rw h refl

    match_e : match_order fuel r s ≡ raised not_implemented s
    unfolding match_order
    match_e = after_raised _ price_e

    match_new_e : match_new fuel r s ≡ raised not_implemented s
    unfolding match_new
    match_new_e = after_raised _ match_e

    place_e : (is_matchable r >>= λ m. match_or_place m fuel r) s ≡ raised not_implemented s
    place_e = after_done (λ m. match_or_place m fuel r) matchable_e (after_raised _ match_new_e)

  with_limit-type :
      (t : OrderType) (p : ℕ) (d : OrderDict) → (with_limit t p d).order_type ≡ d.order_type
  with_limit-type OrderType.limit p d = refl
  with_limit-type OrderType.stop p d = refl
  with_limit-type OrderType.market p d = refl

  -- The placement of a single order at market raises NotImplementedError whatever the fuel and
  -- the state, and leaves the book, the order store, the balances and the log as they were.
  pub market_order_raises :
      (fuel : ℕ) (d : OrderDict) (s : State)
      → d.order_type ≡ OrderType.market
      → (s' : State) × (single_new fuel d s ≡ raised not_implemented s')
        × (s'.market ≡ s.market)
        × (s'.order_store ≡ s.order_store)
        × (s'.redis ≡ s.redis)
        × (s'.log ≡ s.log)
  unfolding single_new new_order
  market_order_raises fuel d s h =
      let o : Order = new_order (with_limit d.order_type s.market.book.cur_price d) none in
      let s1 : State = record s {
        objects = write s.objects s.next_object o;
        next_object = suc s.next_object;
      } in
      (
        s1,
        place_e fuel s.next_object s1 (
            rw (self_eq s.next_object)
              (with_limit-type d.order_type s.market.book.cur_price d ∙ h)),
        refl,
        refl,
        refl,
        refl,
      )

  log_linked_raises :
      (r : ℕ) (s : State)
      → ((s.objects r).user_id == s.system_user_id) ≡ false
      → holds_order (s.objects r) ≡ true
      → log_order OrderEventType.order_placed r s ≡ raised type_error s
  unfolding log_order log_order_for log_order_event
  log_linked_raises r s user linked = rw (user, linked) refl

  next_apart : (n : ℕ) → (n == suc n) ≡ false
  next_apart n = ground arith

  -- If the first of a pair of OCO orders has a user other than the system's, then its placement
  -- raises TypeError and leaves the book, the order store, the balances and the log as they
  -- were.
  pub oco_of_user_raises :
      (a b : OrderDict) (s : State)
      → a.user_id ≢ s.system_user_id
      → (s' : State) × (oco_new (a ∷ b ∷ []) s ≡ raised type_error s')
        × (s'.market ≡ s.market)
        × (s'.order_store ≡ s.order_store)
        × (s'.redis ≡ s.redis)
        × (s'.log ≡ s.log)
  unfolding oco_new oco_new_legs place_legs new_order holds_order
  oco_of_user_raises a b s user =
      let n : ℕ = s.next_object in
      let s1 : State = record s {
        objects = write s.objects n (new_order a none);
        next_object = suc n;
      } in
      let s2 : State = record s1 {
        objects = write s1.objects (suc n) (new_order b none);
        next_object = suc (suc n);
      } in
      let s3 : State = record s2 {
        objects = write s2.objects n (set_counterparty (suc n) (s2.objects n));
      } in
      let s4 : State = record s3 {
        objects = write s3.objects (suc n) (set_counterparty n (s3.objects (suc n)));
      } in
      (
        s4,
        after_raised _ (
            log_linked_raises n s4 (rw (next_apart n, self_eq n) (ground arith))
              (rw (next_apart n, self_eq n) refl)),
        refl,
        refl,
        refl,
        refl,
      )
