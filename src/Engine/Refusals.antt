-- ===== src/Engine/Refusals.antt =====
-- Modifications of orders of users (`_handle_modify_order` of
-- src/engine/matching_engines/spot_engine.py and the modify methods of src/engine/strategies).
use spectuel_backend.Prelude.{
  ℕ, ◌≡◌, refl, Bool, true, false, Option, none, some, ◌==◌, inl, inr, ◌⊎◌, ◌≢◌, arith,
  if◌then◌else◌,
}
use spectuel_backend.Errors.{Error, Result, ok, err, done, raised, validation_error}
use spectuel_backend.Enums.{StrategyType, OrderEventType}
use spectuel_backend.PriceLevel.{PriceLevel}
use spectuel_backend.Sorted.{SortedDict}
use spectuel_backend.Redis.{Redis}
use spectuel_backend.Order
use spectuel_backend.Order.{Order, OrderDict, new_order}
use spectuel_backend.State.{State, M, price_of, of_result, store_get, ◌>>=◌, when}
use spectuel_backend.State.Runs.{after_done, after_raised}
use spectuel_backend.Logger.{log_order_event}
use spectuel_backend.Strategy.{
  ModifyCommand, modify_order, validate_modify, apply_modify, get_modified_price, oto_modify,
  oto_modify_waiting, otoco_modify, otoco_modify_waiting, modified_by, log_bare, reject_if,
  check_limit, check_stop, new_limit, new_stop,
}
use spectuel_backend.Crossing.{limit_crossable, stop_crossable}
use spectuel_backend.Engine.{handle_modify_order}

module _ ⦃D : SortedDict PriceLevel⦄ ⦃R : Redis⦄ where
  -- A run that raises and changes nothing.
  abbrev pub RaisesAt : {A : Type 0} → M A → State → Type 0
  RaisesAt m s = (e : Error) × (m s ≡ raised e s)

  -- Either a value with the state as it was, or a raise that changes nothing.
  abbrev Quiet : {A : Type 0} → M A → State → Type 0
  Quiet {A} m s = ((a : A) × (m s ≡ done a s)) ⊎ RaisesAt m s

  log_bare_raises :
      (t : OrderEventType) (r : ℕ) (p : Option ℕ) (s : State)
      → ((s.objects r).user_id == s.system_user_id) ≡ false
      → log_bare t r p s ≡ raised validation_error s
  unfolding log_bare log_order_event
  log_bare_raises t r p s ne = rw ne refl

  price-Quiet : (r : ℕ) (s : State) → Quiet (price_of r) s
  price-Quiet r s = by_price (Order.price (s.objects r))
    where
      by_price : (p : Result (Option ℕ)) → Quiet (λ s. of_result p s) s
      by_price (ok v) = inl (v, refl)
      by_price (err e) = inr (e, refl)

  raises_after :
      {A B : Type 0} (m : M A) (k : A → M B) {s : State}
      → Quiet m s
      → ((a : A) → RaisesAt (k a) s)
      → RaisesAt (m >>= k) s
  raises_after m k (inl (a, e)) h = ((h a).0, after_done k e ((h a).1))
  raises_after m k (inr (x, e)) h = (x, after_raised k e)

  -- A check that passes, or raises.
  abbrev Passes : M Bool → State → Type 0
  Passes m s = (m s ≡ done true s) ⊎ RaisesAt m s

  raises_passed :
      (m : M Bool) (k : Bool → M (Unit {0})) {s : State}
      → Passes m s
      → RaisesAt (k true) s
      → RaisesAt (m >>= k) s
  raises_passed m k (inl e) h = (h.0, after_done k e h.1)
  raises_passed m k (inr (x, e)) h = (x, after_raised k e)

  module _ (cmd : ModifyCommand) (r : ℕ) (s : State)
      (ne : ((s.objects r).user_id == s.system_user_id) ≡ false) where
    bare_raises :
        {A : Type 0} (t : OrderEventType) (p : Option ℕ) (k : Unit {0} → M A)
        → RaisesAt (log_bare t r p >>= k) s
    bare_raises t p k = (validation_error, after_raised k (log_bare_raises t r p s ne))

    check-Passes :
        (b : Bool) (c : Result Bool)
        → Passes (if b then (of_result c >>= λ x. reject_if x r) else (λ t. done true t)) s
    check-Passes false c = inl refl
    check-Passes true (ok false) = inl refl
    check-Passes true (ok true) =
        inr (bare_raises OrderEventType.order_modify_rejected none (λ _ t. done false t))
    check-Passes true (err e) = inr (e, refl)

    limit-Passes : Passes (check_limit cmd r) s
    limit-Passes =
        check-Passes (new_limit cmd (s.objects r))
          (limit_crossable cmd.limit_price (s.objects r).side s.market.book)

    stop-Passes : Passes (check_stop cmd r) s
    stop-Passes =
        check-Passes (new_stop cmd (s.objects r))
          (stop_crossable cmd.stop_price (s.objects r).side s.market.book)

    abbrev then_stop : Bool → M Bool
    then_stop passed = if passed then check_stop cmd r else (λ t. done false t)

    both_pass :
        Passes (check_limit cmd r) s
        → Passes (check_stop cmd r) s
        → Passes (check_limit cmd r >>= then_stop) s
    both_pass (inl e) (inl e') = inl (after_done then_stop e e')
    both_pass (inl e) (inr (x, e')) = inr (x, after_done then_stop e e')
    both_pass (inr (x, e)) _ = inr (x, after_raised then_stop e)

    validate-Passes : Passes (validate_modify cmd r) s
    unfolding validate_modify
    validate-Passes = both_pass limit-Passes stop-Passes

    abbrev choose : Option ℕ → Option ℕ
    choose old =
        if new_stop cmd (s.objects r)
        then cmd.stop_price
        else if new_limit cmd (s.objects r)
        then cmd.limit_price
        else old

    choice-Quiet : Quiet (price_of r) s → Quiet (price_of r >>= λ old t. done (choose old) t) s
    choice-Quiet (inl (p, e)) = inl (choose p, after_done (λ old t. done (choose old) t) e refl)
    choice-Quiet (inr (x, e)) = inr (x, after_raised (λ old t. done (choose old) t) e)

    modified_price-Quiet : Quiet (get_modified_price cmd r) s
    unfolding get_modified_price
    modified_price-Quiet = choice-Quiet (price-Quiet r s)

    apply_raises : RaisesAt (apply_modify cmd r) s
    unfolding apply_modify
    apply_raises =
        raises_after (get_modified_price cmd r) _ modified_price-Quiet
          (λ p. bare_raises OrderEventType.order_modified p _)

    modify_raises : RaisesAt (modify_order cmd r) s
    unfolding modify_order
    modify_raises =
        raises_passed (validate_modify cmd r) (λ v. when v (apply_modify cmd r)) validate-Passes
          apply_raises

    oto_waiting_raises : RaisesAt (oto_modify_waiting cmd r) s
    unfolding oto_modify_waiting
    oto_waiting_raises = raises_passed (validate_modify cmd r) _ validate-Passes (
        raises_after (price_of r) _ (price-Quiet r s)
          (λ p. bare_raises OrderEventType.order_modified none _))

    otoco_waiting_raises : RaisesAt (otoco_modify_waiting cmd r) s
    unfolding otoco_modify_waiting
    otoco_waiting_raises = raises_passed (validate_modify cmd r) _ validate-Passes (
        raises_after (get_modified_price cmd r) _ modified_price-Quiet
          (λ p. bare_raises OrderEventType.order_modified p _))

    choice_raises :
        (b : Bool) (m k : M (Unit {0}))
        → RaisesAt m s
        → RaisesAt k s
        → RaisesAt (if b then m else k) s
    choice_raises true m k h g = h
    choice_raises false m k h g = g

    modified_by_raises : (t : StrategyType) → RaisesAt (modified_by t cmd r) s
    unfolding oto_modify otoco_modify
    modified_by_raises StrategyType.single = modify_raises
    modified_by_raises StrategyType.oco = modify_raises
    modified_by_raises StrategyType.oto =
        choice_raises _ (oto_modify_waiting cmd r) (modify_order cmd r) oto_waiting_raises
          modify_raises
    modified_by_raises StrategyType.otoco =
        choice_raises _ (modify_order cmd r) (otoco_modify_waiting cmd r) modify_raises
          otoco_waiting_raises

  -- If the order store has the order and its user is not the system's, then a modification
  -- raises and leaves the whole state as it was, whatever the strategy and the type of the
  -- order and whatever the new prices.
  pub modify_of_user_raises :
      (cmd : ModifyCommand) (order_id r : ℕ) (s : State)
      → s.order_store order_id ≡ some r
      → (s.objects r).user_id ≢ s.system_user_id
      → (e : Error) × (handle_modify_order cmd order_id s ≡ raised e s)
  unfolding handle_modify_order store_get
  modify_of_user_raises cmd order_id r s found user =
      let (e, h) = modified_by_raises cmd r s (ground arith) (s.objects r).strategy_type in
      (e, rw found h)
