-- ===== src/Placing/Otoco.antt =====
-- `OTOCOStrategy.handle_new` (src/engine/strategies/otoco_strategy.py).
use spectuel_backend.Prelude.{ℕ, Bool, true, false, none, some, List, [], ◌∷◌}
use spectuel_backend.Errors.{value_error}
use spectuel_backend.Enums.{OrderEventType, MatchOutcome}
use spectuel_backend.PriceLevel.{PriceLevel}
use spectuel_backend.Sorted.{SortedDict}
use spectuel_backend.Redis.{Redis}
use spectuel_backend.Order.{Order, OrderDict, new_order}
use spectuel_backend.State.{M, raise, assign, create, price_of, store_add, book_append, ◌>>=◌, ◌>>◌}
use spectuel_backend.Strategy.{log_order, log_bare, release_escrow}
use spectuel_backend.Placing.Start.{effective, is_matchable, match_new}
use spectuel_backend.Placing.Oco.{set_counterparty}

abbrev pub set_legs : ℕ → ℕ → Order → Order
set_legs a b o = record o { child_a = some a; child_b = some b }

module _ ⦃D : SortedDict PriceLevel⦄ ⦃R : Redis⦄ where
  unfoldable pub place_otoco_parent : ℕ → ℕ → ℕ → M (Unit {0})
  place_otoco_parent parent a b = do
    log_order OrderEventType.order_placed parent
    price ← price_of parent
    book_append parent price
    store_add parent
    store_add a
    store_add b

  -- A full parent: both legs are logged, stored and put on the book here too.
  unfoldable pub place_both_legs : ℕ → ℕ → M (Unit {0})
  place_both_legs a b = do
    log_order OrderEventType.order_placed a
    log_order OrderEventType.order_placed b
    store_add a
    store_add b
    price_a ← price_of a
    book_append a price_a
    price_b ← price_of b
    book_append b price_b

  -- The cancellation is logged without the order.
  unfoldable pub refuse_otoco : ℕ → M (Unit {0})
  refuse_otoco parent = do
    log_bare OrderEventType.order_cancelled parent none
    release_escrow parent

  abbrev pub otoco_matched : MatchOutcome → ℕ → ℕ → ℕ → M (Unit {0})
  otoco_matched MatchOutcome.insufficient_balance parent a b = refuse_otoco parent
  otoco_matched MatchOutcome.success parent a b = place_both_legs a b
  otoco_matched MatchOutcome.partial parent a b = place_otoco_parent parent a b
  otoco_matched MatchOutcome.failure parent a b = place_otoco_parent parent a b

  abbrev pub otoco_match_or_place : Bool → ℕ → ℕ → ℕ → ℕ → M (Unit {0})
  otoco_match_or_place true fuel parent a b = do
    result ← match_new fuel parent
    otoco_matched result.outcome parent a b
  otoco_match_or_place false fuel parent a b = place_otoco_parent parent a b

  unfoldable pub otoco_new_legs : ℕ → OrderDict → OrderDict → OrderDict → M (Unit {0})
  unfolding place_otoco_parent place_both_legs refuse_otoco
  otoco_new_legs fuel parent_dict leg_a leg_b = do
    d ← effective parent_dict
    parent ← create (new_order d none)
    a ← create (new_order leg_a (some parent))
    b ← create (new_order leg_b (some parent))
    assign parent (set_legs a b)
    assign a (set_counterparty b)
    assign b (set_counterparty a)
    matchable ← is_matchable parent
    otoco_match_or_place matchable fuel parent a b

  -- Unpacking anything but two legs raises.
  unfoldable pub otoco_new : ℕ → OrderDict → List OrderDict → M (Unit {0})
  unfolding otoco_new_legs
  otoco_new fuel parent (leg_a ∷ leg_b ∷ []) = otoco_new_legs fuel parent leg_a leg_b
  otoco_new fuel parent _ = raise value_error
