-- ===== src/Keeps/Strategy.antt =====
-- Invariants through the strategies' reactions.
use spectuel_backend.Prelude.{ℕ, Bool, true, false, Option, none, some}
use spectuel_backend.Enums.{Side, OrderEventType, StrategyType}
use spectuel_backend.PriceLevel.{PriceLevel}
use spectuel_backend.Sorted.{SortedDict}
use spectuel_backend.Redis.{Redis}
use spectuel_backend.State.{State}
use spectuel_backend.Strategy.{
  log_order_for, log_order, log_bare, release_side, release_escrow, ModifyCommand,
  get_modified_price, reject_if, check_limit, check_stop, validate_modify, apply_modify,
  modify_order, single_filled, single_cancel, oco_filled, oco_cancel, place_child, oto_trigger,
  oto_filled, oto_cancel_by, oto_cancel, oto_modify_waiting, oto_modify, place_leg, trigger_legs,
  cancel_peer, otoco_filled_by, otoco_filled, otoco_cancel_by, otoco_cancel_child,
  otoco_cancel_active, otoco_cancel_waiting, otoco_cancel, otoco_modify_waiting, otoco_modify,
  filled_by, cancelled_by, modified_by,
}
use spectuel_backend.Keeps.Rules.{Keeps, Invariant, keep_rules}
use spectuel_backend.Keeps.Base.{Keeps-order_event, Keeps-decrease_cash, Keeps-decrease_asset}

module _ ⦃D : SortedDict PriceLevel⦄ ⦃R : Redis⦄ {P : State → Type 0} (I : Invariant P) where
  pub Keeps-log_for : (user : ℕ) (t : OrderEventType) (r : ℕ) → Keeps P (log_order_for user t r)
  unfolding log_order_for
  Keeps-log_for user t r = search (keep_rules, Keeps-order_event)

  pub Keeps-log : (t : OrderEventType) (r : ℕ) → Keeps P (log_order t r)
  unfolding log_order
  Keeps-log t r = search (keep_rules, Keeps-log_for)

  pub Keeps-bare : (t : OrderEventType) (r : ℕ) (price : Option ℕ) → Keeps P (log_bare t r price)
  unfolding log_bare
  Keeps-bare t r price = search (keep_rules, Keeps-order_event)

  Keeps-release_side :
      (side : Side) (r unfilled user : ℕ) → Keeps P (release_side side r unfilled user)
  Keeps-release_side Side.bid r unfilled user = search (keep_rules, Keeps-decrease_cash) depth 9
  Keeps-release_side Side.ask r unfilled user = search (keep_rules, Keeps-decrease_asset) depth 9

  pub Keeps-release : (r : ℕ) → Keeps P (release_escrow r)
  unfolding release_escrow
  Keeps-release r = search (keep_rules, Keeps-release_side)

  Keeps-modified_price : (cmd : ModifyCommand) (r : ℕ) → Keeps P (get_modified_price cmd r)
  unfolding get_modified_price
  Keeps-modified_price cmd r = search keep_rules

  Keeps-reject : (b : Bool) (r : ℕ) → Keeps P (reject_if b r)
  Keeps-reject true r = search (keep_rules, Keeps-bare)
  Keeps-reject false r = search keep_rules

  Keeps-check_limit : (cmd : ModifyCommand) (r : ℕ) → Keeps P (check_limit cmd r)
  Keeps-check_limit cmd r = search (keep_rules, Keeps-reject) depth 9

  Keeps-check_stop : (cmd : ModifyCommand) (r : ℕ) → Keeps P (check_stop cmd r)
  Keeps-check_stop cmd r = search (keep_rules, Keeps-reject) depth 9

  Keeps-validate : (cmd : ModifyCommand) (r : ℕ) → Keeps P (validate_modify cmd r)
  unfolding validate_modify
  Keeps-validate cmd r = search (keep_rules, Keeps-check_limit, Keeps-check_stop) depth 9

  Keeps-apply : (cmd : ModifyCommand) (r : ℕ) → Keeps P (apply_modify cmd r)
  unfolding apply_modify
  Keeps-apply cmd r = search (keep_rules, Keeps-modified_price, Keeps-bare) depth 12

  pub Keeps-modify : (cmd : ModifyCommand) (r : ℕ) → Keeps P (modify_order cmd r)
  unfolding modify_order
  Keeps-modify cmd r = search (keep_rules, Keeps-validate, Keeps-apply)

  Keeps-single_filled : (r : ℕ) → Keeps P (single_filled r)
  unfolding single_filled
  Keeps-single_filled r = search keep_rules

  Keeps-single_cancel : (r : ℕ) → Keeps P (single_cancel r)
  unfolding single_cancel
  Keeps-single_cancel r = search (keep_rules, Keeps-log, Keeps-release) depth 12

  Keeps-oco_filled : (r : ℕ) → Keeps P (oco_filled r)
  unfolding oco_filled
  Keeps-oco_filled r = search (keep_rules, Keeps-log_for, Keeps-release) depth 12

  Keeps-oco_cancel : (r : ℕ) → Keeps P (oco_cancel r)
  unfolding oco_cancel
  Keeps-oco_cancel r = search (keep_rules, Keeps-log, Keeps-log_for, Keeps-release) depth 16

  Keeps-place_child : (r : ℕ) → Keeps P (place_child r)
  unfolding place_child
  Keeps-place_child r = search (keep_rules, Keeps-log) depth 12

  Keeps-trigger : (c : Option ℕ) (b : Bool) → Keeps P (oto_trigger c b)
  Keeps-trigger none b = search keep_rules
  Keeps-trigger (some c) b = search (keep_rules, Keeps-place_child)

  Keeps-oto_filled : (r : ℕ) → Keeps P (oto_filled r)
  unfolding oto_filled
  Keeps-oto_filled r = search (keep_rules, Keeps-trigger)

  Keeps-oto_cancel_by : (c : Option ℕ) (b : Bool) (r : ℕ) → Keeps P (oto_cancel_by c b r)
  Keeps-oto_cancel_by (some c) b r = search (keep_rules, Keeps-log, Keeps-release) depth 12
  Keeps-oto_cancel_by none true r = search (keep_rules, Keeps-log, Keeps-release) depth 12
  Keeps-oto_cancel_by none false r = search (keep_rules, Keeps-log_for, Keeps-release) depth 14

  Keeps-oto_cancel : (r : ℕ) → Keeps P (oto_cancel r)
  unfolding oto_cancel
  Keeps-oto_cancel r = search (keep_rules, Keeps-oto_cancel_by)

  Keeps-oto_waiting : (cmd : ModifyCommand) (r : ℕ) → Keeps P (oto_modify_waiting cmd r)
  unfolding oto_modify_waiting
  Keeps-oto_waiting cmd r =
      search (keep_rules, Keeps-validate, Keeps-bare, Keeps-modified_price) depth 12

  Keeps-oto_modify : (cmd : ModifyCommand) (r : ℕ) → Keeps P (oto_modify cmd r)
  unfolding oto_modify
  Keeps-oto_modify cmd r = search (keep_rules, Keeps-oto_waiting, Keeps-modify)

  Keeps-place_leg : (r : ℕ) → Keeps P (place_leg r)
  unfolding place_leg
  Keeps-place_leg r = search (keep_rules, Keeps-bare) depth 9

  Keeps-trigger_legs : (r a : ℕ) → Keeps P (trigger_legs r a)
  unfolding trigger_legs
  Keeps-trigger_legs r a = search (keep_rules, Keeps-place_leg) depth 9

  Keeps-peer : (c : Option ℕ) → Keeps P (cancel_peer c)
  Keeps-peer none = search keep_rules
  Keeps-peer (some c) = Keeps-oco_cancel c

  Keeps-otoco_by : (c : Option ℕ) (b : Bool) (r : ℕ) → Keeps P (otoco_filled_by c b r)
  Keeps-otoco_by (some a) true r = Keeps-trigger_legs r a
  Keeps-otoco_by (some a) false r = search (keep_rules, Keeps-peer)
  Keeps-otoco_by none true r = search (keep_rules, Keeps-peer)
  Keeps-otoco_by none false r = search (keep_rules, Keeps-peer)

  Keeps-otoco_filled : (r : ℕ) → Keeps P (otoco_filled r)
  unfolding otoco_filled
  Keeps-otoco_filled r = search (keep_rules, Keeps-otoco_by)

  Keeps-otoco_active : (r : ℕ) (c : Option ℕ) → Keeps P (otoco_cancel_active r c)
  Keeps-otoco_active r c = search (keep_rules, Keeps-log, Keeps-release) depth 14

  Keeps-otoco_waiting : (r : ℕ) → Keeps P (otoco_cancel_waiting r)
  Keeps-otoco_waiting r = search (keep_rules, Keeps-bare, Keeps-release) depth 14

  Keeps-otoco_child : (b : Bool) (r : ℕ) → Keeps P (otoco_cancel_child b r)
  Keeps-otoco_child b r = search (keep_rules, Keeps-otoco_active, Keeps-otoco_waiting) depth 10

  Keeps-otoco_cancel_by : (c : Option ℕ) (b : Bool) (r : ℕ) → Keeps P (otoco_cancel_by c b r)
  Keeps-otoco_cancel_by (some a) b r = search (keep_rules, Keeps-log, Keeps-release) depth 14
  Keeps-otoco_cancel_by none b r = Keeps-otoco_child b r

  Keeps-otoco_cancel : (r : ℕ) → Keeps P (otoco_cancel r)
  unfolding otoco_cancel
  Keeps-otoco_cancel r = search (keep_rules, Keeps-otoco_cancel_by)

  Keeps-otoco_modify_waiting : (cmd : ModifyCommand) (r : ℕ) → Keeps P (otoco_modify_waiting cmd r)
  unfolding otoco_modify_waiting
  Keeps-otoco_modify_waiting cmd r =
      search (keep_rules, Keeps-validate, Keeps-bare, Keeps-modified_price) depth 12

  Keeps-otoco_modify : (cmd : ModifyCommand) (r : ℕ) → Keeps P (otoco_modify cmd r)
  unfolding otoco_modify
  Keeps-otoco_modify cmd r = search (keep_rules, Keeps-otoco_modify_waiting, Keeps-modify)

  pub Keeps-filled : (t : StrategyType) (r : ℕ) → Keeps P (filled_by t r)
  Keeps-filled StrategyType.single r = Keeps-single_filled r
  Keeps-filled StrategyType.oco r = Keeps-oco_filled r
  Keeps-filled StrategyType.oto r = Keeps-oto_filled r
  Keeps-filled StrategyType.otoco r = Keeps-otoco_filled r

  pub Keeps-cancelled : (t : StrategyType) (r : ℕ) → Keeps P (cancelled_by t r)
  Keeps-cancelled StrategyType.single r = Keeps-single_cancel r
  Keeps-cancelled StrategyType.oco r = Keeps-oco_cancel r
  Keeps-cancelled StrategyType.oto r = Keeps-oto_cancel r
  Keeps-cancelled StrategyType.otoco r = Keeps-otoco_cancel r

  pub Keeps-modified :
      (t : StrategyType) (cmd : ModifyCommand) (r : ℕ) → Keeps P (modified_by t cmd r)
  Keeps-modified StrategyType.single cmd r = Keeps-modify cmd r
  Keeps-modified StrategyType.oco cmd r = Keeps-modify cmd r
  Keeps-modified StrategyType.oto cmd r = Keeps-oto_modify cmd r
  Keeps-modified StrategyType.otoco cmd r = Keeps-otoco_modify cmd r
