-- ===== src/Keeps/Placing.antt =====
-- Invariants through the placement of new orders.
use spectuel_backend.Prelude.{ℕ, Bool, true, false, List, [], ◌∷◌}
use spectuel_backend.Enums.{OrderType, MatchOutcome}
use spectuel_backend.PriceLevel.{PriceLevel}
use spectuel_backend.Sorted.{SortedDict}
use spectuel_backend.Redis.{Redis}
use spectuel_backend.Order.{Order, OrderDict}
use spectuel_backend.State.{State}
use spectuel_backend.Placing.{
  effective, matchable_by, is_matchable, match_new, refuse_new, place_single, single_matched,
  match_or_place, single_new, place_legs, oco_new_legs, oco_new, place_parent, oto_matched,
  oto_match_or_place, oto_new, place_otoco_parent, place_both_legs, refuse_otoco, otoco_matched,
  otoco_match_or_place, otoco_new_legs, otoco_new,
}
use spectuel_backend.Keeps.Rules.{Keeps, Invariant, Counting, keep_rules}
use spectuel_backend.Keeps.Strategy.{Keeps-log, Keeps-bare, Keeps-release}
use spectuel_backend.Keeps.Matching.{Keeps-match}

module _ ⦃D : SortedDict PriceLevel⦄ ⦃R : Redis⦄ {P : State → Type 0} (I : Invariant P)
    (C : Counting P) where
  Keeps-effective : (d : OrderDict) → Keeps P (effective d)
  Keeps-effective d = search keep_rules

  Keeps-matchable_by : (t : OrderType) (o : Order) → Keeps P (matchable_by t o)
  Keeps-matchable_by OrderType.limit o = search keep_rules
  Keeps-matchable_by OrderType.stop o = search keep_rules
  Keeps-matchable_by OrderType.market o = search keep_rules

  Keeps-matchable : (r : ℕ) → Keeps P (is_matchable r)
  unfolding is_matchable
  Keeps-matchable r = search (keep_rules, Keeps-matchable_by)

  Keeps-match_new : (fuel r : ℕ) → Keeps P (match_new fuel r)
  unfolding match_new
  Keeps-match_new fuel r = search (keep_rules, Keeps-match)

  Keeps-refuse : (r : ℕ) → Keeps P (refuse_new r)
  unfolding refuse_new
  Keeps-refuse r = search (keep_rules, Keeps-log, Keeps-release)

  Keeps-place_single : (r : ℕ) → Keeps P (place_single r)
  unfolding place_single
  Keeps-place_single r = search (keep_rules, Keeps-log) depth 10

  Keeps-single_matched : (o : MatchOutcome) (r : ℕ) → Keeps P (single_matched o r)
  Keeps-single_matched MatchOutcome.insufficient_balance r = Keeps-refuse r
  Keeps-single_matched MatchOutcome.success r = search keep_rules
  Keeps-single_matched MatchOutcome.partial r = Keeps-place_single r
  Keeps-single_matched MatchOutcome.failure r = Keeps-place_single r

  Keeps-single_start : (b : Bool) (fuel r : ℕ) → Keeps P (match_or_place b fuel r)
  Keeps-single_start true fuel r = search (keep_rules, Keeps-match_new, Keeps-single_matched)
  Keeps-single_start false fuel r = Keeps-place_single r

  pub Keeps-single_new : (fuel : ℕ) (d : OrderDict) → Keeps P (single_new fuel d)
  unfolding single_new
  Keeps-single_new fuel d =
      search (keep_rules, Keeps-effective, Keeps-matchable, Keeps-single_start) depth 9

  Keeps-place_legs : (a b : ℕ) → Keeps P (place_legs a b)
  unfolding place_legs
  Keeps-place_legs a b = search (keep_rules, Keeps-log) depth 14

  Keeps-oco_legs : (a b : OrderDict) → Keeps P (oco_new_legs a b)
  unfolding oco_new_legs
  Keeps-oco_legs a b = search (keep_rules, Keeps-place_legs) depth 10

  pub Keeps-oco_new : (legs : List OrderDict) → Keeps P (oco_new legs)
  unfolding oco_new
  Keeps-oco_new [] = search keep_rules
  Keeps-oco_new (a ∷ []) = search keep_rules
  Keeps-oco_new (a ∷ b ∷ []) = Keeps-oco_legs a b
  Keeps-oco_new (a ∷ b ∷ c ∷ ds) = search keep_rules

  Keeps-place_parent : (parent child : ℕ) → Keeps P (place_parent parent child)
  unfolding place_parent
  Keeps-place_parent parent child = search (keep_rules, Keeps-log) depth 10

  Keeps-oto_matched : (o : MatchOutcome) (r c : ℕ) → Keeps P (oto_matched o r c)
  Keeps-oto_matched MatchOutcome.insufficient_balance r c = Keeps-refuse r
  Keeps-oto_matched MatchOutcome.success r c = search keep_rules
  Keeps-oto_matched MatchOutcome.partial r c = Keeps-place_parent r c
  Keeps-oto_matched MatchOutcome.failure r c = Keeps-place_parent r c

  Keeps-oto_start : (b : Bool) (fuel r c : ℕ) → Keeps P (oto_match_or_place b fuel r c)
  Keeps-oto_start true fuel r c = search (keep_rules, Keeps-match_new, Keeps-oto_matched)
  Keeps-oto_start false fuel r c = Keeps-place_parent r c

  pub Keeps-oto_new : (fuel : ℕ) (p c : OrderDict) → Keeps P (oto_new fuel p c)
  unfolding oto_new
  Keeps-oto_new fuel p c =
      search (keep_rules, Keeps-effective, Keeps-matchable, Keeps-oto_start) depth 12

  Keeps-otoco_parent : (parent a b : ℕ) → Keeps P (place_otoco_parent parent a b)
  unfolding place_otoco_parent
  Keeps-otoco_parent parent a b = search (keep_rules, Keeps-log) depth 12

  Keeps-both_legs : (a b : ℕ) → Keeps P (place_both_legs a b)
  unfolding place_both_legs
  Keeps-both_legs a b = search (keep_rules, Keeps-log) depth 14

  Keeps-refuse_otoco : (r : ℕ) → Keeps P (refuse_otoco r)
  unfolding refuse_otoco
  Keeps-refuse_otoco r = search (keep_rules, Keeps-bare, Keeps-release)

  Keeps-otoco_matched : (o : MatchOutcome) (r a b : ℕ) → Keeps P (otoco_matched o r a b)
  Keeps-otoco_matched MatchOutcome.insufficient_balance r a b = Keeps-refuse_otoco r
  Keeps-otoco_matched MatchOutcome.success r a b = Keeps-both_legs a b
  Keeps-otoco_matched MatchOutcome.partial r a b = Keeps-otoco_parent r a b
  Keeps-otoco_matched MatchOutcome.failure r a b = Keeps-otoco_parent r a b

  Keeps-otoco_start : (b : Bool) (fuel r x y : ℕ) → Keeps P (otoco_match_or_place b fuel r x y)
  Keeps-otoco_start true fuel r x y = search (keep_rules, Keeps-match_new, Keeps-otoco_matched)
  Keeps-otoco_start false fuel r x y = Keeps-otoco_parent r x y

  Keeps-otoco_legs : (fuel : ℕ) (p a b : OrderDict) → Keeps P (otoco_new_legs fuel p a b)
  unfolding otoco_new_legs
  Keeps-otoco_legs fuel p a b =
      search (keep_rules, Keeps-effective, Keeps-matchable, Keeps-otoco_start) depth 14

  pub Keeps-otoco_new :
      (fuel : ℕ) (p : OrderDict) (legs : List OrderDict) → Keeps P (otoco_new fuel p legs)
  unfolding otoco_new
  Keeps-otoco_new fuel p [] = search keep_rules
  Keeps-otoco_new fuel p (a ∷ []) = search keep_rules
  Keeps-otoco_new fuel p (a ∷ b ∷ []) = Keeps-otoco_legs fuel p a b
  Keeps-otoco_new fuel p (a ∷ b ∷ c ∷ ds) = search keep_rules
