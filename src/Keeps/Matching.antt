-- ===== src/Keeps/Matching.antt =====
-- Invariants through the matching.
pub mod Bounds
use spectuel_backend.Prelude.{ℕ, zero, suc, Bool, true, false, Option, none, some}
use spectuel_backend.Enums.{Side, OrderType}
use spectuel_backend.PriceLevel.{PriceLevel}
use spectuel_backend.Sorted.{SortedDict}
use spectuel_backend.Redis.{Redis}
use spectuel_backend.Order.{Order}
use spectuel_backend.State.{State, M}
use spectuel_backend.Matching.{
  trade_or_cancel, match_maker, match_level, next_round, match_rounds, match_loop, match_checked,
  match_order,
}
use spectuel_backend.Matching.Check.{check_side, check_user, check_sufficient_balance}
use spectuel_backend.Matching.Trade.{
  log_fill_event, escrow_side, escrow_first_fill, settle_side, retire_maker, move_balances,
  fill_orders, process_trade,
}
use spectuel_backend.Keeps.Rules.{
  Keeps, Invariant, Counting, keep_rules, Keeps-pure, Keeps-if, Keeps-raise,
}
use spectuel_backend.Keeps.Base.{
  Keeps-available_cash, Keeps-available_asset, Keeps-trade_event, Keeps-increase_cash,
  Keeps-increase_asset, Keeps-settle_ask, Keeps-settle_bid,
}
use spectuel_backend.Keeps.Strategy.{Keeps-log, Keeps-filled, Keeps-cancelled}

module _ ⦃D : SortedDict PriceLevel⦄ ⦃R : Redis⦄ {P : State → Type 0} (I : Invariant P) where
  Keeps-check_side : (side : Side) (user q : ℕ) (p : Option ℕ) → Keeps P (check_side side user q p)
  Keeps-check_side Side.ask user q p = search (keep_rules, Keeps-available_asset)
  Keeps-check_side Side.bid user q p = search (keep_rules, Keeps-available_cash)

  Keeps-check_user :
      (t : OrderType) (o : Order) (q : ℕ) (p : Option ℕ) → Keeps P (check_user t o q p)
  Keeps-check_user OrderType.market o q p = search keep_rules
  Keeps-check_user OrderType.limit o q p = Keeps-check_side o.side o.user_id q p
  Keeps-check_user OrderType.stop o q p = Keeps-check_side o.side o.user_id q p

  pub Keeps-check : (o : Order) (q : ℕ) (p : Option ℕ) → Keeps P (check_sufficient_balance o q p)
  unfolding check_sufficient_balance
  Keeps-check o q p = search (keep_rules, Keeps-check_user)

  pub Keeps-log_fill : (r : ℕ) → Keeps P (log_fill_event r)
  unfolding log_fill_event
  Keeps-log_fill r = search (keep_rules, Keeps-log)

  Keeps-escrow_side : (side : Side) (r : ℕ) → Keeps P (escrow_side side r)
  Keeps-escrow_side Side.bid r = search (keep_rules, Keeps-increase_cash) depth 9
  Keeps-escrow_side Side.ask r = search (keep_rules, Keeps-increase_asset) depth 9

  Keeps-first_fill : (before r : ℕ) → Keeps P (escrow_first_fill before r)
  unfolding escrow_first_fill
  Keeps-first_fill before r = search (keep_rules, Keeps-escrow_side)

  Keeps-settle :
      (side : Side) (t m q p command tt' mt : ℕ) → Keeps P (settle_side side t m q p command tt' mt)
  Keeps-settle Side.bid t m q p command tt' mt =
      search (keep_rules, Keeps-settle_ask, Keeps-settle_bid)
  Keeps-settle Side.ask t m q p command tt' mt =
      search (keep_rules, Keeps-settle_ask, Keeps-settle_bid)

  pub Keeps-retire : (maker price : ℕ) → Keeps P (retire_maker maker price)
  unfolding retire_maker
  Keeps-retire maker price = search keep_rules

  pub Keeps-move :
      (taker maker tb mb q p tt' mt : ℕ) → Keeps P (move_balances taker maker tb mb q p tt' mt)
  unfolding move_balances
  Keeps-move taker maker tb mb q p tt' mt =
      search (keep_rules, Keeps-first_fill, Keeps-settle) depth 12

module _ ⦃D : SortedDict PriceLevel⦄ ⦃R : Redis⦄ {P : State → Type 0} (I : Invariant P)
    (C : Counting P) where
  Keeps-fill : (taker maker q p : ℕ) → Keeps P (fill_orders taker maker q p)
  unfolding fill_orders
  Keeps-fill taker maker q p = search (keep_rules, Keeps-log_fill, Keeps-filled) depth 14

  Keeps-trade : (taker maker q p : ℕ) → Keeps P (process_trade taker maker q p)
  unfolding process_trade
  Keeps-trade taker maker q p =
      search (keep_rules, Keeps-trade_event, Keeps-fill, Keeps-retire, Keeps-move) depth 16

  Keeps-trade_or_cancel :
      (b : Bool) (taker maker q p : ℕ) → Keeps P (trade_or_cancel b taker maker q p)
  Keeps-trade_or_cancel true taker maker q p = Keeps-trade taker maker q p
  Keeps-trade_or_cancel false taker maker q p = search (keep_rules, Keeps-cancelled)

  Keeps-maker : (taker maker price : ℕ) → Keeps P (match_maker taker maker price)
  unfolding match_maker
  Keeps-maker taker maker price = search (keep_rules, Keeps-check, Keeps-trade_or_cancel) depth 9

  Keeps-level : (fuel taker price : ℕ) (cur : Option ℕ) → Keeps P (match_level fuel taker price cur)
  unfolding match_level
  Keeps-level zero taker price cur = Keeps-raise _
  Keeps-level (suc fuel) taker price none = Keeps-pure tt
  Keeps-level (suc fuel) taker price (some n) =
      let rest : (next : Option ℕ) → Keeps P (match_level fuel taker price next) =
        λ next. Keeps-level fuel taker price next in
      search (keep_rules, Keeps-maker, rest) depth 9

  Keeps-next :
      (prev best : Option ℕ) {round : ℕ → M (Option ℕ)}
      → ((p : ℕ) → Keeps P (round p))
      → Keeps P (next_round prev best round)
  Keeps-next prev none h = Keeps-pure prev
  Keeps-next prev (some p) h = Keeps-if _ (Keeps-pure prev) (h p)

  Keeps-rounds : (fuel taker : ℕ) (prev : Option ℕ) → Keeps P (match_rounds fuel taker prev)
  unfolding match_rounds
  Keeps-rounds zero taker prev = Keeps-raise _
  Keeps-rounds (suc fuel) taker prev =
      let rest : (p : Option ℕ) → Keeps P (match_rounds fuel taker p) =
        λ p. Keeps-rounds fuel taker p in
      search (keep_rules, Keeps-next, Keeps-level, rest) depth 12

  Keeps-loop : (fuel taker : ℕ) → Keeps P (match_loop fuel taker)
  unfolding match_loop
  Keeps-loop fuel taker = search (keep_rules, Keeps-rounds)

  Keeps-checked : (fuel taker : ℕ) (b : Bool) → Keeps P (match_checked fuel taker b)
  Keeps-checked fuel taker true = Keeps-loop fuel taker
  Keeps-checked fuel taker false = search (keep_rules, Keeps-cancelled)

  pub Keeps-match : (fuel taker : ℕ) → Keeps P (match_order fuel taker)
  unfolding match_order
  Keeps-match fuel taker = search (keep_rules, Keeps-check, Keeps-checked) depth 9
