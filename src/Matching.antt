-- ===== src/Matching.antt =====
-- `SpotEngine.match` and what it calls (src/engine/matching_engines/spot_engine.py): a taker is
-- matched against the best price of the other side, order by order in time priority.
pub mod Check
pub mod Trade
use spectuel_backend.Prelude.{
  ℕ, zero, suc, ◌+◌, ◌-◌, Bool, true, false, Option, none, some, ltb, ◌==◌, is_ref, if◌then◌else◌,
  min,
}
use spectuel_backend.Errors.{out_of_fuel}
use spectuel_backend.Enums.{Side, MatchOutcome, opposite}
use spectuel_backend.PriceLevel.{PriceLevel}
use spectuel_backend.Sorted.{SortedDict}
use spectuel_backend.Redis.{Redis}
use spectuel_backend.Order.{Order}
use spectuel_backend.OrderBook.{best_price, get_orders}
use spectuel_backend.State.{State, M, pure, raise, gets, deref, price_of, ◌>>=◌, ◌>>◌}
use spectuel_backend.Strategy.{cancelled_by}
use Check.{check_sufficient_balance}
use Trade.{process_trade}

-- `MatchResult`
pub record MatchResult : Type 0 where
  pub outcome : MatchOutcome
  pub quantity : ℕ
  pub price : Option ℕ

-- The result after the loop.
abbrev pub match_result : Order → Option ℕ → MatchResult
match_result taker prev =
    if taker.executed_quantity == taker.quantity
    then record { outcome = MatchOutcome.success; quantity = taker.quantity; price = prev }
    else if taker.executed_quantity == 0
    then record { outcome = MatchOutcome.failure; quantity = 0; price = none }
    else record { outcome = MatchOutcome.partial; quantity = taker.executed_quantity; price = prev }

abbrev pub refused : MatchResult
refused = record { outcome = MatchOutcome.insufficient_balance; quantity = 0; price = none }

module _ ⦃D : SortedDict PriceLevel⦄ ⦃R : Redis⦄ where
  abbrev pub trade_quantity : Order → Order → ℕ
  trade_quantity taker maker =
      min (maker.quantity - maker.executed_quantity) (taker.quantity - taker.executed_quantity)

  -- A maker that cannot pay is cancelled; any other trades.
  abbrev pub trade_or_cancel : Bool → ℕ → ℕ → ℕ → ℕ → M (Unit {0})
  trade_or_cancel true taker maker qty price = process_trade taker maker qty price
  trade_or_cancel false taker maker qty price = do
    m ← deref maker
    cancelled_by m.strategy_type maker

  -- The body of the loop over the orders at a price.
  unfoldable pub match_maker : ℕ → ℕ → ℕ → M (Unit {0})
  match_maker taker maker price = do
    t ← deref taker
    m ← deref maker
    enough ← check_sufficient_balance m (trade_quantity t m) (some price)
    trade_or_cancel enough taker maker (trade_quantity t m) price

  -- The loop over `get_orders`: `cur` is the generator's node, whose successor is read when the
  -- loop comes back to it.
  unfoldable pub match_level : ℕ → ℕ → ℕ → Option ℕ → M (Unit {0})
  match_level zero taker price cur = raise out_of_fuel
  match_level (suc fuel) taker price none = pure tt
  match_level (suc fuel) taker price (some n) = do
    t ← deref taker
    node ← gets (λ s. s.market.nodes.node_at n)
    if ltb t.executed_quantity t.quantity
        then (match_maker taker node.order price
            >> (gets (λ s. (s.market.nodes.node_at n).next) >>= λ next.
                match_level fuel taker price next))
        else pure tt

  -- A round at the best price, unless there is none or it is the price of the last round.
  abbrev pub next_round : Option ℕ → Option ℕ → (ℕ → M (Option ℕ)) → M (Option ℕ)
  next_round prev none round = pure prev
  next_round prev (some best) round = if is_ref prev best then pure prev else round best

  -- The `while` loop; its result is the last price that was tried.
  unfoldable pub match_rounds : ℕ → ℕ → Option ℕ → M (Option ℕ)
  match_rounds zero taker prev = raise out_of_fuel
  match_rounds (suc fuel) taker prev = do
    t ← deref taker
    book ← gets (λ s. s.market.book)
    if ltb t.executed_quantity t.quantity
        then next_round prev (best_price (opposite t.side) book) (λ best.
          gets (λ s. get_orders best (opposite t.side) s.market) >>= λ head.
          match_level fuel taker best head >> match_rounds fuel taker (some best))
        else pure prev

  -- `_match`
  unfoldable pub match_loop : ℕ → ℕ → M MatchResult
  match_loop fuel taker = do
    last ← match_rounds fuel taker none
    t ← deref taker
    pure (match_result t last)

  abbrev pub match_checked : ℕ → ℕ → Bool → M MatchResult
  match_checked fuel taker true = match_loop fuel taker
  match_checked fuel taker false = do
    t ← deref taker
    cancelled_by t.strategy_type taker
    pure refused

  -- `match`
  unfoldable pub match_order : ℕ → ℕ → M MatchResult
  match_order fuel taker = do
    t ← deref taker
    price ← price_of taker
    enough ← check_sufficient_balance t t.quantity price
    match_checked fuel taker enough
