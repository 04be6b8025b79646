-- ===== src/Tests/Matches.antt =====
-- A round of the matching between an ask and a bid, and a bid without a price.
use spectuel_backend.Prelude.{◌≡◌, refl, none, arith, write}
use spectuel_backend.Errors.{Error, state_of, raised}
use spectuel_backend.PriceLevel.{PriceLevel}
use spectuel_backend.Sorted.Assoc.{assoc_dict}
use spectuel_backend.Redis.Table.{table_redis}
use spectuel_backend.Order.{Order, OrderDict, new_order}
use spectuel_backend.State.{State}
use spectuel_backend.Matching.{match_maker}
use spectuel_backend.Keeps.Matching.Bounds.{Within, match_maker-Within}
use spectuel_backend.Placing.{single_new}
use spectuel_backend.Engine.Unpriced.{unpriced_limit_raises}
use spectuel_backend.Tests.Runs.{start_state, bid_dict, ask_dict}

abbrev ask_order : Order
unfolding new_order
ask_order = new_order ask_dict none

-- The ask is object 1, every other object the bid.
abbrev two_sided : State ⦃D = assoc_dict PriceLevel⦄ ⦃R = table_redis⦄
two_sided = record start_state { objects = write start_state.objects 1 ask_order }

two_sided-Within : Within ⦃D = assoc_dict PriceLevel⦄ ⦃R = table_redis⦄ two_sided
unfolding new_order
two_sided-Within = record { bounded = λ r. ground arith }

match_maker-Within_example :
    Within ⦃D = assoc_dict PriceLevel⦄ ⦃R = table_redis⦄
      (state_of (match_maker ⦃D = assoc_dict PriceLevel⦄ ⦃R = table_redis⦄ 1 0 100 two_sided))
match_maker-Within_example =
    match_maker-Within ⦃D = assoc_dict PriceLevel⦄ ⦃R = table_redis⦄ 1 0 100 two_sided
      (λ e. omega arith) two_sided-Within

abbrev unpriced_dict : OrderDict
unpriced_dict = record bid_dict { limit_price = none }

unpriced_limit_raises_example :
    (e : Error) × (s' : State ⦃D = assoc_dict PriceLevel⦄ ⦃R = table_redis⦄) × (single_new
        ⦃D = assoc_dict PriceLevel⦄ ⦃R = table_redis⦄ 5 unpriced_dict start_state
      ≡ raised e s')
unpriced_limit_raises_example =
    unpriced_limit_raises ⦃D = assoc_dict PriceLevel⦄ ⦃R = table_redis⦄ 5 unpriced_dict start_state
      refl refl
