-- ===== src/Tests/Runs.antt =====
-- Orders and states with them, and the theorems on orders and on commands at them.
use spectuel_backend.Prelude.{true, ◌≡◌, refl, none, some, List, [], ◌∷◌, put, empty_map, arith}
use spectuel_backend.Prelude.Int.{pos, ◌-ℤ◌}
use spectuel_backend.Errors.{done, Error, raised, state_of, type_error, not_implemented}
use spectuel_backend.Enums.{Side, OrderType, StrategyType}
use spectuel_backend.Sorted.Assoc.{assoc_dict}
use spectuel_backend.PriceLevel
use spectuel_backend.PriceLevel.{
  append_new, link_last, alloc, set_next, set_prev, unlink, Node, Nodes, PriceLevel, walk,
}
use spectuel_backend.OrderBook
use spectuel_backend.OrderBook.{
  append_at, improve_best, remove_at, drop_level, BookOrder, OrderBook, Market, empty_book,
  side_levels,
}
use spectuel_backend.OrderBook.Best.{BestValid}
use spectuel_backend.Strategy.{single_cancel}
use spectuel_backend.Redis.{Key}
use spectuel_backend.Redis.Table.{table_redis, no_tables}
use spectuel_backend.Balance.Once.{amount}
use spectuel_backend.Order.{holds_order, Order, OrderDict, new_order}
use spectuel_backend.Order.Fills.{add_fills, add_fills_average}
use spectuel_backend.State.{State}
use spectuel_backend.Placing.{single_new, oco_new}
use spectuel_backend.Engine.{Command, handle_modify_order}
use spectuel_backend.Engine.Refusals.{modify_of_user_raises}
use spectuel_backend.Engine.Cancelled.{IsOpenBid, cancel_open_bid}
use spectuel_backend.Balance.{get_available_cash_balance}
use spectuel_backend.Balance.Reads.{available_cash_twice}
use spectuel_backend.Engine.Raising.{market_order_raises, oco_of_user_raises}
use spectuel_backend.Keeps.Engine.{run_commands}
use spectuel_backend.Keeps.Engine.Prices.{run_commands-BestValid}
use spectuel_backend.Keeps.Engine.Static.{terms, run_commands-terms}
use spectuel_backend.Tests.Books.{start_market, ask_market, ask_BestValid}

-- Fills of an order.
abbrev pub bid_dict : OrderDict
bid_dict = record {
  order_id = 1;
  user_id = 7;
  strategy_type = StrategyType.single;
  order_type = OrderType.limit;
  side = Side.bid;
  quantity = 5;
  executed_quantity = none;
  limit_price = some 100;
  stop_price = none;
}

abbrev pub ask_dict : OrderDict
ask_dict = record bid_dict { order_id = 2; user_id = 8; side = Side.ask; limit_price = some 90 }

abbrev market_dict : OrderDict
market_dict = record bid_dict { order_type = OrderType.market; limit_price = none }

abbrev pub bid_order : Order
unfolding new_order
bid_order = new_order bid_dict none

add_fills_average_example :
    ((add_fills ((2, 100) ∷ (3, 90) ∷ []) bid_order).executed_quantity ≡ 5)
    × ((add_fills ((2, 100) ∷ (3, 90) ∷ []) bid_order).avg_fill_price
        ≡ some (record { num = 470; den = 5 }))
unfolding new_order
add_fills_average_example =
    add_fills_average ((2, 100) ∷ (3, 90) ∷ []) bid_order refl refl (omega arith)

abbrev pub start_state : State ⦃D = assoc_dict PriceLevel⦄ ⦃R = table_redis⦄
start_state = record {
  objects = λ r. bid_order;
  next_object = 1;
  market = ask_market;
  order_store = put empty_map 1 0;
  redis = no_tables;
  log = [];
  next_uuid = 0;
  command_hook = true;
  cur_command_id = 0;
  symbol = 3;
  system_user_id = 0;
}

abbrev pub commands : List Command
commands = Command.new_single 20 ask_dict ∷ Command.cancel_order 21 1 ∷ []

run_commands-BestValid_example :
    BestValid ⦃D = assoc_dict PriceLevel⦄
      (state_of (
        run_commands ⦃D = assoc_dict PriceLevel⦄ ⦃R = table_redis⦄ 5 commands
          start_state)).market.book
run_commands-BestValid_example =
    run_commands-BestValid ⦃D = assoc_dict PriceLevel⦄ ⦃R = table_redis⦄ 5 commands start_state
      ask_BestValid

run_commands-terms_example :
    terms (
      (state_of (
          run_commands ⦃D = assoc_dict PriceLevel⦄ ⦃R = table_redis⦄ 5 commands
            start_state)).objects
        0)
    ≡ terms (start_state.objects 0)
run_commands-terms_example =
    run_commands-terms ⦃D = assoc_dict PriceLevel⦄ ⦃R = table_redis⦄ 5 commands start_state 0
      (omega arith)

modify_of_user_raises_example :
    (e : Error) × (handle_modify_order ⦃D = assoc_dict PriceLevel⦄ ⦃R = table_redis⦄
        (record { limit_price = some 80; stop_price = none })
        1
        start_state
      ≡ raised e start_state)
unfolding new_order
modify_of_user_raises_example =
    modify_of_user_raises ⦃D = assoc_dict PriceLevel⦄ ⦃R = table_redis⦄
      (record { limit_price = some 80; stop_price = none }) 1 0 start_state refl (λ e. omega arith)

market_order_raises_example :
    (s' : State ⦃D = assoc_dict PriceLevel⦄ ⦃R = table_redis⦄) × (single_new
        ⦃D = assoc_dict PriceLevel⦄ ⦃R = table_redis⦄ 9 market_dict start_state
      ≡ raised not_implemented s')
    × (s'.market ≡ ask_market)
    × (s'.order_store ≡ put empty_map 1 0)
    × (s'.redis ≡ no_tables)
    × (s'.log ≡ [])
market_order_raises_example =
    market_order_raises ⦃D = assoc_dict PriceLevel⦄ ⦃R = table_redis⦄ 9 market_dict start_state refl

oco_of_user_raises_example :
    (s' : State ⦃D = assoc_dict PriceLevel⦄ ⦃R = table_redis⦄) × (oco_new
        ⦃D = assoc_dict PriceLevel⦄ ⦃R = table_redis⦄
        (bid_dict ∷ ask_dict ∷ [])
        start_state
      ≡ raised type_error s')
    × (s'.market ≡ ask_market)
    × (s'.order_store ≡ put empty_map 1 0)
    × (s'.redis ≡ no_tables)
    × (s'.log ≡ [])
oco_of_user_raises_example =
    oco_of_user_raises ⦃D = assoc_dict PriceLevel⦄ ⦃R = table_redis⦄ bid_dict ask_dict start_state
      (λ e. omega arith)

-- The bid of user 7 rests in the book at 100.
abbrev resting_bid : BookOrder
resting_bid = record { ref = 0; id = 1; side = Side.bid }

abbrev bid_market : Market ⦃D = assoc_dict PriceLevel⦄
bid_market =
    state_of (OrderBook.append ⦃D = assoc_dict PriceLevel⦄ resting_bid (some 100) start_market)

abbrev bid_gone : Market ⦃D = assoc_dict PriceLevel⦄
bid_gone = state_of (OrderBook.remove ⦃D = assoc_dict PriceLevel⦄ resting_bid (some 100) bid_market)

abbrev bid_state : State ⦃D = assoc_dict PriceLevel⦄ ⦃R = table_redis⦄
bid_state = record start_state { market = bid_market }

bid_removed :
    OrderBook.remove ⦃D = assoc_dict PriceLevel⦄ resting_bid (some 100) bid_market
    ≡ done tt bid_gone
unfolding OrderBook.append append_at improve_best PriceLevel.append append_new link_last alloc
    set_next set_prev OrderBook.remove remove_at drop_level PriceLevel.remove unlink
bid_removed = refl

bid_order-IsOpenBid : IsOpenBid 0 100 bid_order
unfolding new_order holds_order
bid_order-IsOpenBid = record {
  bid = refl;
  limit = refl;
  at_price = refl;
  users = λ e. omega arith;
  unlinked = refl;
  unfilled = omega arith;
}

cancel_open_bid_example :
    (s' : State ⦃D = assoc_dict PriceLevel⦄ ⦃R = table_redis⦄) × (single_cancel
        ⦃D = assoc_dict PriceLevel⦄ ⦃R = table_redis⦄ 0 bid_state
      ≡ done tt s')
    × (s'.market ≡ bid_gone)
    × (s'.order_store 1 ≡ none)
    × (amount ⦃R = table_redis⦄ s'.redis (Key.cash_escrow 7) ≡ pos 0 -ℤ pos 500)
unfolding new_order
cancel_open_bid_example =
    cancel_open_bid ⦃D = assoc_dict PriceLevel⦄ ⦃R = table_redis⦄ 0 100 bid_gone bid_state
      bid_order-IsOpenBid bid_removed refl

available_cash_twice_example :
    (s' : State ⦃D = assoc_dict PriceLevel⦄ ⦃R = table_redis⦄) × (get_available_cash_balance
        ⦃D = assoc_dict PriceLevel⦄ ⦃R = table_redis⦄ 7 start_state
      ≡ done (pos 100_000_000 -ℤ pos 0) s')
    × (get_available_cash_balance ⦃D = assoc_dict PriceLevel⦄ ⦃R = table_redis⦄ 7 s'
        ≡ done (pos 100_000_000 -ℤ pos 0) s')
available_cash_twice_example =
    available_cash_twice ⦃D = assoc_dict PriceLevel⦄ ⦃R = table_redis⦄ 7 start_state
