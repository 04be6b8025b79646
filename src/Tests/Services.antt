-- ===== src/Tests/Services.antt =====
-- Events of a command that trades twice and a request of the web API, and the theorems at them.
use spectuel_backend.Prelude.{◌≡◌, refl, none, some, [], ◌∷◌}
use spectuel_backend.Prelude.Int.{pos}
use spectuel_backend.Errors.{done}
use spectuel_backend.Enums.{Side, OrderType, StrategyType, OrderStatus, OrderEventType}
use spectuel_backend.Handlers.Orders.{OrderMessage, OrderTables, handle_order_event}
use spectuel_backend.Handlers.Balances.{
  BalanceMessage, BalanceTables, BalanceEventType, handle_balance_event,
}
use spectuel_backend.Handlers.Once.{
  handle_order_event_twice, handle_balance_event_twice, second_settlement_dropped,
}
use spectuel_backend.Requests.{OrderBase, Details, is_valid, is_valid_base}
use spectuel_backend.OrderService.{NewOrderCommand, Session, create}
use spectuel_backend.OrderService.Mirrored.{IsMirrored, create-IsMirrored}

abbrev filled : OrderMessage
filled = record {
  id = 50;
  type_of = OrderEventType.order_filled;
  order_id = 1;
  command_id = 20;
  symbol = some 0;
  order_executed_quantity = some 5;
  limit_price = none;
  stop_price = none;
}

abbrev order_tables : OrderTables
order_tables = record {
  orders = λ i. some (record {
    user_id = 7;
    symbol = 0;
    status = OrderStatus.placed;
    executed_quantity = 0;
    limit_price = some 100;
    stop_price = none;
  });
  order_events = [];
  event_logs = [];
}

handle_order_event_twice_example :
    handle_order_event filled (handle_order_event filled order_tables)
    ≡ handle_order_event filled order_tables
handle_order_event_twice_example = handle_order_event_twice filled order_tables

abbrev first_bid : BalanceMessage
first_bid = record {
  id = 60;
  type_of = BalanceEventType.bid_settled;
  user_id = 7;
  command_id = 20;
  symbol = 0;
  amount = 3;
}

-- The same command settles a second trade.
abbrev second_bid : BalanceMessage
second_bid = record first_bid { id = 61; amount = 2 }

abbrev balance_tables : BalanceTables
balance_tables = record {
  instruments = λ s. some 0;
  asset_balances = λ i u. some (record { balance = pos 10; escrow_balance = pos 0 });
  balance_events = [];
  event_logs = [];
}

handle_balance_event_twice_example :
    handle_balance_event first_bid (handle_balance_event first_bid balance_tables)
    ≡ handle_balance_event first_bid balance_tables
handle_balance_event_twice_example = handle_balance_event_twice first_bid balance_tables

second_settlement_dropped_example :
    handle_balance_event second_bid (handle_balance_event first_bid balance_tables)
    ≡ handle_balance_event first_bid balance_tables
second_settlement_dropped_example =
    second_settlement_dropped first_bid second_bid balance_tables refl refl refl refl refl

abbrev requested : Details
requested =
    let parent : OrderBase = record {
      order_type = OrderType.limit;
      side = Side.bid;
      quantity = pos 500;
      limit_price = some 90;
      stop_price = none;
    } in
    let target = record parent { side = Side.ask; limit_price = some 110 } in
    let stop = record target {
      order_type = OrderType.stop;
      limit_price = none;
      stop_price = some 80;
    } in
    Details.otoco_order 0 parent (target ∷ stop ∷ [])

create-IsMirrored_example :
    (command : NewOrderCommand) × (s : Session) × (create StrategyType.otoco requested 7 100
      ≡ done command s)
    × IsMirrored 100 command s
unfolding is_valid is_valid_base
create-IsMirrored_example = create-IsMirrored StrategyType.otoco requested 7 100 refl refl
