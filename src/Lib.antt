-- ===== src/Lib.antt =====
-- The matching engine of the spectuel backend (src/engine): a spot exchange that takes commands,
-- keeps an order book per instrument, matches orders of four strategies and settles the trades in
-- Redis.
--
-- The program and the files that model it.
--   * Prices and the book. `PriceLevel` (src/engine/orderbook/price_level.py and
--     price_level_node.py) is a doubly linked list of nodes with a tracker from order ids to nodes:
--     PriceLevel.antt, on a heap of nodes with explicit addresses. PriceLevel/Chain has the
--     invariant that a level and a heap hold a list of cells; Append, Unlink, Remove and Queue are
--     about the operations. `OrderBook` (src/engine/orderbook/orderbook.py) is OrderBook.antt, with
--     OrderBook/Best for the cached best prices. Crossing.antt has the two crossing tests of
--     src/engine/utils.py.
--   * Orders (src/engine/orders): Order.antt, one record for the four classes, whose links are
--     references to order objects in the state. Order/Fills is about the fills.
--   * Balances (src/engine/services/balance_manager.py): Balance.antt, with the Lua scripts in
--     Balance/Scripts. Balance/Once, Steps, Settle, Apart, Conserved and Residue are
--     about the scripts, Balance/Reads about the reads.
--   * The state: State.antt has the execution context (src/engine/execution_context.py), the order
--     store (src/engine/stores/order_store.py), the order objects, the balances and the log, and
--     calls that read it, write it and may raise. A run that raises keeps what it wrote before.
--     Logger.antt is src/engine/loggers/engine_logger.py with src/engine/decorators.py.
--   * The strategies (src/engine/strategies): Strategy.antt and its children have handle_filled,
--     handle_cancel and modify with the modify mixin; Placing.antt and its children have
--     handle_new, which calls the matching.
--   * The engine (src/engine/matching_engines/spot_engine.py): Matching.antt, with Matching/Check
--     and Matching/Trade, and Engine.antt for handle_command and its handlers. Engine/Refusals,
--     Engine/Raising and Engine/Unpriced are about commands that raise, Engine/Placed and
--     Engine/Cancelled about commands that succeed. run_commands is the loop of the orchestrator
--     (src/engine/engine_orchestrator/engine_orchestrator.py).
--   * What runs beside the engine. `OrderBookPublisher`
--     (src/services/orderbook_publisher/service.py) is Publisher.antt, which rebuilds the quantities
--     of the price levels from the events, with Publisher/Snapshot for the snapshots; Shown, Tracked,
--     Runs, Published and Top are about it. `OHLCBuilder` and `Bar` (src/services/ohlc_builder) are Candles.antt,
--     with Valid, Folded and Runs. The event handlers (src/services/event_handlers) are
--     Handlers/Orders and Handlers/Balances, on the tables of src/db_models.py that they read and
--     write; Handlers/Once is about events that come again.
--   * `HeartbeatServer` (src/engine/heartbeat/server.py) is Heartbeat.antt, a relation whose steps are
--     those of the connections' callbacks from one `await` to the next; Heartbeat/Alive is about
--     what they reach.
--   * The requests of the web API for new orders (src/api/routers/orders/models.py) are
--     Requests.antt; `OrderService` (src/api/routers/orders/service/service.py) is OrderService.antt,
--     with Mirrored for the rows and the command of a request.
--   * Snapshots.antt has to_dict and from_dict of a price level, of its nodes and of plain orders,
--     with Loaded and Levels. PriceLevel/Frame carries what is known of one level through changes
--     to another, and OrderBook/Chains with its children does so for all the levels of a book.
--   * Keeps.antt and its children go through all of that code once, for any predicate on states
--     that the single writes keep; Keeps/Matching/Bounds is a pass of its own, for quantities.
--   * Prelude.antt and its children have what the parts share, with dicts as association lists in
--     Prelude/Dicts. Tests.antt and its children hold concrete data.
-- A command reaches Engine, which asks the store for the order and calls the strategy; the strategy
-- calls the book, the store, the logger and, to place an order, the matching, which calls back into
-- the strategies of the orders that it fills or cancels. The log of its events feeds the publisher,
-- the candles and the event handlers; the orders' service feeds commands to the engine.
--
-- Choices of the model.
--   * Prices are whole ticks and quantities whole hundredths of a unit, both on the natural numbers,
--     and amounts of money are exact integers, where the source has floats. An average price is a
--     quotient that is not carried out.
--   * `SortedDict` of the package sortedcontainers is an interface with its documented laws
--     (Sorted.antt), and Redis another (Redis.antt); Sorted/Assoc and Redis/Table show that both
--     can be met. Redis keys are the templates of the key functions with their parts, so keys of
--     two templates are two keys.
--   * `uuid4` draws from a counter. The log is the list of the events that were sent to
--     Kafka, and of those of commands that the hook was called with.
--   * An exception is a value of `Error`. What a Python dict holds where a field may be missing is
--     an `Option`.
--   * The loops over price levels and over the orders of a level take fuel, one unit for each round
--     and each order; the error `out_of_fuel` marks a run that was cut short. The
--     statements about commands are about every fuel, and so about runs that are cut short too.
--   * Saving and loading a level walk its nodes with fuel, and as many units as there are nodes are
--     enough.
--   * The session of a handler commits or rolls back a whole event; primary keys that are already
--     there make it roll back.
--
-- Not modelled: snapshots of linked orders, of the order store and of the whole book; the shadow
-- engine and the restoration; the start of processes, the timers and the client of the heartbeats;
-- the routers of the web API and its web sockets, accounts and mail; and all input and output.
pub mod Prelude
pub mod Sorted
pub mod Errors
pub mod Enums
pub mod PriceLevel
pub mod OrderBook
pub mod Redis
pub mod Requests
pub mod Order
pub mod State
pub mod Logger
pub mod Balance
pub mod Crossing
pub mod Strategy
pub mod Matching
pub mod Placing
pub mod Engine
pub mod Keeps
pub mod Publisher
pub mod Candles
pub mod Handlers
pub mod Heartbeat
pub mod Snapshots
pub mod OrderService
pub mod Tests
