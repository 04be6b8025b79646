-- ===== src/Tests/Feeds.antt =====
-- A feed of one instrument, and the theorems on the publisher and the candles at it.
use spectuel_backend.Prelude.{◌≤◌, ◌≡◌, refl, none, some, List, [], ◌∷◌, arith, map}
use spectuel_backend.Errors.{ok}
use spectuel_backend.Enums.{Side, OrderType, OrderStatus, LiquidityRole, TimeFrame, get_seconds}
use spectuel_backend.Candles.{Builder, Turn, run_turns, frames_of, get_bar_timestamp}
use spectuel_backend.Candles.Valid.{BuilderValid}
use spectuel_backend.Candles.Runs.{run_turns-BuilderValid}
use spectuel_backend.Candles.Folded.{traded_at, run_turns-extended}
use spectuel_backend.Publisher.{
  BookState, OrderInfo, OrderData, OrderRow, Message, consume_all, rehydrate_state, empty_publisher,
  consume, handle_order_placed, handle_order_cancelled, handle_trade, add_order, increment_level,
  decrement_level,
}
use spectuel_backend.Publisher.Tracked.{Tracked}
use spectuel_backend.Publisher.Runs.{published-Tracked}
use spectuel_backend.Publisher.Snapshot.{SnapshotEvent, IsTop, publish_snapshot}
use spectuel_backend.Publisher.Published.{published-IsTop}

abbrev bid_data : OrderData
bid_data = record {
  quantity = 5;
  executed_quantity = 2;
  limit_price = some 100;
  stop_price = none;
  side = Side.bid;
}

-- Order 1 comes from the table; order 2 is placed, traded in part, and order 1 is cancelled.
abbrev rows : List OrderRow
rows =
    record {
      order_id = 1;
      symbol = 0;
      status = OrderStatus.placed;
      order_type = OrderType.limit;
      terms = bid_data;
    }
    ∷ []

abbrev messages : List Message
messages =
    Message.order_placed 0 2 bid_data
    ∷ Message.new_trade 0 2 LiquidityRole.maker 1
    ∷ Message.order_cancelled 0 1
    ∷ []

published-Tracked_example :
    Tracked (λ i. 0) (consume_all messages (rehydrate_state rows empty_publisher))
unfolding rehydrate_state consume handle_order_placed handle_order_cancelled handle_trade add_order
    increment_level decrement_level
published-Tracked_example =
    published-Tracked (λ i. 0) rows messages (refl, tt, tt)
      ((refl, refl), ((refl, within), (refl, tt)))
  where
    within :
        (i : OrderInfo)
        → some (record { price = some 100; side = Side.bid; remaining_qty = 3 }) ≡ some i
        → 1 ≤ i.remaining_qty
    within i e =
        let r : record { price = some 100; side = Side.bid; remaining_qty = 3 } ≡ i = cc in
        rw (← r) (omega arith)

abbrev two_bids : BookState
two_bids = record { bids = (some 90, 4) ∷ (some 100, 3) ∷ []; asks = [] }

published-IsTop_example :
    (s : SnapshotEvent) × (publish_snapshot 0 two_bids ≡ ok s)
    × IsTop Side.bid ((some 90, 4) ∷ (some 100, 3) ∷ []) s.bids
    × IsTop Side.ask [] s.asks
published-IsTop_example = published-IsTop 0 two_bids (refl, (refl, tt)) tt (refl, (refl, tt)) tt

abbrev no_bars : Builder
no_bars = record { bars = []; sent = []; inserted = [] }

-- Two trades in the first minute, the end of that minute, and a trade in the second.
abbrev turns : List Turn
turns =
    traded_at 0 (100, 61)
    ∷ traded_at 0 (97, 90)
    ∷ Turn.period_over TimeFrame.m1
    ∷ traded_at 0 (98, 125)
    ∷ []

run_turns-BuilderValid_example : BuilderValid (run_turns turns no_bars)
run_turns-BuilderValid_example =
    run_turns-BuilderValid turns no_bars
      (record { kept = tt; sent_valid = tt; inserted_valid = tt })

run_turns-extended_example :
    frames_of 0 (run_turns (map (traded_at 0) ((100, 61) ∷ (97, 90) ∷ [])) no_bars) TimeFrame.m1
    ≡ some (record { open_price = 100; high = 100; low = 97; close = 97; timestamp = 60 })
unfolding get_bar_timestamp get_seconds
run_turns-extended_example =
    run_turns-extended 0 60 100 61 TimeFrame.m1 ((97, 90) ∷ []) no_bars
      ((omega arith, omega arith, refl), ((omega arith, omega arith, refl), tt))
      (λ b e. absurd (cc))
