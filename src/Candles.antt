-- ===== src/Candles.antt =====
-- `Bar` and `OHLCBuilder` (src/services/ohlc_builder/models.py and service.py): the bars of each
-- symbol and time frame, updated by trades and rolled over at the end of a period. Prices are
-- whole ticks. The locks, the Kafka clients and the sleeping are left out; what is sent and what is
-- inserted in the database is recorded, the latest first.

pub mod Valid
pub mod Folded
pub mod Runs
use spectuel_backend.Prelude.{
  ℕ, zero, suc, ◌+◌, ◌*◌, ◌/◌, Bool, true, false, ◌&&◌, ◌||◌, Option, none, some, List, [], ◌∷◌,
  ◌++◌, if◌then◌else◌, ltb, ◌==◌, get_item, set_item, number_keyed, map,
}
use spectuel_backend.Enums.{TimeFrame, get_seconds}

-- `open_price` is the source's `open`.
pub record Bar : Type 0 where
  pub open_price : ℕ
  pub high : ℕ
  pub low : ℕ
  pub close : ℕ
  pub timestamp : ℕ

-- `Bar.update`
unfoldable pub update : ℕ → Bar → Bar
update price b =
    let b1 = if ltb b.high price then record b { high = price } else b in
    let b2 = if ltb price b1.low then record b1 { low = price } else b1 in
    record b2 { close = price }

-- A bar of one price.
abbrev pub new_bar : ℕ → ℕ → Bar
new_bar price timestamp = record {
  open_price = price;
  high = price;
  low = price;
  close = price;
  timestamp = timestamp;
}

-- The bars of a symbol, by time frame.
abbrev pub Frames : Type 0
Frames = TimeFrame → Option Bar

-- The place of a time frame in the enumeration, which tells two apart.
abbrev pub place : TimeFrame → ℕ
place TimeFrame.m1 = 0
place TimeFrame.m5 = 1
place TimeFrame.m15 = 2
place TimeFrame.h1 = 3
place TimeFrame.h4 = 4
place TimeFrame.d1 = 5

abbrev pub same_frame : TimeFrame → TimeFrame → Bool
same_frame f g = place f == place g

abbrev pub no_frames : Frames
no_frames f = none

abbrev pub put_frame : TimeFrame → Bar → Frames → Frames
put_frame f b d g = if same_frame g f then some b else d g

-- `for timeframe in TimeFrame`
abbrev pub all_frames : List TimeFrame
all_frames =
    TimeFrame.m1 ∷ TimeFrame.m5 ∷ TimeFrame.m15 ∷ TimeFrame.h1 ∷ TimeFrame.h4 ∷ TimeFrame.d1 ∷ []

-- `BarUpdateEvent`, and a record of the insertion
pub record BarUpdate : Type 0 where
  pub symbol : ℕ
  pub timeframe : TimeFrame
  pub bar : Bar

pub record Builder : Type 0 where
  pub bars : List (ℕ × Frames)
  pub sent : List BarUpdate
  pub inserted : List (List BarUpdate)

abbrev pub frames_or_new : Option Frames → Frames
frames_or_new none = no_frames
frames_or_new (some d) = d

-- `self._bars[symbol]`
abbrev pub frames_of : ℕ → Builder → Frames
frames_of symbol s = frames_or_new (get_item s.bars symbol)

-- `_get_bar_timestamp`
unfoldable pub get_bar_timestamp : ℕ → TimeFrame → ℕ
get_bar_timestamp timestamp f = timestamp / get_seconds f * get_seconds f

-- The round of `_handle_trade_event` for one time frame: the bar that the frame has after it.
unfoldable pub trade_bar : ℕ → ℕ → Option Bar → Bar
unfolding update
trade_bar price bar_timestamp none = new_bar price bar_timestamp
trade_bar price bar_timestamp (some b) =
    if b.timestamp == bar_timestamp then update price b else new_bar price bar_timestamp

unfoldable pub trade_frames : ℕ → ℕ → List TimeFrame → Frames → Frames
unfolding trade_bar get_bar_timestamp
trade_frames price timestamp [] d = d
trade_frames price timestamp (f ∷ fs) d =
    trade_frames price timestamp fs
      (put_frame f (trade_bar price (get_bar_timestamp timestamp f) (d f)) d)

-- The snapshots of the frames that have a bar.
abbrev pub snapshots : ℕ → List TimeFrame → Frames → List BarUpdate
snapshots symbol [] d = []
snapshots symbol (f ∷ fs) d =
    let rest = snapshots symbol fs d in
    elim (d f) [ none ↦ rest | some b ↦ record { symbol = symbol; timeframe = f; bar = b } ∷ rest ]

abbrev pub send_all : List BarUpdate → List BarUpdate → List BarUpdate
send_all [] sent = sent
send_all (u ∷ us) sent = send_all us (u ∷ sent)

-- The fields of the message of a trade, which may be missing.
pub record TradeMessage : Type 0 where
  pub symbol : Option ℕ
  pub price : Option ℕ
  pub timestamp : Option ℕ

-- `not x`, for a number that may be missing
abbrev pub is_falsy : Option ℕ → Bool
is_falsy none = true
is_falsy (some zero) = true
is_falsy (some (suc n)) = false

unfoldable pub trade_on : ℕ → ℕ → ℕ → Builder → Builder
unfolding trade_frames
trade_on symbol price timestamp s =
    let d = trade_frames price timestamp all_frames (frames_of symbol s) in
    record s {
      bars = set_item symbol d s.bars;
      sent = send_all (snapshots symbol all_frames d) s.sent;
    }

abbrev pub trade_fields : Option ℕ → Option ℕ → Option ℕ → Builder → Builder
trade_fields (some symbol) (some price) (some timestamp) s =
    if is_falsy (some price) || is_falsy (some timestamp)
    then s
    else trade_on symbol price timestamp s
trade_fields _ _ _ s = s

-- `_handle_trade_event`: a symbol is a string, told apart by a number, and is missing or not empty
unfoldable pub handle_trade_event : TradeMessage → Builder → Builder
unfolding trade_on
handle_trade_event m s = trade_fields m.symbol m.price m.timestamp s

-- The writes of `_persist_and_emit_bars` to a bar: it starts the next period at its close.
unfoldable pub roll : TimeFrame → Bar → Bar
roll f b = record {
  timestamp = b.timestamp + get_seconds f;
  open_price = b.close;
  close = b.close;
  high = b.close;
  low = b.close;
}

-- The loop of `_persist_and_emit_bars` over the symbols: the bars after it, and the snapshots.
unfoldable pub roll_all : TimeFrame → List (ℕ × Frames) → List (ℕ × Frames) × List BarUpdate
unfolding roll
roll_all f [] = ([], [])
roll_all f ((symbol, d) ∷ bars) =
    let (rolled, taken) = roll_all f bars in
    elim (d f) [
      | none ↦ ((symbol, d) ∷ rolled, taken)
      | some b ↦ (
        (symbol, put_frame f (roll f b) d) ∷ rolled,
        record { symbol = symbol; timeframe = f; bar = b } ∷ taken,
      )
    ]

abbrev pub is_empty : List BarUpdate → Bool
is_empty [] = true
is_empty (u ∷ us) = false

-- `_persist_and_emit_bars`, where the insertion succeeds
unfoldable pub persist_and_emit_bars : TimeFrame → Builder → Builder
unfolding roll_all
persist_and_emit_bars f s =
    let (rolled, taken) = roll_all f s.bars in
    if is_empty taken
    then record s { bars = rolled }
    else record s { bars = rolled; inserted = taken ∷ s.inserted; sent = send_all taken s.sent }

-- What the builder's tasks do in turn.
pub data Turn : Type 0 where
  traded : TradeMessage → Turn
  period_over : TimeFrame → Turn

unfoldable pub take_turn : Turn → Builder → Builder
unfolding handle_trade_event persist_and_emit_bars
take_turn (Turn.traded m) s = handle_trade_event m s
take_turn (Turn.period_over f) s = persist_and_emit_bars f s

abbrev pub run_turns : List Turn → Builder → Builder
run_turns [] s = s
run_turns (t ∷ ts) s = run_turns ts (take_turn t s)
