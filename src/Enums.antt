-- ===== src/Enums.antt =====
-- The enumerations of src/engine/enums.py and src/engine/events/enums.py that the engine
-- branches on.
use spectuel_backend.Prelude.{ℕ, ◌*◌, Bool, true, false}

pub data Side : Type 0 where
  bid ask : Side

pub data OrderType : Type 0 where
  market limit stop : OrderType

pub data StrategyType : Type 0 where
  single oco oto otoco : StrategyType

pub data LiquidityRole : Type 0 where
  maker taker : LiquidityRole

pub data OrderStatus : Type 0 where
  pending placed partially_filled filled cancelled : OrderStatus

pub data MatchOutcome : Type 0 where
  failure partial success insufficient_balance : MatchOutcome

pub data OrderEventType : Type 0 where
  order_placed order_partially_filled order_filled order_modified : OrderEventType
  order_modify_rejected order_cancelled : OrderEventType

pub data TimeFrame : Type 0 where
  m1 m5 m15 h1 h4 d1 : TimeFrame

abbrev pub is_bid : Side → Bool
is_bid Side.bid = true
is_bid Side.ask = false

abbrev pub opposite : Side → Side
opposite Side.bid = Side.ask
opposite Side.ask = Side.bid

abbrev pub is_limit : OrderType → Bool
is_limit OrderType.limit = true
is_limit _ = false

abbrev pub is_stop : OrderType → Bool
is_stop OrderType.stop = true
is_stop _ = false

-- `TimeFrame.get_seconds`
unfoldable pub get_seconds : TimeFrame → ℕ
get_seconds TimeFrame.m1 = 1 * 60
get_seconds TimeFrame.m5 = 5 * 60
get_seconds TimeFrame.m15 = 15 * 60
get_seconds TimeFrame.h1 = 1 * 3600
get_seconds TimeFrame.h4 = 4 * 3600
get_seconds TimeFrame.d1 = 1 * 86400
