-- ===== src/Heartbeat.antt =====
-- The heartbeat server (src/engine/heartbeat/server.py): its dict of symbols, the callbacks of its
-- connections and the statuses of the instruments. A callback runs from one `await` to the next in
-- one step, and the steps of the connections come in any order. Times are whole numbers.
pub mod Alive
use spectuel_backend.Prelude.{ℕ, ◌≡◌, Option, none, some, write, put, drop_key, empty_map}

-- `InstrumentStatus`
pub data InstrumentStatus : Type 0 where
  dead : InstrumentStatus
  alive : InstrumentStatus

-- Where the callback of a connection stands.
pub data Phase : Type 0 where
  -- no connection yet
  absent : Phase
  -- `_handle_register` awaits a line
  registering : Phase
  -- registered, and the status is being set to alive
  opening : (symbol : ℕ) → (last_message_ts : ℕ) → Phase
  -- the loop awaits a line
  listening : (symbol : ℕ) → (last_message_ts : ℕ) → Phase
  -- the status is being set to dead
  closing : (symbol : ℕ) → Phase
  -- the callback has returned
  closed : Phase
  -- the callback has ended by an exception before the registration or in the `finally`
  failed : Phase
  -- the callback has ended by an exception between the registration and the `try`
  abandoned : (symbol : ℕ) → Phase

pub record Server : Type 0 where
  pub conns : ℕ → Phase
  -- `_symbols`
  pub symbols : ℕ → Option ℕ
  -- of the rows of `Instruments`, by symbol
  pub statuses : ℕ → Option InstrumentStatus

-- The server after `__init__`, on a table of instruments.
unfoldable pub new_server : (ℕ → Option InstrumentStatus) → Server
new_server statuses = record { conns = λ c. Phase.absent; symbols = empty_map; statuses = statuses }

unfoldable pub set_phase : ℕ → Phase → Server → Server
set_phase c p s = record s { conns = write s.conns c p }

-- `_handle_register` on a valid message
unfoldable pub register : ℕ → ℕ → ℕ → Server → Server
register c symbol now s = record {
  conns = write s.conns c (Phase.opening symbol now);
  symbols = put s.symbols symbol c;
  statuses = s.statuses;
}

-- The update of one row, if there is one
abbrev pub updated : InstrumentStatus → Option InstrumentStatus → Option InstrumentStatus
updated status none = none
updated status (some old) = some status

-- `_set_instrument_status`, after which the callback stands at `p`
unfoldable pub set_instrument_status : ℕ → Phase → ℕ → InstrumentStatus → Server → Server
set_instrument_status c p symbol status s = record {
  conns = write s.conns c p;
  symbols = s.symbols;
  statuses = write s.statuses symbol (updated status (s.statuses symbol));
}

-- The `finally` of `_client_conn_cb`, up to its first `await`
unfoldable pub tear_down : ℕ → ℕ → Server → Server
tear_down c symbol s = record {
  conns = write s.conns c (Phase.closing symbol);
  symbols = drop_key s.symbols symbol;
  statuses = s.statuses;
}

-- One step of one connection, from one `await` to the next.
pub data Step : Server → Server → Type 0 where
  connected :
      (s : Server) (c : ℕ) → s.conns c ≡ Phase.absent → Step s (set_phase c Phase.registering s)
  registered :
      (s : Server) (c symbol now : ℕ)
      → s.conns c ≡ Phase.registering
      → Step s (register c symbol now s)
  -- a timeout, a cancellation or a `ValidationError`: the writer is closed
  refused :
      (s : Server) (c : ℕ) → s.conns c ≡ Phase.registering → Step s (set_phase c Phase.closed s)
  -- a line that is no JSON object
  register_failed :
      (s : Server) (c : ℕ) → s.conns c ≡ Phase.registering → Step s (set_phase c Phase.failed s)
  opened :
      (s : Server) (c symbol ts : ℕ)
      → s.conns c ≡ Phase.opening symbol ts
      → Step s (set_instrument_status c (Phase.listening symbol ts) symbol InstrumentStatus.alive s)
  -- the update of the database raises or is cancelled
  open_failed :
      (s : Server) (c symbol ts : ℕ)
      → s.conns c ≡ Phase.opening symbol ts
      → Step s (set_phase c (Phase.abandoned symbol) s)
  -- a heartbeat; a message of another type changes nothing
  heartbeat :
      (s : Server) (c symbol ts now : ℕ)
      → s.conns c ≡ Phase.listening symbol ts
      → Step s (set_phase c (Phase.listening symbol now) s)
  -- a timeout, the end of the stream, a cancellation or an exception of the loop
  ended :
      (s : Server) (c symbol ts : ℕ)
      → s.conns c ≡ Phase.listening symbol ts
      → Step s (tear_down c symbol s)
  returned :
      (s : Server) (c symbol : ℕ)
      → s.conns c ≡ Phase.closing symbol
      → Step s (set_instrument_status c Phase.closed symbol InstrumentStatus.dead s)
  close_failed :
      (s : Server) (c symbol : ℕ)
      → s.conns c ≡ Phase.closing symbol
      → Step s (set_phase c Phase.failed s)

-- The servers that are reached by steps.
pub data Reach (s : Server) : Server → Type 0 where
  here : Reach s s
  next : {t u : Server} → Reach s t → Step t u → Reach s u
