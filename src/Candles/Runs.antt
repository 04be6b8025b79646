-- ===== src/Candles/Runs.antt =====
-- Well-formed bars through the turns of `OHLCBuilder`
-- (src/services/ohlc_builder/service.py).
use spectuel_backend.Prelude.{
  ℕ, Option, none, some, List, [], ◌∷◌, ◌==◌, get_item, set_item, number_keyed, All, Bool-cases,
  Option-cases, inl, inr, ◌||◌,
}
use spectuel_backend.Enums.{TimeFrame}
use spectuel_backend.Candles.{
  Frames, BarUpdate, Builder, Turn, put_frame, all_frames, frames_or_new, frames_of,
  get_bar_timestamp, trade_bar, trade_frames, snapshots, send_all, is_falsy, trade_on, trade_fields,
  handle_trade_event, roll, roll_all, is_empty, persist_and_emit_bars, take_turn, run_turns,
}
use spectuel_backend.Candles.Valid.{
  FramesValid, UpdatesValid, BuilderValid, trade_bar-BarValid, put_frame-FramesValid, roll-BarValid,
  get_bar_timestamp-aligned,
}

trade_frames-FramesValid :
    (price t : ℕ) (fs : List TimeFrame) (d : Frames)
    → FramesValid d
    → FramesValid (trade_frames price t fs d)
unfolding trade_frames
trade_frames-FramesValid price t [] d v = v
trade_frames-FramesValid price t (f ∷ fs) d v =
    let b = trade_bar price (get_bar_timestamp t f) (d f) in
    trade_frames-FramesValid price t fs (put_frame f b d) (
      put_frame-FramesValid f b d
        (trade_bar-BarValid f price (get_bar_timestamp t f) (d f) (get_bar_timestamp-aligned t f)
          (v f))
        v)

UpdatesValid-snapshots :
    (symbol : ℕ) (fs : List TimeFrame) (d : Frames)
    → FramesValid d
    → UpdatesValid (snapshots symbol fs d)
UpdatesValid-snapshots symbol [] d v = tt
UpdatesValid-snapshots symbol (f ∷ fs) d v = elim (Option-cases (d f)) [
  | inl missing ↦ rw (snapshots, missing) (UpdatesValid-snapshots symbol fs d v)
  | inr (b, found) ↦ rw (snapshots, found) (v f b found, UpdatesValid-snapshots symbol fs d v)
]

UpdatesValid-send_all :
    (us sent : List BarUpdate)
    → UpdatesValid us
    → UpdatesValid sent
    → UpdatesValid (send_all us sent)
UpdatesValid-send_all [] sent v w = w
UpdatesValid-send_all (u ∷ us) sent v w = UpdatesValid-send_all us (u ∷ sent) v.1 (v.0, w)

AllFrames : List (ℕ × Frames) → Type 0
AllFrames bars = All (λ (r : ℕ × Frames). FramesValid r.1) bars

frames_or_new-FramesValid :
    (bars : List (ℕ × Frames)) (symbol : ℕ)
    → AllFrames bars
    → FramesValid (frames_or_new (get_item bars symbol))
unfolding AllFrames
frames_or_new-FramesValid [] symbol v = λ f b e. absurd (cc)
frames_or_new-FramesValid ((k, d) ∷ bars) symbol v = elim (Bool-cases (symbol == k)) [
  | inl hit ↦ rw hit v.0
  | inr miss ↦ rw miss (frames_or_new-FramesValid bars symbol v.1)
]

AllFrames-set_item :
    (bars : List (ℕ × Frames)) (symbol : ℕ) (d : Frames)
    → FramesValid d
    → AllFrames bars
    → AllFrames (set_item symbol d bars)
unfolding AllFrames
AllFrames-set_item [] symbol d v w = (v, tt)
AllFrames-set_item ((k, e) ∷ bars) symbol d v w = elim (Bool-cases (symbol == k)) [
  | inl hit ↦ rw hit (v, w.1)
  | inr miss ↦ rw miss (w.0, AllFrames-set_item bars symbol d v w.1)
]

trade_on-BuilderValid :
    (symbol price t : ℕ) (s : Builder) → BuilderValid s → BuilderValid (trade_on symbol price t s)
unfolding trade_on AllFrames
trade_on-BuilderValid symbol price t s v =
    let d = trade_frames price t all_frames (frames_of symbol s) in
    let valid =
      trade_frames-FramesValid price t all_frames (frames_of symbol s)
        (frames_or_new-FramesValid s.bars symbol v.kept) in
    record {
      kept = AllFrames-set_item s.bars symbol d valid v.kept;
      sent_valid =
          UpdatesValid-send_all (snapshots symbol all_frames d) s.sent
            (UpdatesValid-snapshots symbol all_frames d valid) v.sent_valid;
      inserted_valid = v.inserted_valid;
    }

trade_fields-BuilderValid :
    (symbol price t : Option ℕ) (s : Builder)
    → BuilderValid s
    → BuilderValid (trade_fields symbol price t s)
trade_fields-BuilderValid none price t s v = v
trade_fields-BuilderValid (some symbol) none t s v = v
trade_fields-BuilderValid (some symbol) (some price) none s v = v
trade_fields-BuilderValid (some symbol) (some price) (some t) s v =
    elim (Bool-cases (is_falsy (some price) || is_falsy (some t))) [
      | inl falsy ↦ rw falsy v
      | inr all ↦ rw all (trade_on-BuilderValid symbol price t s v)
    ]

roll_all-valid :
    (f : TimeFrame) (bars : List (ℕ × Frames))
    → AllFrames bars
    → AllFrames (roll_all f bars).0 × UpdatesValid (roll_all f bars).1
unfolding roll_all AllFrames
roll_all-valid f [] v = (tt, tt)
roll_all-valid f ((symbol, d) ∷ bars) v =
    let (rolled, taken) = roll_all-valid f bars v.1 in
    elim (Option-cases (d f)) [
      | inl missing ↦ rw (roll_all, missing) ((v.0, rolled), taken)
      | inr (b, found) ↦
          let valid = v.0 f b found in
          rw (roll_all, found)
            (
              (put_frame-FramesValid f (roll f b) d (roll-BarValid f b valid) v.0, rolled),
              (valid, taken),
            )
    ]

persist-BuilderValid :
    (f : TimeFrame) (s : Builder) → BuilderValid s → BuilderValid (persist_and_emit_bars f s)
unfolding persist_and_emit_bars AllFrames
persist-BuilderValid f s v =
    let (rolled, taken) = roll_all-valid f s.bars v.kept in
    elim (Bool-cases (is_empty (roll_all f s.bars).1)) [
      | inl nothing ↦
          rw nothing
            (record { kept = rolled; sent_valid = v.sent_valid; inserted_valid = v.inserted_valid })
      | inr some_taken ↦ rw some_taken (record {
        kept = rolled;
        sent_valid = UpdatesValid-send_all (roll_all f s.bars).1 s.sent taken v.sent_valid;
        inserted_valid = (taken, v.inserted_valid);
      })
    ]

-- Whatever trades come and whatever periods end, if every bar that is kept, was sent or was
-- inserted is well formed, it stays so for the bars after: the low is at most the open and the
-- close, the high at least, and the timestamp is a multiple of the period.
pub run_turns-BuilderValid :
    (ts : List Turn) (s : Builder) → BuilderValid s → BuilderValid (run_turns ts s)
unfolding take_turn handle_trade_event
run_turns-BuilderValid [] s v = v
run_turns-BuilderValid (Turn.traded m ∷ ts) s v =
    run_turns-BuilderValid ts (handle_trade_event m s)
      (trade_fields-BuilderValid m.symbol m.price m.timestamp s v)
run_turns-BuilderValid (Turn.period_over f ∷ ts) s v =
    run_turns-BuilderValid ts (persist_and_emit_bars f s) (persist-BuilderValid f s v)
