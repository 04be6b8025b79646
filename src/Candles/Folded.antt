-- ===== src/Candles/Folded.antt =====
-- The bar that the trades of one period leave in `OHLCBuilder`
-- (src/services/ohlc_builder/service.py).
use spectuel_backend.Prelude.{
  ℕ, zero, suc, ◌<◌, ◌≡◌, refl, ◌∙◌, ◌≢◌, false, Option, none, some, List, [], ◌∷◌, if◌then◌else◌,
  ltb, ◌==◌, get-set_item, number_keyed, All, arith, map, ap, equal_refl,
}
use spectuel_backend.Enums.{TimeFrame}
use spectuel_backend.Candles.{
  Bar, Frames, Builder, Turn, update, new_bar, all_frames, frames_of, get_bar_timestamp, trade_bar,
  trade_frames, trade_on, handle_trade_event, take_turn, run_turns,
}
use spectuel_backend.Candles.Valid.{update_lem}

-- The largest, the smallest and the last of a price and a list of prices.
abbrev pub larger : ℕ → ℕ → ℕ
larger a b = if ltb a b then b else a

abbrev pub smaller : ℕ → ℕ → ℕ
smaller a b = if ltb b a then b else a

abbrev pub largest : ℕ → List (ℕ × ℕ) → ℕ
largest h [] = h
largest h ((p, t) ∷ ps) = larger h (largest p ps)

abbrev pub smallest : ℕ → List (ℕ × ℕ) → ℕ
smallest h [] = h
smallest h ((p, t) ∷ ps) = smaller h (smallest p ps)

abbrev pub last_price : ℕ → List (ℕ × ℕ) → ℕ
last_price c [] = c
last_price c ((p, t) ∷ ps) = last_price p ps

-- A bar with further trades, each a price and a time.
abbrev pub extended : Bar → List (ℕ × ℕ) → Bar
extended b ps = record {
  open_price = b.open_price;
  high = largest b.high ps;
  low = smallest b.low ps;
  close = last_price b.close ps;
  timestamp = b.timestamp;
}

abbrev pub traded_at : ℕ → ℕ × ℕ → Turn
traded_at symbol (price, t) =
    Turn.traded (record { symbol = some symbol; price = some price; timestamp = some t })

-- The trades have a price and a time, and lie in the period that starts at `start`.
abbrev pub InPeriod : TimeFrame → ℕ → List (ℕ × ℕ) → Type 0
InPeriod f start ps =
    All (λ (r : ℕ × ℕ). (0 < r.0) × (0 < r.1) × (get_bar_timestamp r.1 f ≡ start)) ps

larger_assoc : (a b c : ℕ) → larger (larger a b) c ≡ larger a (larger b c)
larger_assoc a b c = ground arith

smaller_assoc : (a b c : ℕ) → smaller (smaller a b) c ≡ smaller a (smaller b c)
smaller_assoc a b c = ground arith

largest_step : (h p : ℕ) (ps : List (ℕ × ℕ)) → largest (larger h p) ps ≡ larger h (largest p ps)
largest_step h p [] = refl
largest_step h p ((q, t) ∷ ps) = larger_assoc h p (largest q ps)

smallest_step :
    (h p : ℕ) (ps : List (ℕ × ℕ)) → smallest (smaller h p) ps ≡ smaller h (smallest p ps)
smallest_step h p [] = refl
smallest_step h p ((q, t) ∷ ps) = smaller_assoc h p (smallest q ps)

extended_step :
    (b : Bar) (p t : ℕ) (ps : List (ℕ × ℕ)) → extended (update p b) ps ≡ extended b ((p, t) ∷ ps)
extended_step b p t ps =
    rw (update_lem p b, largest_step b.high p ps, smallest_step b.low p ps) refl

-- Each frame is met once.
trade_frames_at :
    (price t : ℕ) (d : Frames) (f : TimeFrame)
    → trade_frames price t all_frames d f ≡ some (trade_bar price (get_bar_timestamp t f) (d f))
unfolding trade_frames
trade_frames_at price t d TimeFrame.m1 = refl
trade_frames_at price t d TimeFrame.m5 = refl
trade_frames_at price t d TimeFrame.m15 = refl
trade_frames_at price t d TimeFrame.h1 = refl
trade_frames_at price t d TimeFrame.h4 = refl
trade_frames_at price t d TimeFrame.d1 = refl

turn_bar :
    (symbol price t : ℕ) (f : TimeFrame) (s : Builder)
    → 0 < price
    → 0 < t
    → frames_of symbol (take_turn (traded_at symbol (price, t)) s) f
      ≡ some (trade_bar price (get_bar_timestamp t f) (frames_of symbol s f))
unfolding take_turn handle_trade_event trade_on
turn_bar symbol zero t f s p q = absurd (omega arith)
turn_bar symbol (suc price) zero f s p q = absurd (omega arith)
turn_bar symbol (suc price) (suc t) f s p q =
    let d = trade_frames (suc price) (suc t) all_frames (frames_of symbol s) in
    rw (get-set_item s.bars symbol d symbol, equal_refl symbol)
      (trade_frames_at (suc price) (suc t) (frames_of symbol s) f)

run_from :
    (symbol start : ℕ) (f : TimeFrame) (ps : List (ℕ × ℕ)) (b : Bar) (s : Builder)
    → frames_of symbol s f ≡ some b
    → b.timestamp ≡ start
    → InPeriod f start ps
    → frames_of symbol (run_turns (map (traded_at symbol) ps) s) f ≡ some (extended b ps)
unfolding trade_bar
run_from symbol start f [] b s at e i = at
run_from symbol start f ((p, t) ∷ ps) b s at e i =
    let q = i.0 in
    let now : frames_of symbol (take_turn (traded_at symbol (p, t)) s) f ≡ some (update p b) =
      turn_bar symbol p t f s q.0 q.1 ∙ rw (at, q.2) (same_bar b e) in
    run_from symbol start f ps (update p b) (take_turn (traded_at symbol (p, t)) s) now
      (ap (λ (c : Bar). c.timestamp) (update_lem p b) ∙ e) i.1
    ∙ rw (extended_step b p t ps) refl
  where
    same_bar :
        (b : Bar) → b.timestamp ≡ start → some (trade_bar p start (some b)) ≡ some (update p b)
    same_bar b e = rw (e, equal_refl start) refl

-- If a symbol has no bar of a time frame for the period that starts at some time, then trades of
-- the symbol, each with a price and a time in that period, leave a bar whose open is the first
-- price, whose high is the largest, whose low is the smallest and whose close is the last.
pub run_turns-extended :
    (symbol start p t : ℕ) (f : TimeFrame) (ps : List (ℕ × ℕ)) (s : Builder)
    → InPeriod f start ((p, t) ∷ ps)
    → ((b : Bar) → frames_of symbol s f ≡ some b → b.timestamp ≢ start)
    → frames_of symbol (run_turns (map (traded_at symbol) ((p, t) ∷ ps)) s) f
      ≡ some (extended (new_bar p start) ps)
unfolding trade_bar
run_turns-extended symbol start p t f ps s i fresh =
    let q = i.0 in
    let now : frames_of symbol (take_turn (traded_at symbol (p, t)) s) f ≡ some (new_bar p start) =
      turn_bar symbol p t f s q.0 q.1 ∙ rw q.2 (first_bar (frames_of symbol s f) fresh) in
    run_from symbol start f ps (new_bar p start) (take_turn (traded_at symbol (p, t)) s) now refl
      i.1
  where
    first_bar :
        (o : Option Bar)
        → ((b : Bar) → o ≡ some b → b.timestamp ≢ start)
        → some (trade_bar p start o) ≡ some (new_bar p start)
    first_bar none h = refl
    first_bar (some b) h =
        let other : (b.timestamp == start) ≡ false = ground (arith, h b refl) in rw other refl
