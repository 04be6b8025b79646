-- ===== src/Candles/Valid.antt =====
-- The bars of `OHLCBuilder` (src/services/ohlc_builder/service.py) are well formed, those that it
-- keeps, sends and inserts.
use spectuel_backend.Prelude.{
  ℕ, suc, ◌*◌, ◌/◌, ◌≤◌, ◌≡◌, refl, sym, ◌∙◌, true, Option, none, some, List, if◌then◌else◌, ltb,
  ◌==◌, number_keyed, All, arith, Bool-cases, inl, inr, ap, equal_eq, get_elem?,
}
use spectuel_backend.Enums.{TimeFrame, get_seconds}
use spectuel_backend.Candles.{
  Bar, Frames, BarUpdate, Builder, update, new_bar, same_frame, place, put_frame, all_frames,
  get_bar_timestamp, trade_bar, roll,
}

-- The first and the last price lie between the lowest and the highest, and the bar starts at a
-- multiple of its period.
pub record BarValid (f : TimeFrame) (b : Bar) : Type 0 where
  pub low_open : b.low ≤ b.open_price
  pub open_high : b.open_price ≤ b.high
  pub low_close : b.low ≤ b.close
  pub close_high : b.close ≤ b.high
  pub aligned : (k : ℕ) × (b.timestamp ≡ k * get_seconds f)

abbrev pub FramesValid : Frames → Type 0
FramesValid d = (f : TimeFrame) (b : Bar) → d f ≡ some b → BarValid f b

abbrev pub UpdatesValid : List BarUpdate → Type 0
UpdatesValid us = All (λ (u : BarUpdate). BarValid u.timeframe u.bar) us

-- Every bar that is kept, was sent or was inserted is well formed.
pub record BuilderValid (s : Builder) : Type 0 where
  pub kept : All (λ (r : ℕ × Frames). FramesValid r.1) s.bars
  pub sent_valid : UpdatesValid s.sent
  pub inserted_valid : All UpdatesValid s.inserted

pub get_bar_timestamp-aligned :
    (t : ℕ) (f : TimeFrame) → (k : ℕ) × (get_bar_timestamp t f ≡ k * get_seconds f)
unfolding get_bar_timestamp
get_bar_timestamp-aligned t f = (t / get_seconds f, refl)

new_bar-BarValid :
    (f : TimeFrame) (price t : ℕ) → (k : ℕ) × (t ≡ k * get_seconds f) → BarValid f (new_bar price t)
new_bar-BarValid f price t a = record {
  low_open = omega arith;
  open_high = omega arith;
  low_close = omega arith;
  close_high = omega arith;
  aligned = a;
}

pub update_lem :
    (price : ℕ) (b : Bar)
    → update price b ≡ record {
      open_price = b.open_price;
      high = if ltb b.high price then price else b.high;
      low = if ltb price b.low then price else b.low;
      close = price;
      timestamp = b.timestamp;
    }
unfolding update
update_lem price b = elim (Bool-cases (ltb b.high price)) [
  | inl above ↦ rw above (elim (Bool-cases (ltb price b.low)) [
    | inl below ↦ rw below refl
    | inr within ↦ rw within refl
  ])
  | inr under ↦ rw under (elim (Bool-cases (ltb price b.low)) [
    | inl below ↦ rw below refl
    | inr within ↦ rw within refl
  ])
]

update-BarValid : (f : TimeFrame) (price : ℕ) (b : Bar) → BarValid f b → BarValid f (update price b)
update-BarValid f price b v = rw (update_lem price b) (record {
  low_open = ground (arith, v.low_open);
  open_high = ground (arith, v.open_high);
  low_close = ground arith;
  close_high = ground arith;
  aligned = v.aligned;
})

pub roll-BarValid : (f : TimeFrame) (b : Bar) → BarValid f b → BarValid f (roll f b)
unfolding roll
roll-BarValid f b v = record {
  low_open = omega arith;
  open_high = omega arith;
  low_close = omega arith;
  close_high = omega arith;
  aligned = (suc v.aligned.0, (let e = v.aligned.1 in omega (arith, e)));
}

pub trade_bar-BarValid :
    (f : TimeFrame) (price t : ℕ) (o : Option Bar)
    → (k : ℕ) × (t ≡ k * get_seconds f)
    → ((b : Bar) → o ≡ some b → BarValid f b)
    → BarValid f (trade_bar price t o)
unfolding trade_bar
trade_bar-BarValid f price t none a v = new_bar-BarValid f price t a
trade_bar-BarValid f price t (some b) a v = elim (Bool-cases (b.timestamp == t)) [
  | inl same ↦ rw same (update-BarValid f price b (v b refl))
  | inr other ↦ rw other (new_bar-BarValid f price t a)
]

frame_at : (f : TimeFrame) → get_elem? all_frames (place f) ≡ some f
frame_at TimeFrame.m1 = refl
frame_at TimeFrame.m5 = refl
frame_at TimeFrame.m15 = refl
frame_at TimeFrame.h1 = refl
frame_at TimeFrame.h4 = refl
frame_at TimeFrame.d1 = refl

pub same_frame_eq : (f g : TimeFrame) → same_frame f g ≡ true → f ≡ g
same_frame_eq f g e =
    let r : place f ≡ place g = equal_eq (place f) (place g) e in
    let both : some f ≡ some g = sym (frame_at f) ∙ ap (get_elem? all_frames) r ∙ frame_at g in cc

pub put_frame-FramesValid :
    (f : TimeFrame) (b : Bar) (d : Frames)
    → BarValid f b
    → FramesValid d
    → FramesValid (put_frame f b d)
put_frame-FramesValid f b d v w g c e = elim (Bool-cases (same_frame g f)) [
  | inl hit ↦
      let r : some b ≡ some c = rw hit at e in
      let same : b ≡ c = cc in let at : g ≡ f = same_frame_eq g f hit in rw (at, ← same) v
  | inr miss ↦ w g c (rw miss at e)
]
