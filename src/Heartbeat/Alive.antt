-- ===== src/Heartbeat/Alive.antt =====
-- The dict of symbols and the statuses of the instruments against the connections
-- (src/engine/heartbeat/server.py).
use spectuel_backend.Prelude.{
  ℕ, ◌≡◌, ◌≢◌, refl, sym, ◌∙◌, Option, none, some, write, put, drop_key, arith, ◌==◌, Bool-cases,
  inl, inr, equal_refl, ap,
}
use spectuel_backend.Heartbeat.{
  InstrumentStatus, Phase, Server, Step, Reach, new_server, set_phase, register,
  set_instrument_status, tear_down, updated,
}

-- The symbol under which a connection is in the dict.
abbrev pub listed_under : Phase → Option ℕ
listed_under (Phase.opening symbol ts) = some symbol
listed_under (Phase.listening symbol ts) = some symbol
listed_under (Phase.abandoned symbol) = some symbol
listed_under _ = none

-- The symbol that a connection has taken and not yet given back.
abbrev pub taken : Phase → Option ℕ
taken (Phase.closing symbol) = some symbol
taken p = listed_under p

-- The symbol whose heartbeats a connection hears.
abbrev pub heard : Phase → Option ℕ
heard (Phase.listening symbol ts) = some symbol
heard _ = none

-- What holds of a row's status where there is no row or the instrument is alive.
abbrev pub NotDead : Option InstrumentStatus → Type 0
NotDead (some InstrumentStatus.dead) = ⊥
NotDead _ = Unit

-- The dict has just the connections that are listed under its keys, no two connections have taken
-- one symbol, and no instrument whose heartbeats are
-- heard is dead.
pub record Settled (s : Server) : Type 0 where
  pub listed : (c k : ℕ) → s.symbols k ≡ some c → listed_under (s.conns c) ≡ some k
  pub lists : (c k : ℕ) → listed_under (s.conns c) ≡ some k → s.symbols k ≡ some c
  pub single : (c d k : ℕ) → taken (s.conns c) ≡ some k → taken (s.conns d) ≡ some k → c ≡ d
  pub live : (c k : ℕ) → heard (s.conns c) ≡ some k → NotDead (s.statuses k)

-- A step registers no symbol that another connection has taken.
abbrev pub IsFreeStep : {s t : Server} → Step s t → Type 0
IsFreeStep (Step.registered s c symbol now e) = (d : ℕ) → taken (s.conns d) ≡ some symbol → ⊥
IsFreeStep _ = Unit

abbrev pub IsFree : {s t : Server} → Reach s t → Type 0
IsFree Reach.here = Unit
IsFree (Reach.next r step) = IsFree r × IsFreeStep step

NotDead-updated : (row : Option InstrumentStatus) → NotDead (updated InstrumentStatus.alive row)
NotDead-updated none = tt
NotDead-updated (some status) = tt

none-some : (k : ℕ) → ◌≡◌ {A = Option ℕ} none (some k) → ⊥
none-some k e = cc

taken-listed : (p : Phase) (k : ℕ) → listed_under p ≡ some k → taken p ≡ some k
taken-listed (Phase.opening symbol ts) k e = e
taken-listed (Phase.listening symbol ts) k e = e
taken-listed (Phase.abandoned symbol) k e = e
taken-listed p k e = absurd (cc)

taken-heard : (p : Phase) (k : ℕ) → heard p ≡ some k → taken p ≡ some k
taken-heard (Phase.listening symbol ts) k e = e
taken-heard p k e = absurd (cc)

-- What a property of the phases says of a connection after another phase was written.
written :
    (P : ℕ → Phase → Type 0) (f : ℕ → Phase) (c : ℕ) (p : Phase)
    → P c p
    → ((d : ℕ) → d ≢ c → P d (f d))
    → (d : ℕ) → P d (write f c p d)
written P f c p here there d = elim (Bool-cases (d == c)) [
  | inl hit ↦ let e : d ≡ c = ground arith in rw (e, equal_refl c) here
  | inr miss ↦ rw miss (there d (λ e. absurd (ground arith)))
]

-- A connection moves on without a change of what it is listed under.
moved :
    (s : Server) (c : ℕ) (p : Phase) (statuses : ℕ → Option InstrumentStatus)
    → Settled s
    → listed_under p ≡ listed_under (s.conns c)
    → ((k : ℕ) → taken p ≡ some k → taken (s.conns c) ≡ some k)
    → ((k : ℕ) → heard p ≡ some k → NotDead (statuses k))
    → ((d k : ℕ)
        → d ≢ c
        → heard (s.conns d) ≡ some k
        → NotDead (s.statuses k)
        → NotDead (statuses k))
    → Settled (record { conns = write s.conns c p; symbols = s.symbols; statuses = statuses })
moved s c p statuses h same kept new others = record {
  listed = λ d k e.
      written (λ d q. s.symbols k ≡ some d → listed_under q ≡ some k) s.conns c p
        (λ e. same ∙ h.listed c k e) (λ d n. h.listed d k) d e;
  lists = λ d k e.
      written (λ d q. listed_under q ≡ some k → s.symbols k ≡ some d) s.conns c p
        (λ e. h.lists c k (sym same ∙ e)) (λ d n. h.lists d k) d e;
  single = λ a b k e e'.
      h.single a b k
        (written (λ d q. taken q ≡ some k → taken (s.conns d) ≡ some k) s.conns c p (kept k)
          (λ d n e. e) a e)
        (written (λ d q. taken q ≡ some k → taken (s.conns d) ≡ some k) s.conns c p (kept k)
          (λ d n e. e) b e');
  live = λ d k e.
      written (λ d q. heard q ≡ some k → NotDead (statuses k)) s.conns c p (new k)
        (λ d n e. others d k n e (h.live d k e)) d e;
}

-- A connection that has taken no symbol, or gives its symbol back after a failure.
idle-Settled :
    (s : Server) (c : ℕ) (p : Phase)
    → Settled s
    → listed_under p ≡ listed_under (s.conns c)
    → taken p ≡ none
    → Settled (set_phase c p s)
unfolding set_phase
idle-Settled s c p h same idle =
    moved s c p s.statuses h same (λ k e. absurd (none-some k (sym idle ∙ e)))
      (λ k e. absurd (none-some k (sym idle ∙ taken-heard p k e))) (λ d k n e a. a)

nothing_listed : (p : Phase) (k : ℕ) → p ≡ Phase.registering → listed_under p ≡ some k → ⊥
nothing_listed p k at e = absurd (none-some k (rw at at e))

registered_single :
    (s : Server) (c symbol now : ℕ)
    → Settled s
    → s.conns c ≡ Phase.registering
    → ((d : ℕ) → taken (s.conns d) ≡ some symbol → ⊥)
    → (a b k : ℕ) → taken (write s.conns c (Phase.opening symbol now) a) ≡ some k
    → taken (write s.conns c (Phase.opening symbol now) b) ≡ some k
    → a ≡ b
registered_single s c symbol now h at free a b k e e' = elim (Bool-cases (a == c)) [
  | inl x ↦ elim (Bool-cases (b == c)) [
    | inl y ↦ ground arith
    | inr y ↦
        let same : symbol ≡ k = ground (arith, rw x at e) in absurd (free b (rw same (rw y at e')))
  ]
  | inr x ↦ elim (Bool-cases (b == c)) [
    | inl y ↦
        let same : symbol ≡ k = ground (arith, rw y at e') in absurd (free a (rw same (rw x at e)))
    | inr y ↦ h.single a b k (rw x at e) (rw y at e')
  ]
]

registered-Settled :
    (s : Server) (c symbol now : ℕ)
    → Settled s
    → s.conns c ≡ Phase.registering
    → ((d : ℕ) → taken (s.conns d) ≡ some symbol → ⊥)
    → Settled (register c symbol now s)
unfolding register
registered-Settled s c symbol now h at free = record {
  listed = λ d k e. elim (Bool-cases (k == symbol)) [
    | inl hit ↦
        let same : k ≡ symbol = ground arith in
        let it : some c ≡ some d = rw hit at e in
        let own : c ≡ d = ground (arith, it) in rw (← own, equal_refl c, same) refl
    | inr miss ↦
        let e' : s.symbols k ≡ some d = rw miss at e in
        written (λ d q. s.symbols k ≡ some d → listed_under q ≡ some k) s.conns c
          (Phase.opening symbol now)
          (λ e. absurd (nothing_listed (s.conns c) k at (h.listed c k e))) (λ d n e. h.listed d k e)
          d e'
  ];
  lists = λ d k e.
      written (λ d q. listed_under q ≡ some k → put s.symbols symbol c k ≡ some d) s.conns c
        (Phase.opening symbol now)
        (λ e. elim (Bool-cases (k == symbol)) [
          | inl hit ↦ rw hit refl
          | inr miss ↦ absurd (ground arith)
        ])
        (λ d n e. elim (Bool-cases (k == symbol)) [
          | inl hit ↦
              let same : k ≡ symbol = ground arith in
              absurd (free d (taken-listed (s.conns d) symbol (e ∙ ap some same)))
          | inr miss ↦ rw miss (h.lists d k e)
        ])
        d e;
  single = λ a b k e e'. registered_single s c symbol now h at free a b k e e';
  live = λ d k e.
      written (λ d q. heard q ≡ some k → NotDead (s.statuses k)) s.conns c
        (Phase.opening symbol now) (λ e. absurd (cc)) (λ d n. h.live d k) d e;
}

torn_down-Settled :
    (s : Server) (c symbol ts : ℕ)
    → Settled s
    → s.conns c ≡ Phase.listening symbol ts
    → Settled (tear_down c symbol s)
unfolding tear_down
torn_down-Settled s c symbol ts h at = record {
  listed = λ d k e. elim (Bool-cases (k == symbol)) [
    | inl hit ↦ absurd (ground (arith, hit, e))
    | inr miss ↦
        let e' : s.symbols k ≡ some d = rw miss at e in
        written (λ d q. s.symbols k ≡ some d → listed_under q ≡ some k) s.conns c
          (Phase.closing symbol) (λ e. absurd (ground (arith, h.listed c k e)))
          (λ d n e. h.listed d k e) d e'
  ];
  lists = λ d k e.
      written (λ d q. listed_under q ≡ some k → drop_key s.symbols symbol k ≡ some d) s.conns c
        (Phase.closing symbol) (λ e. absurd (cc))
        (λ d n e. elim (Bool-cases (k == symbol)) [
          | inl hit ↦
              let same : k ≡ symbol = ground arith in
              absurd (n (h.single d c k (taken-listed (s.conns d) k e) (rw (at, same) refl)))
          | inr miss ↦ rw miss (h.lists d k e)
        ])
        d e;
  single = λ a b k e e'.
      let kept : (d : ℕ)
          → taken (write s.conns c (Phase.closing symbol) d) ≡ some k
          → taken (s.conns d) ≡ some k =
        written (λ d q. taken q ≡ some k → taken (s.conns d) ≡ some k) s.conns c
          (Phase.closing symbol) (λ e. rw at e) (λ d n e. e) in
      h.single a b k (kept a e) (kept b e');
  live = λ d k e.
      written (λ d q. heard q ≡ some k → NotDead (s.statuses k)) s.conns c (Phase.closing symbol)
        (λ e. absurd (cc)) (λ d n. h.live d k) d e;
}

returned-Settled :
    (s : Server) (c symbol : ℕ)
    → Settled s
    → s.conns c ≡ Phase.closing symbol
    → Settled (set_instrument_status c Phase.closed symbol InstrumentStatus.dead s)
unfolding set_instrument_status
returned-Settled s c symbol h at =
    moved s c Phase.closed
      (write s.statuses symbol (updated InstrumentStatus.dead (s.statuses symbol))) h (rw at refl)
      (λ k e. absurd (cc)) (λ k e. absurd (cc))
      (λ d k n e a. elim (Bool-cases (k == symbol)) [
        | inl hit ↦
            let same : k ≡ symbol = ground arith in
            absurd (n (h.single d c k (taken-heard (s.conns d) k e) (rw (at, same) refl)))
        | inr miss ↦ rw miss a
      ])

step-Settled : {s t : Server} (step : Step s t) → IsFreeStep step → Settled s → Settled t
unfolding set_phase set_instrument_status
step-Settled (Step.connected s c at) free h = idle-Settled s c Phase.registering h (rw at refl) refl
step-Settled (Step.registered s c symbol now at) free h =
    registered-Settled s c symbol now h at free
step-Settled (Step.refused s c at) free h = idle-Settled s c Phase.closed h (rw at refl) refl
step-Settled (Step.register_failed s c at) free h =
    idle-Settled s c Phase.failed h (rw at refl) refl
step-Settled (Step.opened s c symbol ts at) free h =
    moved s c (Phase.listening symbol ts)
      (write s.statuses symbol (updated InstrumentStatus.alive (s.statuses symbol))) h (rw at refl)
      (λ k e. rw at e)
      (λ k e. elim (Bool-cases (k == symbol)) [
        | inl hit ↦ rw hit (NotDead-updated (s.statuses symbol))
        | inr miss ↦ absurd (ground arith)
      ])
      (λ d k n e a. elim (Bool-cases (k == symbol)) [
        | inl hit ↦ rw hit (NotDead-updated (s.statuses symbol))
        | inr miss ↦ rw miss a
      ])
step-Settled (Step.open_failed s c symbol ts at) free h =
    moved s c (Phase.abandoned symbol) s.statuses h (rw at refl) (λ k e. rw at e)
      (λ k e. absurd (cc)) (λ d k n e a. a)
step-Settled (Step.heartbeat s c symbol ts now at) free h =
    moved s c (Phase.listening symbol now) s.statuses h (rw at refl) (λ k e. rw at e)
      (λ k e. h.live c k (rw at e)) (λ d k n e a. a)
step-Settled (Step.ended s c symbol ts at) free h = torn_down-Settled s c symbol ts h at
step-Settled (Step.returned s c symbol at) free h = returned-Settled s c symbol h at
step-Settled (Step.close_failed s c symbol at) free h =
    idle-Settled s c Phase.failed h (rw at refl) refl

new-Settled : (statuses : ℕ → Option InstrumentStatus) → Settled (new_server statuses)
unfolding new_server
new-Settled statuses = record {
  listed = λ c k e. absurd (cc);
  lists = λ c k e. absurd (cc);
  single = λ c d k e e'. absurd (cc);
  live = λ c k e. absurd (cc);
}

-- If the server's steps register no symbol that another connection has taken and not yet given
-- back, then after any steps of its connections in any order the dict of symbols has just the
-- connections that are listed under its keys, no two connections have taken one symbol, and no
-- instrument whose heartbeats are heard has a row with the status dead.
pub reached-Settled :
    (statuses : ℕ → Option InstrumentStatus) {s : Server} (r : Reach (new_server statuses) s)
    → IsFree r
    → Settled s
reached-Settled statuses Reach.here free = new-Settled statuses
reached-Settled statuses (Reach.next r step) free =
    step-Settled step free.1 (reached-Settled statuses r free.0)
