-- ===== src/Tests/Heartbeats.antt =====
-- A client of the heartbeat server that registers and is heard, and then ends.
use spectuel_backend.Prelude.{ℕ, Option, some, ◌==◌, Bool-cases, inl, inr, refl, arith}
use spectuel_backend.Heartbeat.{
  InstrumentStatus, Phase, Server, Step, Reach, new_server, set_phase, register,
  set_instrument_status,
}
use spectuel_backend.Heartbeat.Alive.{Settled, IsFree, reached-Settled}

abbrev all_dead : ℕ → Option InstrumentStatus
all_dead k = some InstrumentStatus.dead

-- Connection 0 registers symbol 5.
abbrev open_server : Server
unfolding new_server set_phase register set_instrument_status
open_server =
    set_instrument_status 0 (Phase.listening 5 100) 5 InstrumentStatus.alive
      (register 0 5 100 (set_phase 0 Phase.registering (new_server all_dead)))

abbrev opened_run : Reach (new_server all_dead) open_server
unfolding new_server set_phase register set_instrument_status
opened_run =
    let s0 = new_server all_dead in
    let s1 = set_phase 0 Phase.registering s0 in
    let s2 = register 0 5 100 s1 in
    Reach.next
      (Reach.next (Reach.next Reach.here (Step.connected s0 0 refl))
        (Step.registered s1 0 5 100 refl))
      (Step.opened s2 0 5 100 refl)

opened_run-IsFree : IsFree opened_run
unfolding new_server set_phase register set_instrument_status
opened_run-IsFree = (
  (
    (tt, tt),
    λ d e. elim (Bool-cases (d == 0)) [
      | inl hit ↦ absurd (ground (arith, hit, e))
      | inr miss ↦ absurd (ground (arith, miss, e))
    ],
  ),
  tt,
)

reached-Settled_example : Settled open_server
reached-Settled_example = reached-Settled all_dead opened_run opened_run-IsFree
