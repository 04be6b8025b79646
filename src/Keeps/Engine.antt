-- ===== src/Keeps/Engine.antt =====
-- Invariants through commands, and through runs of commands that stop at the first exception, as
-- the orchestrator's loop does (src/engine/engine_orchestrator/engine_orchestrator.py).
pub mod Chains
pub mod Prices
pub mod Static
use spectuel_backend.Prelude.{ℕ, suc, Option, none, some, List, [], ◌∷◌}
use spectuel_backend.Errors.{state_of}
use spectuel_backend.PriceLevel.{PriceLevel}
use spectuel_backend.Sorted.{SortedDict}
use spectuel_backend.Redis.{Redis}
use spectuel_backend.State.{State, M, pure, modify, ◌>>◌, ◌>>=◌}
use spectuel_backend.Strategy.{ModifyCommand}
use spectuel_backend.Engine.{
  Command, new_single, new_oco, new_oto, new_otoco, new_unknown, cancel_order, modify_order_command,
  other, on_found, handle_cancel_order, handle_modify_order, handled, handle_command,
}
use spectuel_backend.Keeps.Rules.{Keeps, Invariant, Counting, keep_rules, Keeps-pure, bind}
use spectuel_backend.Keeps.Base.{Keeps-received, Keeps-processed}
use spectuel_backend.Keeps.Strategy.{Keeps-cancelled, Keeps-modified}
use spectuel_backend.Keeps.Placing.{Keeps-single_new, Keeps-oco_new, Keeps-oto_new, Keeps-otoco_new}

module _ ⦃D : SortedDict PriceLevel⦄ ⦃R : Redis⦄ where
  -- The commands in turn, up to the first exception.
  pub run_commands : ℕ → List Command → M (Unit {0})
  run_commands fuel [] = pure tt
  run_commands fuel (c ∷ cs) = handle_command fuel c >> run_commands fuel cs

module _ ⦃D : SortedDict PriceLevel⦄ ⦃R : Redis⦄ {P : State → Type 0} (I : Invariant P)
    (C : Counting P) where
  Keeps-found :
      (o : Option ℕ) {k : ℕ → M (Unit {0})} → ((r : ℕ) → Keeps P (k r)) → Keeps P (on_found o k)
  Keeps-found none h = Keeps-pure tt
  Keeps-found (some r) h = h r

  Keeps-cancel : (id : ℕ) → Keeps P (handle_cancel_order id)
  unfolding handle_cancel_order
  Keeps-cancel id = search (keep_rules, Keeps-found, Keeps-cancelled)

  Keeps-modify_command : (cmd : ModifyCommand) (id : ℕ) → Keeps P (handle_modify_order cmd id)
  unfolding handle_modify_order
  Keeps-modify_command cmd id = search (keep_rules, Keeps-found, Keeps-modified)

  Keeps-note : (id : ℕ) → Keeps P (modify (λ s. record s { cur_command_id = id }))
  Keeps-note id = record { keeps = λ s p. I.command_ok s id p }

  Keeps-handled : (id : ℕ) {m : M (Unit {0})} → Keeps P m → Keeps P (handled id m)
  Keeps-handled id h = search (keep_rules, Keeps-note, Keeps-received, Keeps-processed) depth 9

  pub Keeps-command : (fuel : ℕ) (c : Command) → Keeps P (handle_command fuel c)
  unfolding handle_command
  Keeps-command fuel (new_single id d) = Keeps-handled id (Keeps-single_new I C fuel d)
  Keeps-command fuel (new_oco id legs) = Keeps-handled id (Keeps-oco_new I C legs)
  Keeps-command fuel (new_oto id p c) = Keeps-handled id (Keeps-oto_new I C fuel p c)
  Keeps-command fuel (new_otoco id p legs) = Keeps-handled id (Keeps-otoco_new I C fuel p legs)
  Keeps-command fuel (new_unknown id) = Keeps-handled id (Keeps-pure tt)
  Keeps-command fuel (cancel_order id order) = Keeps-handled id (Keeps-cancel order)
  Keeps-command fuel (modify_order_command id order cmd) =
      Keeps-handled id (Keeps-modify_command cmd order)
  Keeps-command fuel (other id) = Keeps-pure tt

  pub Keeps-commands : (fuel : ℕ) (cs : List Command) → Keeps P (run_commands fuel cs)
  unfolding run_commands
  Keeps-commands fuel [] = Keeps-pure tt
  Keeps-commands fuel (c ∷ cs) = bind (Keeps-command fuel c) (λ _. Keeps-commands fuel cs)
