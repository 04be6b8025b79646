-- ===== src/Keeps/Engine/Chains.antt =====
-- The chains of the order book's levels through whole runs of commands.
use spectuel_backend.Prelude.{ℕ, List}
use spectuel_backend.Errors.{state_of}
use spectuel_backend.PriceLevel.{PriceLevel}
use spectuel_backend.Sorted.{SortedDict}
use spectuel_backend.Redis.{Redis}
use spectuel_backend.OrderBook.Chains.Moves.{Sound, append-Sound, remove-Sound}
use spectuel_backend.State.{State}
use spectuel_backend.Engine.{Command}
use spectuel_backend.Keeps.Rules.{Invariant, Counting}
use spectuel_backend.Keeps.Engine.{run_commands, Keeps-commands}

module _ ⦃D : SortedDict PriceLevel⦄ ⦃R : Redis⦄ where
  chain_invariant : Invariant (λ s. Sound s.market)
  chain_invariant = record {
    assign_ok = λ s r f t p. p;
    append_ok = λ s o price p. append-Sound o price s.market p;
    remove_ok = λ s o price p. remove-Sound o price s.market p;
    store_ok = λ s f p. p;
    redis_ok = λ s f p. p;
    log_ok = λ s e p. p;
    uuid_ok = λ s p. p;
    command_ok = λ s id p. p;
  }

  chain_counting : Counting (λ s. Sound s.market)
  chain_counting = record { count_ok = λ s r f t p. p; create_ok = λ s o p. p }

  -- Whatever commands run, also where one of them raises, if every level of the book holds a
  -- list of cells, with no node in two levels, before, then so after: each level is a chain
  -- linked both ways, its tracker finds just its own orders, and a price without a level holds
  -- none.
  pub run_commands-Sound :
      (fuel : ℕ) (cs : List Command) (s : State)
      → Sound s.market
      → Sound (state_of (run_commands fuel cs s)).market
  run_commands-Sound fuel cs s v = (Keeps-commands chain_invariant chain_counting fuel cs).keeps s v
