-- ===== src/Keeps/Engine/Prices.antt =====
-- The best prices of the order book through whole runs of commands.
use spectuel_backend.Prelude.{ℕ, List}
use spectuel_backend.Errors.{state_of}
use spectuel_backend.PriceLevel.{PriceLevel}
use spectuel_backend.Sorted.{SortedDict}
use spectuel_backend.Redis.{Redis}
use spectuel_backend.OrderBook.Best.{BestValid, append-BestValid, remove-BestValid}
use spectuel_backend.State.{State}
use spectuel_backend.Engine.{Command}
use spectuel_backend.Keeps.Rules.{Invariant, Counting}
use spectuel_backend.Keeps.Engine.{run_commands, Keeps-commands}

module _ ⦃D : SortedDict PriceLevel⦄ ⦃R : Redis⦄ where
  best_invariant : Invariant (λ s. BestValid s.market.book)
  best_invariant = record {
    assign_ok = λ s r f t p. p;
    append_ok = λ s o price p. append-BestValid o price s.market p;
    remove_ok = λ s o price p. remove-BestValid o price s.market p;
    store_ok = λ s f p. p;
    redis_ok = λ s f p. p;
    log_ok = λ s e p. p;
    uuid_ok = λ s p. p;
    command_ok = λ s id p. p;
  }

  best_counting : Counting (λ s. BestValid s.market.book)
  best_counting = record { count_ok = λ s r f t p. p; create_ok = λ s o p. p }

  -- Whatever commands run, also where one of them raises, if the best prices of the book are
  -- right before, they are right after: the best bid is the highest price with a bid level, the
  -- best ask the lowest price with an ask level, and a side without a level has no best price.
  pub run_commands-BestValid :
      (fuel : ℕ) (cs : List Command) (s : State)
      → BestValid s.market.book
      → BestValid (state_of (run_commands fuel cs s)).market.book
  run_commands-BestValid fuel cs s v =
      (Keeps-commands best_invariant best_counting fuel cs).keeps s v
