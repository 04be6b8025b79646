-- ===== src/Crossing.antt =====
-- `limit_crossable` and `stop_crossable` (src/engine/utils.py). Comparing `None` with a number is
-- a `TypeError`.
pub mod Levels
use spectuel_backend.Prelude.{ℕ, Bool, false, Option, none, some, leb}
use spectuel_backend.Errors.{Result, ok, err, type_error}
use spectuel_backend.Enums.{Side, opposite}
use spectuel_backend.PriceLevel.{PriceLevel}
use spectuel_backend.Sorted.{SortedDict}
use spectuel_backend.OrderBook.{OrderBook, best_price}

-- `test price best` once both are there.
abbrev pub compare_best : (ℕ → ℕ → Bool) → Option ℕ → Option ℕ → Result Bool
compare_best test price none = ok false
compare_best test none (some b) = err type_error
compare_best test (some p) (some b) = ok (test p b)

abbrev pub limit_test : Side → ℕ → ℕ → Bool
limit_test Side.bid p best = leb best p
limit_test Side.ask p best = leb p best

abbrev pub stop_test : Side → ℕ → ℕ → Bool
stop_test Side.bid p best = leb p best
stop_test Side.ask p best = leb best p

module _ ⦃D : SortedDict PriceLevel⦄ where
  unfoldable pub limit_crossable : Option ℕ → Side → OrderBook → Result Bool
  limit_crossable price side ob =
      compare_best (limit_test side) price (best_price (opposite side) ob)

  unfoldable pub stop_crossable : Option ℕ → Side → OrderBook → Result Bool
  stop_crossable price side ob = compare_best (stop_test side) price (best_price (opposite side) ob)
