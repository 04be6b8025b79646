-- ===== src/Publisher/Snapshot.antt =====
-- `_publish_snapshot` of `OrderBookPublisher` (src/services/orderbook_publisher/service.py): the
-- twenty best levels of each side.
use spectuel_backend.Prelude.{
  ℕ, zero, suc, ◌<◌, ◌≤◌, ◌≡◌, ◌⊎◌, Bool, true, false, ◌&&◌, ◌||◌, Option, none, some, List, [],
  ◌∷◌, if◌then◌else◌, leb, ltb, get_item, number_keyed, option_keyed, length, All,
}
use spectuel_backend.Errors.{Result, ok, err, type_error, validation_error}
use spectuel_backend.Enums.{Side}
use spectuel_backend.Publisher.{BookState}

-- `[(price, qty) for price, qty in d.items() if qty > 0]`
unfoldable pub positive : List (Option ℕ × ℕ) → List (Option ℕ × ℕ)
positive [] = []
positive ((k, q) ∷ d) = let rest = positive d in if ltb 0 q then (k, q) ∷ rest else rest

-- The rows where every price is a number.
unfoldable pub priced : List (Option ℕ × ℕ) → Option (List (ℕ × ℕ))
priced [] = some []
priced ((none, q) ∷ d) = none
priced ((some k, q) ∷ d) = elim (priced d) [ none ↦ none | some rows ↦ some ((k, q) ∷ rows) ]

-- A bid comes before a lower one, an ask before a higher one.
abbrev pub ahead : Side → ℕ → ℕ → Bool
ahead Side.bid k j = ltb j k
ahead Side.ask k j = ltb k j

unfoldable pub insert : Side → ℕ → ℕ → List (ℕ × ℕ) → List (ℕ × ℕ)
insert side k q [] = (k, q) ∷ []
insert side k q ((j, w) ∷ rows) =
    let rest = insert side k q rows in
    if ahead side k j then (k, q) ∷ (j, w) ∷ rows else (j, w) ∷ rest

-- `sorted` by the price
unfoldable pub sort : Side → List (ℕ × ℕ) → List (ℕ × ℕ)
unfolding insert
sort side [] = []
sort side ((k, q) ∷ rows) = insert side k q (sort side rows)

abbrev pub take : ℕ → List (ℕ × ℕ) → List (ℕ × ℕ)
take zero rows = []
take (suc n) [] = []
take (suc n) (r ∷ rows) = r ∷ take n rows

-- `sorted(...)[:20]`
abbrev pub top_rows : Side → List (ℕ × ℕ) → List (ℕ × ℕ)
top_rows side rows = take 20 (sort side rows)

-- `OrderbookSnapshotEvent`
pub record SnapshotEvent : Type 0 where
  pub symbol : ℕ
  pub bids : List (ℕ × ℕ)
  pub asks : List (ℕ × ℕ)

abbrev is_unpriced : Option (List (ℕ × ℕ)) → Bool
is_unpriced none = true
is_unpriced (some rows) = false

-- The sort compares `None` with another price.
abbrev pub compares_none : List (Option ℕ × ℕ) → Bool
compares_none rows = is_unpriced (priced rows) && leb 2 (length rows)

-- The event of `_publish_snapshot`. A price that is `None` makes a sort of two rows or more raise a
-- TypeError, and the event refuses it.
unfoldable pub publish_snapshot : ℕ → BookState → Result SnapshotEvent
unfolding positive priced sort
publish_snapshot symbol b = elim (priced (positive b.bids)) [
  | none ↦
      if compares_none (positive b.bids) || compares_none (positive b.asks)
      then err type_error
      else err validation_error
  | some bids ↦ elim (priced (positive b.asks)) [
    | none ↦ if compares_none (positive b.asks) then err type_error else err validation_error
    | some asks ↦
        ok
          (record { symbol = symbol; bids = top_rows Side.bid bids; asks = top_rows Side.ask asks })
  ]
]

abbrev pub rows_of : Side → SnapshotEvent → List (ℕ × ℕ)
rows_of Side.bid s = s.bids
rows_of Side.ask s = s.asks

-- Each row is ahead of those behind it.
abbrev pub Ordered : Side → List (ℕ × ℕ) → Type 0
Ordered side [] = Unit
Ordered side ((k, q) ∷ rows) = All (λ (r : ℕ × ℕ). ahead side k r.0 ≡ true) rows × Ordered side rows

-- The rows are the best levels of a side, twenty at most.
pub record IsTop (side : Side) (levels : List (Option ℕ × ℕ)) (rows : List (ℕ × ℕ)) : Type 0 where
  pub ordered : Ordered side rows
  pub short : length rows ≤ 20
  pub real : (k q : ℕ) → get_item rows k ≡ some q → (get_item levels (some k) ≡ some q) × (0 < q)
  pub best :
      (k q : ℕ)
      → get_item levels (some k) ≡ some q
      → 0 < q
      → (get_item rows k ≡ some q)
        ⊎ ((length rows ≡ 20) × All (λ (r : ℕ × ℕ). ahead side r.0 k ≡ true) rows)
