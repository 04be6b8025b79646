-- ===== src/Publisher/Published.antt =====
-- What `_publish_snapshot` of `OrderBookPublisher` (src/services/orderbook_publisher/service.py)
-- sends.
use spectuel_backend.Prelude.{
  ℕ, ◌<◌, ◌≡◌, refl, sym, ◌∙◌, inl, inr, true, Option, none, some, List, [], ◌∷◌, if◌then◌else◌,
  ltb, get_item, Unique, number_keyed, option_keyed, All, arith, Bool-cases, Option-cases,
  same_option, same_option_eq, is_some,
}
use spectuel_backend.Errors.{ok}
use spectuel_backend.Enums.{Side}
use spectuel_backend.Publisher.{BookState}
use spectuel_backend.Publisher.Snapshot.{
  positive, priced, sort, top_rows, SnapshotEvent, publish_snapshot, IsTop,
}
use spectuel_backend.Publisher.Top.{sort_lem, length-take, Ordered-take, get-take, take-best}

abbrev if_positive : Option ℕ → Option ℕ
if_positive none = none
if_positive (some q) = if ltb 0 q then some q else none

get-positive :
    (d : List (Option ℕ × ℕ)) (k : Option ℕ)
    → Unique d
    → get_item (positive d) k ≡ if_positive (get_item d k)
unfolding positive
get-positive [] k u = refl
get-positive ((j, q) ∷ d) k u = elim (Bool-cases (ltb 0 q)) [
  | inl kept ↦ rw kept (elim (Bool-cases (same_option k j)) [
    | inl hit ↦ rw (hit, kept) refl
    | inr miss ↦ rw miss (get-positive d k u.1)
  ])
  | inr dropped ↦ rw dropped (elim (Bool-cases (same_option k j)) [
    | inl hit ↦
        let e : k ≡ j = same_option_eq k j hit in
        rw (hit, dropped, e) (get-positive d j u.1 ∙ rw u.0 refl)
    | inr miss ↦ rw miss (get-positive d k u.1)
  ])
]

Unique-positive : (d : List (Option ℕ × ℕ)) → Unique d → Unique (positive d)
unfolding positive
Unique-positive [] u = tt
Unique-positive ((j, q) ∷ d) u = elim (Bool-cases (ltb 0 q)) [
  | inl kept ↦ rw kept (get-positive d j u.1 ∙ rw u.0 refl, Unique-positive d u.1)
  | inr dropped ↦ rw dropped (Unique-positive d u.1)
]

-- The priced rows answer as the levels do.
priced_get :
    (d : List (Option ℕ × ℕ)) (rows : List (ℕ × ℕ))
    → priced d ≡ some rows
    → (k : ℕ) → get_item rows k ≡ get_item d (some k)
unfolding priced
priced_get [] rows e k = let r : [] ≡ rows = cc in rw (← r) refl
priced_get ((none, q) ∷ d) rows e k = absurd (cc)
priced_get ((some j, q) ∷ d) rows e k = elim (Option-cases (priced d)) [
  | inl unpriced ↦ absurd (let r = rw unpriced at e in cc)
  | inr (tail, found) ↦
      let r : some ((j, q) ∷ tail) ≡ some rows = rw found at e in
      let same : (j, q) ∷ tail ≡ rows = cc in rw (← same, priced_get d tail found k) refl
]

Unique-priced :
    (d : List (Option ℕ × ℕ)) (rows : List (ℕ × ℕ)) → priced d ≡ some rows → Unique d → Unique rows
unfolding priced
Unique-priced [] rows e u = let r : [] ≡ rows = cc in rw (← r) tt
Unique-priced ((none, q) ∷ d) rows e u = absurd (cc)
Unique-priced ((some j, q) ∷ d) rows e u = elim (Option-cases (priced d)) [
  | inl unpriced ↦ absurd (let r = rw unpriced at e in cc)
  | inr (tail, found) ↦
      let r : some ((j, q) ∷ tail) ≡ some rows = rw found at e in
      let same : (j, q) ∷ tail ≡ rows = cc in
      rw (← same) (priced_get d tail found j ∙ u.0, Unique-priced d tail found u.1)
]

top_rows-IsTop :
    (side : Side) (d : List (Option ℕ × ℕ)) (rows : List (ℕ × ℕ))
    → Unique d
    → priced (positive d) ≡ some rows
    → IsTop side d (top_rows side rows)
top_rows-IsTop side d rows u e =
    let (same, ordered) =
      sort_lem side rows (Unique-priced (positive d) rows e (Unique-positive d u)) in
    let level : (k : ℕ) → get_item (sort side rows) k ≡ if_positive (get_item d (some k)) =
      (λ k. same k ∙ priced_get (positive d) rows e k ∙ get-positive d (some k) u) in
    record {
      ordered = Ordered-take side 20 (sort side rows) ordered;
      short = length-take 20 (sort side rows);
      real = λ k q r.
          positive_level (get_item d (some k)) q
            (sym (level k) ∙ get-take 20 (sort side rows) k q r);
      best = λ k q r p. take-best side 20 (sort side rows) k q ordered (level k ∙ rw r (kept q p));
    }
  where
    kept : (q : ℕ) → 0 < q → if_positive (some q) ≡ some q
    kept q p = ground arith

    positive_level : (o : Option ℕ) (q : ℕ) → if_positive o ≡ some q → (o ≡ some q) × (0 < q)
    positive_level none q r = absurd (cc)
    positive_level (some n) q r = elim (Bool-cases (ltb 0 n)) [
      | inl pos ↦
          let same : n ≡ q = (let t = rw pos at r in cc) in rw (← same) (refl, ground (arith, pos))
      | inr zero_there ↦ absurd (let t = rw zero_there at r in cc)
    ]

-- Every level has a number as price.
abbrev pub AllPriced : List (Option ℕ × ℕ) → Type 0
AllPriced d = All (λ (r : Option ℕ × ℕ). is_some r.0 ≡ true) d

priced_rows :
    (d : List (Option ℕ × ℕ))
    → AllPriced d
    → (rows : List (ℕ × ℕ)) × (priced (positive d) ≡ some rows)
unfolding positive priced
priced_rows [] a = ([], refl)
priced_rows ((none, q) ∷ d) a = absurd (let r = a.0 in cc)
priced_rows ((some j, q) ∷ d) a =
    let (rows, e) = priced_rows d a.1 in
    elim (Bool-cases (ltb 0 q)) [
      | inl kept ↦ ((j, q) ∷ rows, rw (kept, priced, e) refl)
      | inr dropped ↦ (rows, rw dropped e)
    ]

-- If no price has two levels and every level has a number as price, then a snapshot succeeds, and
-- each side of it has twenty rows at most, from the best price on, each the positive quantity of
-- a level, and a positive level that is left out lies behind all of the twenty rows.
pub published-IsTop :
    (symbol : ℕ) (b : BookState)
    → Unique b.bids
    → Unique b.asks
    → AllPriced b.bids
    → AllPriced b.asks
    → (s : SnapshotEvent) × (publish_snapshot symbol b ≡ ok s)
      × IsTop Side.bid b.bids s.bids
      × IsTop Side.ask b.asks s.asks
unfolding publish_snapshot
published-IsTop symbol b ub ua pb pa =
    let (bids, e) = priced_rows b.bids pb in
    let (asks, e') = priced_rows b.asks pa in
    (
      record { symbol = symbol; bids = top_rows Side.bid bids; asks = top_rows Side.ask asks },
      rw (publish_snapshot, e, e') refl,
      top_rows-IsTop Side.bid b.bids bids ub e,
      top_rows-IsTop Side.ask b.asks asks ua e',
    )
