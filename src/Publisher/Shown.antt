-- ===== src/Publisher/Shown.antt =====
-- What the books of `OrderBookPublisher` (src/services/orderbook_publisher/service.py) show, through
-- changes of a level.
use spectuel_backend.Prelude.{
  ℕ, ◌+◌, ◌-◌, ◌≡◌, refl, sym, ◌∙◌, Bool, true, false, ◌&&◌, Option, List, if◌then◌else◌, leb, ◌==◌,
  get_item, same_option, number_keyed, option_keyed, equal_eq, get-set_item, get-del_item, arith,
  Bool-cases, Option-cases, inl, inr,
}
use spectuel_backend.Enums.{Side}
use spectuel_backend.Publisher.{
  Publisher, OrderInfo, or_zero, levels_of, book_of, change_levels, increment_level,
  decrement_level,
}

abbrev pub same_side : Side → Side → Bool
same_side Side.bid Side.bid = true
same_side Side.ask Side.ask = true
same_side Side.bid Side.ask = false
same_side Side.ask Side.bid = false

-- The quantity that the book shows for a symbol, a side and a price.
abbrev pub shown : ℕ → Side → Option ℕ → Publisher → ℕ
shown symbol side price p = or_zero (get_item (levels_of side (book_of symbol p)) price)

abbrev pub share : Bool → ℕ → ℕ
share true q = q
share false q = 0

-- Whether an order of symbol `s` lies at the price of a side of the book of a symbol.
abbrev pub lies_at : ℕ → Side → Option ℕ → ℕ → OrderInfo → Bool
lies_at symbol side price s i =
    (symbol == s) && (same_side side i.side && same_option price i.price)

-- An active order's part of that quantity, where `symbol_of` has the orders' symbols.
abbrev pub owed : (ℕ → ℕ) → ℕ → Side → Option ℕ → ℕ → OrderInfo → ℕ
owed symbol_of symbol side price id i =
    share (lies_at symbol side price (symbol_of id) i) i.remaining_qty

pub get-increment_level :
    (price : Option ℕ) (qty : ℕ) (d : List (Option ℕ × ℕ)) (r : Option ℕ)
    → or_zero (get_item (increment_level price qty d) r)
      ≡ or_zero (get_item d r) + share (same_option r price) qty
unfolding increment_level
get-increment_level price qty d r = elim (Bool-cases (same_option r price)) [
  | inl hit ↦
      let e : r ≡ price = option_keyed.same_eq r price hit in
      rw (get-set_item d price (or_zero (get_item d price) + qty) r, hit, e) refl
  | inr miss ↦ rw (get-set_item d price (or_zero (get_item d price) + qty) r, miss) (omega arith)
]

pub get-decrement_level :
    (price : Option ℕ) (qty : ℕ) (d : List (Option ℕ × ℕ)) (r : Option ℕ)
    → or_zero (get_item (decrement_level price qty d) r)
      ≡ or_zero (get_item d r) - share (same_option r price) qty
unfolding decrement_level
get-decrement_level price qty d r = elim (Option-cases (get_item d price)) [
  | inl absent ↦
      rw (or_zero, decrement_level, absent)
        (elim (Bool-cases (same_option r price)) [
          | inl hit ↦
              let e : r ≡ price = option_keyed.same_eq r price hit in
              rw (hit, e, absent) (omega arith)
          | inr miss ↦ rw miss (omega arith)
        ])
  | inr (q, found) ↦
      rw (or_zero, decrement_level, found)
        (elim (Bool-cases (leb q qty)) [
          | inl all ↦
              rw (all, get-del_item d price r)
                (elim (Bool-cases (same_option r price)) [
                  | inl hit ↦
                      let e : r ≡ price = option_keyed.same_eq r price hit in
                      rw (hit, e, found) (ground (arith, all))
                  | inr miss ↦ rw miss (omega arith)
                ])
          | inr rest ↦
              rw (rest, get-set_item d price (q - qty) r)
                (elim (Bool-cases (same_option r price)) [
                  | inl hit ↦
                      let e : r ≡ price = option_keyed.same_eq r price hit in
                      rw (hit, e, found) refl
                  | inr miss ↦ rw miss (omega arith)
                ])
        ])
]

pub same_side_eq : (s t : Side) → same_side s t ≡ true → s ≡ t
same_side_eq Side.bid Side.bid e = refl
same_side_eq Side.ask Side.ask e = refl
same_side_eq Side.bid Side.ask e = absurd (cc)
same_side_eq Side.ask Side.bid e = absurd (cc)

-- What a change of one side of one book does to what the books show.
module _ (symbol : ℕ) (side : Side) (price : Option ℕ) (s : ℕ) (t : Side) (r : Option ℕ)
    (p : Publisher) where
  pub shown-change :
      (f : List (Option ℕ × ℕ) → List (Option ℕ × ℕ))
      → shown s t r (change_levels symbol side f p) ≡ (
          if (s == symbol) && same_side t side
          then or_zero (get_item (f (levels_of side (book_of symbol p))) r)
          else shown s t r p)
  shown-change f = elim (Bool-cases (s == symbol)) [
    | inl hit ↦
        let e : s ≡ symbol = number_keyed.same_eq s symbol hit in rw (hit, e) (at_symbol side t)
    | inr miss ↦ rw (miss, get-set_item p.books symbol _ s, miss) refl
  ]
    where
      at_symbol :
          (sd td : Side)
          → shown symbol td r (change_levels symbol sd f p) ≡ (
              if same_side td sd
              then or_zero (get_item (f (levels_of sd (book_of symbol p))) r)
              else shown symbol td r p)
      at_symbol Side.bid Side.bid =
          rw (get-set_item p.books symbol _ symbol, number_keyed.same_refl symbol) refl
      at_symbol Side.ask Side.ask =
          rw (get-set_item p.books symbol _ symbol, number_keyed.same_refl symbol) refl
      at_symbol Side.bid Side.ask =
          rw (get-set_item p.books symbol _ symbol, number_keyed.same_refl symbol) refl
      at_symbol Side.ask Side.bid =
          rw (get-set_item p.books symbol _ symbol, number_keyed.same_refl symbol) refl

  -- A change that is one of a number at the price.
  pub shown-place :
      (f : List (Option ℕ × ℕ) → List (Option ℕ × ℕ)) (h : Bool → ℕ → ℕ)
      → ((d : List (Option ℕ × ℕ))
          → or_zero (get_item (f d) r) ≡ h (same_option r price) (or_zero (get_item d r)))
      → ((n : ℕ) → h false n ≡ n)
      → shown s t r (change_levels symbol side f p)
        ≡ h ((s == symbol) && (same_side t side && same_option r price)) (shown s t r p)
  shown-place f h at_price elsewhere = shown-change f ∙ elim (Bool-cases (s == symbol)) [
    | inr miss ↦ rw miss (sym (elsewhere (shown s t r p)))
    | inl hit ↦ rw hit (elim (Bool-cases (same_side t side)) [
      | inr miss ↦ rw miss (sym (elsewhere (shown s t r p)))
      | inl at ↦
          let e : s ≡ symbol = equal_eq s symbol hit in
          let e' : t ≡ side = same_side_eq t side at in
          rw (at, e, e') (at_price (levels_of side (book_of symbol p)))
    ])
  ]

  pub shown-increment :
      (qty : ℕ)
      → shown s t r (change_levels symbol side (increment_level price qty) p)
        ≡ shown s t r p + share ((s == symbol) && (same_side t side && same_option r price)) qty
  shown-increment qty =
      shown-place (increment_level price qty) (λ b n. n + share b qty)
        (λ d. get-increment_level price qty d r) (λ n. omega arith)

  pub shown-decrement :
      (qty : ℕ)
      → shown s t r (change_levels symbol side (decrement_level price qty) p)
        ≡ shown s t r p - share ((s == symbol) && (same_side t side && same_option r price)) qty
  shown-decrement qty =
      shown-place (decrement_level price qty) (λ b n. n - share b qty)
        (λ d. get-decrement_level price qty d r) (λ n. omega arith)
