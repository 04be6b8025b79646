-- ===== src/Engine/Placed.antt =====
-- The placement of a limit order that does not cross
-- (src/engine/strategies/single_strategy.py).
use spectuel_backend.Prelude.{
  ℕ, suc, ◌≡◌, refl, true, false, Option, some, none, ◌==◌, ◌≢◌, arith, ap, put, write, List, [],
  ◌∷◌, ◌++◌,
}
use spectuel_backend.Errors.{Run, done, ok, state_of}
use spectuel_backend.Enums.{Side, OrderType, OrderEventType, opposite}
use spectuel_backend.PriceLevel.{PriceLevel}
use spectuel_backend.Sorted.{SortedDict}
use spectuel_backend.Redis.{Redis}
use spectuel_backend.Order.{Order, OrderDict, new_order, holds_order}
use spectuel_backend.OrderBook
use spectuel_backend.OrderBook.{Market, BookOrder, side_levels}
use spectuel_backend.OrderBook.Best.{BestValid, present, append-BestValid}
use spectuel_backend.OrderBook.Chains.{IsSound, replaced}
use spectuel_backend.OrderBook.Chains.Append.{append-IsSound}
use spectuel_backend.PriceLevel.Chain.{Cell, find}
use spectuel_backend.PriceLevel.Append.{cell}
use spectuel_backend.State.{State, book_order, run_market, store_add}
use spectuel_backend.State.Runs.{after_done}
use spectuel_backend.Strategy.{log_order}
use spectuel_backend.Crossing.{limit_crossable}
use spectuel_backend.Crossing.Levels.{Meets, limit_passive}
use spectuel_backend.Placing.{
  single_new, is_matchable, match_or_place, place_single, set_placed, with_limit,
}
use spectuel_backend.Engine.Steps.{log_order_done, price_done, logged, store_add_done}

same : (n : ℕ) → (n == n) ≡ true
same n = ground arith

unlimited : (t : OrderType) → t ≡ OrderType.limit → (q : ℕ) (d : OrderDict) → with_limit t q d ≡ d
unlimited OrderType.limit h q d = refl
unlimited OrderType.stop h q d = refl
unlimited OrderType.market h q d = absurd (cc)

found : (f : ℕ → Option ℕ) (k r : ℕ) → put f k r k ≡ some r
found f k r = ground arith

module _ ⦃D : SortedDict PriceLevel⦄ ⦃R : Redis⦄ where
  -- The order object `r` before it is placed.
  pub record IsNewLimit (r p : ℕ) (s : State) : Type 0 where
    pub limit : (s.objects r).order_type ≡ OrderType.limit
    pub at_price : (s.objects r).limit_price ≡ some p
    pub users : ((s.objects r).user_id == s.system_user_id) ≡ false
    pub unlinked : holds_order (s.objects r) ≡ false
    pub fresh : s.order_store (s.objects r).id ≡ none

  module _ (r p : ℕ) (s : State) (m : Market) (v : IsNewLimit r p s)
      (appended : OrderBook.append (book_order r (s.objects r)) (some p) s.market ≡ done tt m) where
    abbrev written : State
    written = record s { objects = write s.objects r (set_placed (s.objects r)) }

    abbrev sent : State
    sent = logged r written OrderEventType.order_placed

    abbrev stored : State
    stored = record sent { order_store = put s.order_store (sent.objects r).id r }

    abbrev placed : State
    placed = record stored { market = m }

    log_done : log_order OrderEventType.order_placed r written ≡ done tt sent
    unfolding holds_order
    log_done =
        log_order_done r written OrderEventType.order_placed refl (rw (same r) v.users)
          (rw (same r) v.unlinked)

    store_done : store_add r sent ≡ done tt stored
    store_done = store_add_done r sent (rw (same r) v.fresh)

    appended_at : OrderBook.append (book_order r (written.objects r)) (some p) s.market ≡ done tt m
    appended_at = rw (same r) appended

    place_done : place_single r s ≡ done tt placed
    unfolding place_single
    place_done = after_done _ log_done (
        after_done _ store_done (
          after_done _ (price_done r stored p (rw (same r) v.limit) (rw (same r) v.at_price))
            (ap (run_market stored) appended_at)))

    not_matched :
        limit_crossable (some p) (s.objects r).side s.market.book ≡ ok false
        → is_matchable r s ≡ done false s
    unfolding is_matchable
    not_matched passive = rw (v.limit, v.at_price, passive) refl

  -- The placement, where the test and the append of the order are known.
  placed_by_append :
      (fuel p : ℕ) (d : OrderDict) (m : Market) (s : State)
      → d.order_type ≡ OrderType.limit
      → d.limit_price ≡ some p
      → d.user_id ≢ s.system_user_id
      → s.order_store d.order_id ≡ none
      → limit_crossable (some p) d.side s.market.book ≡ ok false
      → OrderBook.append
          (record { ref = s.next_object; id = d.order_id; side = d.side })
          (some p)
          s.market
        ≡ done tt m
      → (s' : State) × (single_new fuel d s ≡ done tt s')
        × (s'.market ≡ m)
        × (s'.order_store d.order_id ≡ some s.next_object)
        × (s'.redis ≡ s.redis)
  unfolding single_new new_order holds_order
  placed_by_append fuel p d m s limit at_price user fresh passive appended =
      let n : ℕ = s.next_object in
      let o : Order = new_order (with_limit d.order_type s.market.book.cur_price d) none in
      let s1 : State = record s { objects = write s.objects n o; next_object = suc n } in
      let e : with_limit d.order_type s.market.book.cur_price d ≡ d =
        unlimited d.order_type limit s.market.book.cur_price d in
      let v : IsNewLimit n p s1 = record {
        limit = rw (same n, e) limit;
        at_price = rw (same n, e) at_price;
        users = rw (same n, e) (ground arith);
        unlinked = rw (same n) refl;
        fresh = rw (same n, e) fresh;
      } in
      let app : OrderBook.append (book_order n (s1.objects n)) (some p) s1.market ≡ done tt m =
        rw (same n, e) appended in
      (
        placed n p s1 m v app,
        after_done (λ matchable. match_or_place matchable fuel n)
            (not_matched n p s1 m v app (rw (same n, e) passive)) (place_done n p s1 m v app),
        refl,
        rw (same n, e) (found s.order_store d.order_id n),
        refl,
      )

  -- If a single limit order of a user other than the system's meets no level of the other side,
  -- its id is neither in the order store nor in the level of its side and price, and the book
  -- is sound with its best prices right, then its placement succeeds whatever the fuel: the
  -- book is sound with a new cell for the order behind the others of that level and no other
  -- change of the levels' cells, its best prices are right, the store finds the new order
  -- object under the id, and no balance moves.
  pub passive_limit_rests :
      (fuel p : ℕ) (d : OrderDict) (cells : Side → ℕ → List Cell) (s : State)
      → d.order_type ≡ OrderType.limit
      → d.limit_price ≡ some p
      → d.user_id ≢ s.system_user_id
      → s.order_store d.order_id ≡ none
      → BestValid s.market.book
      → IsSound cells s.market
      → find d.order_id (cells d.side p) ≡ none
      → ((k : ℕ)
          → present (side_levels (opposite d.side) s.market.book) k ≡ true
          → Meets d.side p k
          → ⊥)
      → (s' : State) × (single_new fuel d s ≡ done tt s')
        × IsSound
            (replaced cells d.side p
              (cells d.side p ++ (cell s.market.nodes.fresh s.next_object d.order_id ∷ [])))
            s'.market
        × BestValid s'.market.book
        × (s'.order_store d.order_id ≡ some s.next_object)
        × (s'.redis ≡ s.redis)
  passive_limit_rests fuel p d cells s limit at_price user fresh best sound new apart =
      let o : BookOrder = record { ref = s.next_object; id = d.order_id; side = d.side } in
      let (m, appended, held) = append-IsSound cells o p s.market sound new in
      let passive = limit_passive p d.side s.market.book best apart in
      let (s', placed, market, store, redis) =
        placed_by_append fuel p d m s limit at_price user fresh passive appended in
      let kept : BestValid m.book =
        rw (ap (λ (r : Run Market (Unit {0})). (state_of r).book) appended) at
          (append-BestValid o (some p) s.market best) in
      (s', placed, rw market held, rw market kept, store, redis)
