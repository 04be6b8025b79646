-- ===== src/State.antt =====
-- The state that the engine's code runs on, and calls that read it, write it and may raise:
-- `ExecutionContext` (src/engine/execution_context.py), the order objects, the balances in Redis,
-- and what has been logged. Random ids are drawn from a counter, so no id comes twice.
mod Events
pub mod Runs
pub use Events.*
use spectuel_backend.Prelude.{
  ℕ, suc, Bool, true, false, Option, none, some, List, ◌∷◌, ◌==◌, write, put, drop_key, is_some,
}
use spectuel_backend.Errors.{Error, Result, ok, err, Run, done, raised, attribute_error, type_error}
use spectuel_backend.Enums.{Side}
use spectuel_backend.PriceLevel.{PriceLevel}
use spectuel_backend.Sorted.{SortedDict}
use spectuel_backend.OrderBook
use spectuel_backend.OrderBook.{Market, BookOrder}
use spectuel_backend.Redis.{Redis}
use spectuel_backend.Order
use spectuel_backend.Order.{Order, OrderDict, new_order}

module _ ⦃D : SortedDict PriceLevel⦄ ⦃R : Redis⦄ where
  pub record State : Type 0 where
    pub objects : ℕ → Order
    pub next_object : ℕ
    pub market : Market
    pub order_store : ℕ → Option ℕ
    pub redis : R.Store
    pub log : List Event
    pub next_uuid : ℕ
    -- whether the logger's `on_log_command_event` is set
    pub command_hook : Bool
    pub cur_command_id : ℕ
    pub symbol : ℕ
    pub system_user_id : ℕ

  abbrev pub M : Type 0 → Type 0
  M A = State → Run State A

  abbrev pub pure : {A : Type 0} → A → M A
  pure a s = done a s

  abbrev pub raise : {A : Type 0} → Error → M A
  raise e s = raised e s

  infixl 5 ◌>>=◌ ◌>>◌
  abbrev pub ◌>>=◌ : {A B : Type 0} → M A → (A → M B) → M B
  ◌>>=◌ m f s = elim (m s) [ done a s' ↦ f a s' | raised e s' ↦ raised e s' ]

  abbrev pub ◌>>◌ : {A B : Type 0} → M A → M B → M B
  m >> k = m >>= λ _. k

  abbrev pub gets : {A : Type 0} → (State → A) → M A
  gets f s = done (f s) s

  abbrev pub modify : (State → State) → M (Unit {0})
  modify f s = done tt (f s)

  abbrev pub when : Bool → M (Unit {0}) → M (Unit {0})
  when true m = m
  when false m = pure tt

  abbrev pub of_result : {A : Type 0} → Result A → M A
  of_result (ok a) = pure a
  of_result (err e) = raise e

  -- A number is needed where `None` makes Python raise a `TypeError`.
  abbrev pub number : Option ℕ → M ℕ
  number none = raise type_error
  number (some n) = pure n

  -- Reading an attribute of `None`.
  abbrev pub linked : Option ℕ → M ℕ
  linked none = raise attribute_error
  linked (some r) = pure r

  abbrev pub set_market : State → Market → State
  set_market s m = record s { market = m }

  -- A call on the order book.
  abbrev pub run_market : State → Run Market (Unit {0}) → Run State (Unit {0})
  run_market s (done a m) = done a (set_market s m)
  run_market s (raised e m) = raised e (set_market s m)

  abbrev pub on_market : (Market → Run Market (Unit {0})) → M (Unit {0})
  on_market f s = run_market s (f s.market)

  -- The fields of the order object `r`.
  abbrev pub deref : ℕ → M Order
  deref r = gets (λ s. s.objects r)

  abbrev pub assign : ℕ → (Order → Order) → M (Unit {0})
  assign r f = modify (λ s. record s { objects = write s.objects r (f (s.objects r)) })

  -- A new order object, and its reference.
  abbrev pub create : Order → M ℕ
  create o s =
      done s.next_object
        (record s { objects = write s.objects s.next_object o; next_object = suc s.next_object })

  -- `uuid4()`
  abbrev pub new_uuid : M ℕ
  new_uuid s = done s.next_uuid (record s { next_uuid = suc s.next_uuid })

  abbrev pub emit : Event → M (Unit {0})
  emit e = modify (λ s. record s { log = e ∷ s.log })

  abbrev pub price_of : ℕ → M (Option ℕ)
  price_of r = do o ← deref r; of_result (Order.price o)

  abbrev pub book_order : ℕ → Order → BookOrder
  book_order r o = record { ref = r; id = o.id; side = o.side }

  -- `ctx.orderbook.append(order, price)` and `ctx.orderbook.remove(order, price)`
  abbrev pub book_append : ℕ → Option ℕ → M (Unit {0})
  book_append r p = do o ← deref r; on_market (OrderBook.append (book_order r o) p)

  abbrev pub book_remove : ℕ → Option ℕ → M (Unit {0})
  book_remove r p = do o ← deref r; on_market (OrderBook.remove (book_order r o) p)

  -- `OrderStore.add`, a `setdefault` on the order's id
  unfoldable pub store_add : ℕ → M (Unit {0})
  store_add r s =
      let id = (s.objects r).id in
      done tt (elim (s.order_store id) [
        | none ↦ record s { order_store = put s.order_store id r }
        | some _ ↦ s
      ])

  -- `OrderStore.remove`
  unfoldable pub store_remove : ℕ → M (Unit {0})
  store_remove r s = done tt (record s { order_store = drop_key s.order_store (s.objects r).id })

  -- `OrderStore.get`
  unfoldable pub store_get : ℕ → M (Option ℕ)
  store_get id = gets (λ s. s.order_store id)

  -- `self.price` of the book
  abbrev pub cur_price : M ℕ
  cur_price = gets (λ s. s.market.book.cur_price)
