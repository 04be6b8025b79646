-- ===== src/OrderService/Mirrored.antt =====
-- The rows and the command of `OrderService.create`
-- (src/api/routers/orders/service/service.py), one against the other.
use spectuel_backend.Prelude.{
  ℕ, suc, ◌≤◌, ◌<◌, ◌≡◌, refl, ap, Option, none, some, List, [], ◌∷◌, map, arith, All, Bool, true,
  false, ◌&&◌, ◌==◌, length,
}
use spectuel_backend.Sorted.{Ascending}
use spectuel_backend.Errors.{done}
use spectuel_backend.Enums.{StrategyType}
use spectuel_backend.Requests.{OrderBase, Details, is_valid, is_valid_base, all_valid, all_fit}
use spectuel_backend.OrderService.{
  NewRow, CommandDict, NewOrderCommand, Session, in_group, build_db_order, to_order_dict,
  create_single, create_legs, create_oco, create_oto, create_otoco, create,
}

-- The dicts that a command carries.
abbrev pub dicts_of : NewOrderCommand → List CommandDict
dicts_of (NewOrderCommand.new_single_order d) = d ∷ []
dicts_of (NewOrderCommand.new_oco_order legs) = legs
dicts_of (NewOrderCommand.new_oto_order p c) = p ∷ c ∷ []
dicts_of (NewOrderCommand.new_otoco_order p legs) = p ∷ legs

-- The dict that describes the order of a new row.
abbrev pub dict_of : NewRow → CommandDict
dict_of r = record {
  order_id = r.order_id;
  user_id = r.user_id;
  symbol = r.symbol;
  side = r.side;
  order_type = r.order_type;
  quantity = r.quantity;
  limit_price = r.limit_price;
  stop_price = r.stop_price;
  status = r.status;
  strategy_type = r.strategy_type;
  executed_quantity = 0;
  avg_fill_price = none;
}

abbrev pub ids_of : List NewRow → List ℕ
ids_of rows = map (λ (r : NewRow). r.order_id) rows

-- The command carries the orders of the rows in their order, and the ids of the orders all differ
-- and lie between those that were drawn before and those that are drawn after.
pub record IsMirrored (n : ℕ) (command : NewOrderCommand) (s : Session) : Type 0 where
  pub mirrored : dicts_of command ≡ map dict_of s.rows
  pub ascending : Ascending (ids_of s.rows)
  pub drawn : All (λ (j : ℕ). (n ≤ j) × (j < s.next_id)) (ids_of s.rows)

-- Whether the strategy type is that of the model.
abbrev pub agrees : StrategyType → Details → Bool
agrees StrategyType.single (Details.single_order symbol o) = true
agrees StrategyType.oco (Details.oco_order symbol legs) = true
agrees StrategyType.oto (Details.oto_order symbol p c) = true
agrees StrategyType.otoco (Details.otoco_order symbol p legs) = true
agrees _ _ = false

module _ (user symbol : ℕ) (group parent : Option ℕ) (t : StrategyType) where
  legs_mirrored :
      (os : List OrderBase) (n : ℕ)
      → let (rows, dicts, n') = create_legs user symbol group parent t os n in
        dicts ≡ map dict_of rows
  unfolding create_legs build_db_order to_order_dict
  legs_mirrored [] n = refl
  legs_mirrored (o ∷ os) n =
      ap (λ ds. to_order_dict n user o symbol t ∷ ds) (legs_mirrored os (suc n))

  legs_length :
      (os : List OrderBase) (n : ℕ)
      → length (create_legs user symbol group parent t os n).1 ≡ length os
  unfolding create_legs to_order_dict
  legs_length [] n = refl
  legs_length (o ∷ os) n = ap suc (legs_length os (suc n))

  legs_next : (os : List OrderBase) (n : ℕ) → n ≤ (create_legs user symbol group parent t os n).2
  unfolding create_legs
  legs_next [] n = omega arith
  legs_next (o ∷ os) n = omega (arith, legs_next os (suc n))

  legs_drawn :
      (m : ℕ) (os : List OrderBase) (n : ℕ)
      → m ≤ n
      → let (rows, dicts, n') = create_legs user symbol group parent t os n in
        All (λ (j : ℕ). (m ≤ j) × (j < n')) (ids_of rows)
  unfolding create_legs build_db_order
  legs_drawn m [] n le = tt
  legs_drawn m (o ∷ os) n le =
      ((le, omega (arith, legs_next os (suc n))), legs_drawn m os (suc n) (omega arith))

  drawn_above :
      (m k : ℕ) (js : List ℕ)
      → All (λ (j : ℕ). (suc m ≤ j) × (j < k)) js
      → All (λ (j : ℕ). m < j) js
  drawn_above m k [] d = tt
  drawn_above m k (j ∷ js) d = (omega (arith, d.0.0), drawn_above m k js d.1)

  legs-Ascending :
      (os : List OrderBase) (n : ℕ)
      → Ascending (ids_of (create_legs user symbol group parent t os n).0)
  unfolding create_legs build_db_order
  legs-Ascending [] n = tt
  legs-Ascending (o ∷ os) n = (
    drawn_above n (create_legs user symbol group parent t os (suc n)).2
        (ids_of (create_legs user symbol group parent t os (suc n)).0)
        (legs_drawn (suc n) os (suc n) (omega arith)),
    legs-Ascending os (suc n),
  )

both : (a b : Bool) → (a && b) ≡ true → (a ≡ true) × (b ≡ true)
both true true e = (refl, refl)
both true false e = absurd (cc)
both false b e = absurd (cc)

oco-two :
    (symbol : ℕ) (legs : List OrderBase)
    → is_valid (Details.oco_order symbol legs) ≡ true
    → length legs ≡ 2
unfolding is_valid
oco-two symbol legs e = let (two, rest) = both (length legs == 2) (all_valid legs) e in ground arith

otoco-two :
    (symbol : ℕ) (p : OrderBase) (legs : List OrderBase)
    → is_valid (Details.otoco_order symbol p legs) ≡ true
    → length legs ≡ 2
unfolding is_valid
otoco-two symbol p legs e =
    let (base, rest) =
      both (is_valid_base p) ((length legs == 2) && (all_valid legs && all_fit p legs)) e in
    let (two, fit) = both (length legs == 2) (all_valid legs && all_fit p legs) rest in ground arith

create_oco-IsMirrored :
    (symbol : ℕ) (legs : List OrderBase) (user n : ℕ)
    → length legs ≡ 2
    → (command : NewOrderCommand) × (s : Session) × (create_oco user symbol legs n ≡ done command s)
      × IsMirrored n command s
unfolding create_oco
create_oco-IsMirrored symbol legs user n two =
    let t = StrategyType.oco in
    let m = suc n in
    let group = some n in
    let (rows, dicts, n') = create_legs user symbol group none t legs m in
    (
      NewOrderCommand.new_oco_order dicts,
      record { rows = rows; next_id = n' },
      rw (legs_length user symbol group none t legs m, two) refl,
      record {
        mirrored = legs_mirrored user symbol group none t legs m;
        ascending = legs-Ascending user symbol group none t legs m;
        drawn = legs_drawn user symbol group none t n legs m (omega arith);
      },
    )

create_otoco-IsMirrored :
    (symbol : ℕ) (p : OrderBase) (legs : List OrderBase) (user n : ℕ)
    → length legs ≡ 2
    → (command : NewOrderCommand) × (s : Session) × (create_otoco user symbol p legs n
        ≡ done command s)
      × IsMirrored n command s
unfolding create_otoco build_db_order to_order_dict
create_otoco-IsMirrored symbol p legs user n two =
    let t = StrategyType.otoco in
    let m = suc n in
    let group = some n in
    let parent = some m in
    let (rows, dicts, n') = create_legs user symbol group parent t legs (suc m) in
    let drawn_legs = legs_drawn user symbol group parent t (suc m) legs (suc m) (omega arith) in
    (
      NewOrderCommand.new_otoco_order (to_order_dict m user p symbol t) dicts,
      record { rows = in_group group none (build_db_order symbol user p m t) ∷ rows; next_id = n' },
      rw (legs_length user symbol group parent t legs (suc m), two) refl,
      record {
        mirrored =
            ap (λ ds. to_order_dict m user p symbol t ∷ ds)
              (legs_mirrored user symbol group parent t legs (suc m));
        ascending = (
          drawn_above user symbol group parent t m n' (ids_of rows) drawn_legs,
          legs-Ascending user symbol group parent t legs (suc m),
        );
        drawn = (
          (omega arith, omega (arith, legs_next user symbol group parent t legs (suc m))),
          legs_drawn user symbol group parent t n legs (suc m) (omega arith),
        );
      },
    )

-- If a request is valid and its strategy type is that of its model, then its creation succeeds,
-- the command carries dicts of just the orders of the rows, in their order, and the orders' ids
-- all differ and lie between those drawn before and those drawn after.
pub create-IsMirrored :
    (t : StrategyType) (d : Details) (user n : ℕ)
    → agrees t d ≡ true
    → is_valid d ≡ true
    → (command : NewOrderCommand) × (s : Session) × (create t d user n ≡ done command s)
      × IsMirrored n command s
unfolding create create_single create_oto build_db_order to_order_dict
create-IsMirrored StrategyType.single (Details.single_order symbol o) user n e v = (
  NewOrderCommand.new_single_order (to_order_dict n user o symbol StrategyType.single),
  record { rows = build_db_order symbol user o n StrategyType.single ∷ []; next_id = suc n },
  refl,
  record { mirrored = refl; ascending = (tt, tt); drawn = ((omega arith, omega arith), tt) },
)
create-IsMirrored StrategyType.oco (Details.oco_order symbol legs) user n e v =
    create_oco-IsMirrored symbol legs user n (oco-two symbol legs v)
create-IsMirrored StrategyType.oto (Details.oto_order symbol p c) user n e v =
    let t = StrategyType.oto in
    (
      NewOrderCommand.new_oto_order (to_order_dict (suc n) user p symbol t)
          (to_order_dict (suc (suc n)) user c symbol t),
      record {
        rows =
            in_group (some n) none (build_db_order symbol user p (suc n) t)
            ∷ in_group (some n) (some (suc n)) (build_db_order symbol user c (suc (suc n)) t)
            ∷ [];
        next_id = suc (suc (suc n));
      },
      refl,
      record {
        mirrored = refl;
        ascending = ((omega arith, tt), (tt, tt));
        drawn = ((omega arith, omega arith), ((omega arith, omega arith), tt));
      },
    )
create-IsMirrored StrategyType.otoco (Details.otoco_order symbol p legs) user n e v =
    create_otoco-IsMirrored symbol p legs user n (otoco-two symbol p legs v)
create-IsMirrored t d user n e v = absurd (cc)
