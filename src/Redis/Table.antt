-- ===== src/Redis/Table.antt =====
-- Tables of amounts and of hash fields meet what the scripts rely on of Redis.
use spectuel_backend.Prelude.{
  ℕ, refl, Bool, true, false, ◌&&◌, Option, none, some, ◌==◌, if◌then◌else◌,
}
use spectuel_backend.Prelude.Int.{ℤ, ◌+ℤ◌}
use spectuel_backend.Redis.{Redis, Key, same_key, amount_or_zero}

pub record Tables : Type 0 where
  pub amounts : Key → Option ℤ
  pub fields : Key → ℕ → Bool

abbrev pub no_tables : Tables
no_tables = record { amounts = λ k. none; fields = λ k f. false }

abbrev pub table_redis : Redis
table_redis = record {
  Store = Tables;
  get = λ s k. s.amounts k;
  set = λ s k v. record s { amounts = λ j. if same_key j k then some v else s.amounts j };
  incrbyfloat = λ s k v. record s {
    amounts = λ j. if same_key j k then some (amount_or_zero (s.amounts k) +ℤ v) else s.amounts j;
  };
  hexists = λ s k f. s.fields k f;
  hset =
      λ s k f v. record s { fields = λ j g. if same_key j k && g == f then true else s.fields j g };
  get-set = λ s k v j. refl;
  get-incrbyfloat = λ s k v j. refl;
  get-hset = λ s k f v j ne. refl;
  hexists-set = λ s k v j f ne. refl;
  hexists-incrbyfloat = λ s k v j f ne. refl;
  hexists-hset = λ s k f v j g. refl;
}
