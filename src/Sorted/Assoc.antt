-- ===== src/Sorted/Assoc.antt =====
-- A sorted association list meets what the order book relies on of `SortedDict`.
use spectuel_backend.Prelude.{
  ℕ, ◌<◌, ◌≡◌, refl, Option, none, some, List, [], ◌∷◌, arith, ltb, ◌==◌, if◌then◌else◌, All,
  is_some,
}
use spectuel_backend.Sorted.{SortedDict}
use spectuel_backend.Sorted.Keys.{Ascending, has}

above_trans : (b c : ℕ) (ks : List ℕ) → b < c → All (λ j. c < j) ks → All (λ j. b < j) ks
above_trans b c [] lt a = tt
above_trans b c (k ∷ ks) lt a = (omega arith, above_trans b c ks lt a.1)

module _ {V : Type 0} where
  abbrev keys_of : List (ℕ × V) → List ℕ
  keys_of [] = []
  keys_of ((k, v) ∷ d) = k ∷ keys_of d

  abbrev look : List (ℕ × V) → ℕ → Option V
  look [] j = none
  look ((k, v) ∷ d) j = if j == k then some v else look d j

  abbrev insert : ℕ → V → List (ℕ × V) → List (ℕ × V)
  insert k v [] = (k, v) ∷ []
  insert k v ((j, w) ∷ d) =
      if k == j then (k, v) ∷ d else if ltb k j then (k, v) ∷ (j, w) ∷ d else (j, w) ∷ insert k v d

  abbrev delete : ℕ → List (ℕ × V) → List (ℕ × V)
  delete k [] = []
  delete k ((j, w) ∷ d) = let rest = delete k d in if k == j then rest else (j, w) ∷ rest

  pub look-insert :
      (d : List (ℕ × V)) (k : ℕ) (v : V) (j : ℕ)
      → look (insert k v d) j ≡ (if j == k then some v else look d j)
  look-insert [] k v j = refl
  look-insert ((i, w) ∷ d) k v j = ground (arith, look-insert d k v j)

  pub look-delete :
      (d : List (ℕ × V)) (k j : ℕ) → look (delete k d) j ≡ (if j == k then none else look d j)
  look-delete [] k j = ground arith
  look-delete ((i, w) ∷ d) k j = ground (arith, look-delete d k j)

  pub has-keys : (d : List (ℕ × V)) (k : ℕ) → has k (keys_of d) ≡ is_some (look d k)
  has-keys [] k = refl
  has-keys ((i, w) ∷ d) k = ground (arith, has-keys d k)

  above-insert :
      (b : ℕ) (d : List (ℕ × V)) (k : ℕ) (v : V)
      → b < k
      → All (λ j. b < j) (keys_of d)
      → All (λ j. b < j) (keys_of (insert k v d))
  above-insert b [] k v lt a = (lt, tt)
  above-insert b ((i, w) ∷ d) k v lt a = ground (arith, above-insert b d k v lt a.1)

  pub Ascending-insert :
      (d : List (ℕ × V)) (k : ℕ) (v : V)
      → Ascending (keys_of d)
      → Ascending (keys_of (insert k v d))
  Ascending-insert [] k v a = (tt, tt)
  Ascending-insert ((i, w) ∷ d) k v a =
      ground (arith, Ascending-insert d k v a.1, above-insert i d k v, above_trans k i (keys_of d))

  above-delete :
      (b : ℕ) (d : List (ℕ × V)) (k : ℕ)
      → All (λ j. b < j) (keys_of d)
      → All (λ j. b < j) (keys_of (delete k d))
  above-delete b [] k a = tt
  above-delete b ((i, w) ∷ d) k a = ground (arith, above-delete b d k a.1)

  pub Ascending-delete :
      (d : List (ℕ × V)) (k : ℕ) → Ascending (keys_of d) → Ascending (keys_of (delete k d))
  Ascending-delete [] k a = tt
  Ascending-delete ((i, w) ∷ d) k a = ground (arith, Ascending-delete d k a.1, above-delete i d k)

abbrev pub assoc_dict : (V : Type 0) → SortedDict V
assoc_dict V = record {
  Dict = (d : List (ℕ × V)) × Ascending (keys_of d);
  empty = ([], tt);
  get = λ d j. look d.0 j;
  set_item = λ d k v. (insert k v d.0, Ascending-insert d.0 k v d.1);
  pop = λ d k. (delete k d.0, Ascending-delete d.0 k d.1);
  keys = λ d. keys_of d.0;
  keys-empty = refl;
  get-set_item = λ d k v j. look-insert d.0 k v j;
  get-pop = λ d k j. look-delete d.0 k j;
  keys-Ascending = λ d. d.1;
  has-keys = λ d k. has-keys d.0 k;
}
