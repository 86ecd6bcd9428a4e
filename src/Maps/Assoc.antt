-- ===== src/Maps/Assoc.antt =====
-- An association list is such a map: the laws that are asked of the containers can be met.
use dracula.Maps.{
  some, bytes_eq, true, is_some, none, [], Option, StringMap, RedBlackTree, HashMap, contains,
  distinct,
}
use dracula.Prelude.{
  inr, ap, some, inl, bytes_eq_iff, bytes_eq, arith, Bool-cases, true, is_some, none, if◌then◌else◌,
  refl, [], Option, ◌≡◌, ◌∷◌, Bytes, List,
}

module _ {V : Type 0} where
  unfoldable pub get : List (Bytes × V) → Bytes → Option V
  get [] k = none
  get ((j, v) ∷ m) k = if bytes_eq j k then some v else get m k

  unfoldable pub remove : List (Bytes × V) → Bytes → List (Bytes × V)
  remove [] k = []
  remove ((j, v) ∷ m) k = let rest = remove m k in if bytes_eq j k then rest else (j, v) ∷ rest

  unfoldable pub put : List (Bytes × V) → Bytes → V → List (Bytes × V)
  unfolding remove
  put m k v = (k, v) ∷ remove m k

  unfoldable pub keys : List (Bytes × V) → List Bytes
  unfolding contains
  keys [] = []
  keys ((j, v) ∷ m) = let rest = keys m in if contains j rest then rest else j ∷ rest

  pub get-empty : (k : Bytes) → get [] k ≡ none
  unfolding get
  get-empty k = refl

  pub get-remove :
      (m : List (Bytes × V)) (k j : Bytes)
      → get (remove m k) j ≡ (if bytes_eq k j then none else get m j)
  unfolding get remove
  get-remove [] k j = ground arith
  get-remove ((i, v) ∷ m) k j =
      ground (arith, get-remove m k j, bytes_eq_iff i k, bytes_eq_iff i j, bytes_eq_iff k j)

  pub get-put :
      (m : List (Bytes × V)) (k j : Bytes) (v : V)
      → get (put m k v) j ≡ (if bytes_eq k j then some v else get m j)
  unfolding get put
  get-put m k j v = ground (arith, get-remove m k j)

  pub contains-keys : (m : List (Bytes × V)) (k : Bytes) → contains k (keys m) ≡ is_some (get m k)
  unfolding get keys
  contains-keys [] k = refl
  contains-keys ((j, v) ∷ m) k = elim (Bool-cases (bytes_eq j k)) [
    | inl e ↦
        let same : contains j (keys m) ≡ contains k (keys m) =
          ap (λ i. contains i (keys m)) ((bytes_eq_iff j k).0 e) in
        ground (arith, contains-keys m k, same)
    | inr e ↦ ground (arith, contains-keys m k)
  ]

  pub distinct-keys : (m : List (Bytes × V)) → distinct (keys m) ≡ true
  unfolding keys distinct
  distinct-keys [] = refl
  distinct-keys ((j, v) ∷ m) = ground (arith, distinct-keys m)

abbrev pub assoc_map : StringMap
assoc_map = record {
  Map = λ V. List (Bytes × V);
  empty = [];
  get = get;
  put = put;
  remove = remove;
  keys = keys;
  get-empty = get-empty;
  get-put = get-put;
  get-remove = get-remove;
  contains-keys = contains-keys;
  distinct-keys = distinct-keys;
}

instance abbrev pub assoc_tree : RedBlackTree
assoc_tree = record { map = assoc_map }

instance abbrev pub assoc_hash : HashMap
assoc_hash = record { map = assoc_map }
