-- ===== src/Maps.antt =====
-- The containers of github.com/emirpasic/gods that store/store.go and store/tree/tree.go use: maps
-- from strings, of which the program relies on what is documented of any map.
pub mod Assoc
use dracula.Prelude.{
  [], is_some, some, ◌&&◌, ◌||◌, if◌then◌else◌, not, bytes_eq, none, ◌∷◌, ◌≡◌, true, false, Option,
  Bool, List, Bytes,
}

-- Is the key in the list?
unfoldable pub contains : Bytes → List Bytes → Bool
contains k [] = false
contains k (j ∷ js) = bytes_eq j k || contains k js

-- No key stands in the list twice.
unfoldable pub distinct : List Bytes → Bool
distinct [] = true
distinct (j ∷ js) = not (contains j js) && distinct js

pub record StringMap : Type 1 where
  pub Map : Type 0 → Type 0
  pub empty : {V : Type 0} → Map V
  pub get : {V : Type 0} → Map V → Bytes → Option V
  pub put : {V : Type 0} → Map V → Bytes → V → Map V
  pub remove : {V : Type 0} → Map V → Bytes → Map V
  pub keys : {V : Type 0} → Map V → List Bytes
  pub get-empty : {V : Type 0} (k : Bytes) → get (empty {V = V}) k ≡ none
  pub get-put :
      {V : Type 0} (m : Map V) (k j : Bytes) (v : V)
      → get (put m k v) j ≡ (if bytes_eq k j then some v else get m j)
  pub get-remove :
      {V : Type 0} (m : Map V) (k j : Bytes)
      → get (remove m k) j ≡ (if bytes_eq k j then none else get m j)
  pub contains-keys : {V : Type 0} (m : Map V) (k : Bytes) → contains k (keys m) ≡ is_some (get m k)
  pub distinct-keys : {V : Type 0} (m : Map V) → distinct (keys m) ≡ true

-- `redblacktree.Tree` with a string comparator, and `hashmap.Map` with string keys.
pub record RedBlackTree : Type 1 where
  pub map : StringMap

pub record HashMap : Type 1 where
  pub map : StringMap
