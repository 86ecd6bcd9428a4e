-- ===== src/Tree/Tests.antt =====
-- store/tree/tree.go: runs of the methods, and the theorems at a concrete tree.
use dracula.Maps.Assoc as Assoc
use dracula.Maps.Assoc.{assoc_tree}
use dracula.Maps.{contains}
use dracula.Prelude.Int.{ℤ, add64, pos}
use dracula.Prelude.{Bytes, ◌≡◌, refl, true, inr, bytes_of, keep, [], ◌∷◌}
use dracula.Tree.{Tree, Regexp, new_tree, put, count, keys, key_match, remove_expired}
use dracula.Tree.Crawl.{live_at, is_live, matching, contains-keys, key_match-live}

abbrev times : Bytes → ℤ
times k = pos 170

abbrev ip1 : Bytes
ip1 = bytes_of "10.0.0.1"

abbrev ip2 : Bytes
ip2 = bytes_of "10.0.0.2"

-- One key with an expired and an unexpired entry, and one whose entry has expired.
abbrev two_keys : Tree
two_keys =
    put (pos 150) (pos 150)
      (put (pos 105) (pos 105) (put (pos 100) (pos 100) (new_tree (pos 60)) ip1) ip2) ip1

abbrev everything : Regexp
everything = record { compile = λ pattern. inr (λ k. true) }

keys_run : (keys times two_keys).1 ≡ ip1 ∷ []
unfolding keys put count new_tree remove_expired add64 Assoc.keys Assoc.put Assoc.get
keys_run = refl

contains-keys_example : contains ip1 (keys times two_keys).1 ≡ is_live times two_keys ip1
contains-keys_example = contains-keys times two_keys ip1

key_match-live_example :
    ((key_match everything times two_keys (bytes_of "*")).1
      ≡ keep (matching times (λ k. true) two_keys) (assoc_tree.map.keys two_keys.tree))
    × ((j : Bytes)
        → live_at times (key_match everything times two_keys (bytes_of "*")).0 j
          ≡ live_at times two_keys j)
    × ((key_match everything times two_keys (bytes_of "*")).0.default_expire_after_secs
        ≡ two_keys.default_expire_after_secs)
key_match-live_example = key_match-live times everything two_keys (bytes_of "*") (λ k. true) refl
