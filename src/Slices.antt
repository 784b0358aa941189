-- ===== src/Slices.antt =====
-- internal/utils/slicesutils/slicesutils.go: membership and removal in a slice of strings. `Remove`
-- works in place; its callers keep only its result.
pub mod Counts
use go_blob_store.Prelude.{
  ℕ, suc, String, ℤ, pos, negsuc, Bool, none, some, List, [], ◌∷◌, ◌-◌, str_eq, length, get_elem?,
  set, take, any, if◌then◌else◌,
}

unfoldable pub contains : List String → String → Bool
contains s e = any (λ a. str_eq a e) s

-- the index of the first equal element, from `i` on
unfoldable find_from : List String → String → ℕ → ℤ
find_from [] e i = negsuc 0
find_from (n ∷ s) e i = let rest = find_from s e (suc i) in if str_eq e n then pos i else rest

unfoldable pub find : List String → String → ℤ
unfolding find_from
find s e = find_from s e 0

-- `s[i] = s[len(s)-1]`, then `s[:len(s)-1]`; out of range there is nothing to write
unfoldable pub remove : List String → ℕ → List String
remove s i = elim (get_elem? s (length s - 1)) [
  | none ↦ s
  | some last ↦ take (length s - 1) (set s i last)
]

unfoldable remove_found : List String → ℤ → List String
remove_found s (pos i) = remove s i
remove_found s (negsuc i) = s

unfoldable pub remove_string : List String → String → List String
unfolding remove_found
remove_string s e = remove_found s (find s e)
