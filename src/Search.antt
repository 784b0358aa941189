-- ===== src/Search.antt =====
-- Go's `sort.Search` (the standard library's binary search), and the insertion into a slice that
-- internal/services/fastcache/lrulist.go and internal/services/retentionmanager/singleretentionmanager.go
-- build on it.
pub mod Splits
pub mod Slices
use go_blob_store.Prelude.{
  ℕ, zero, suc, ◌+◌, ◌/◌, Bool, false, none, some, List, [], ◌∷◌, ◌++◌, ltb, length, get_elem?, set,
  take, drop, ◌==◌, if◌then◌else◌,
}

-- `for i < j { h := (i + j) / 2; if !f(h) { i = h + 1 } else { j = h } }`. Each round shortens the
-- range, so that its length is fuel enough.
pub search_loop : ℕ → (ℕ → Bool) → ℕ → ℕ → ℕ
search_loop zero f i j = i
search_loop (suc k) f i j =
    let h = (i + j) / 2 in
    let lower = search_loop k f i h in
    let upper = search_loop k f (h + 1) j in if ltb i j then if f h then lower else upper else i

unfoldable pub sort_search : ℕ → (ℕ → Bool) → ℕ
unfolding search_loop
sort_search n f = search_loop n f 0 n

module _ {ℓ} {A : Type ℓ} where
  -- a test on `data[i]`
  abbrev pub test_at : (A → Bool) → List A → ℕ → Bool
  test_at p xs i = elim (get_elem? xs i) [ none ↦ false | some x ↦ p x ]

  -- `append(data, v)` at the end; else `data = append(data[:i+1], data[i:]...); data[i] = v`
  unfoldable pub insert_slice : List A → ℕ → A → List A
  insert_slice xs i v =
      if i == length xs then xs ++ v ∷ [] else set (take (suc i) xs ++ drop i xs) i v

  -- the first index whose element passes, by a linear scan
  abbrev pub lower_bound : (A → Bool) → List A → ℕ
  lower_bound p [] = 0
  lower_bound p (x ∷ xs) = if p x then 0 else suc (lower_bound p xs)

  -- in front of the first element that passes
  abbrev pub insert_before : (A → Bool) → A → List A → List A
  insert_before p v [] = v ∷ []
  insert_before p v (x ∷ xs) = if p x then v ∷ x ∷ xs else x ∷ insert_before p v xs
