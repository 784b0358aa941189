-- ===== src/Search/Slices.antt =====
-- Insertion at a search's result, and removal, as recursion on the list.
use go_blob_store.Prelude.{
  All, ℕ, zero, suc, ◌≤◌, ◌≡◌, refl, sym, ap, ◌∙◌, Bool, List, [], ◌∷◌, ◌++◌, arith, length, set,
  take, drop, inl, inr, Bool-cases, ◌==◌, ==_iff,
}
use go_blob_store.Search.{insert_slice, lower_bound, insert_before}

module _ {ℓ} {A : Type ℓ} where
  set_shifted :
      (xs : List A) (i : ℕ) (v : A)
      → suc i ≤ length xs
      → set (take (suc i) xs ++ drop i xs) i v ≡ take i xs ++ v ∷ drop i xs
  set_shifted [] i v h = absurd (omega arith)
  set_shifted (x ∷ xs) zero v h = refl
  set_shifted (x ∷ xs) (suc i) v h = ap (◌∷◌ x) (set_shifted xs i v (omega arith))

  append_at_end :
      (xs : List A) (v : A) → take (length xs) xs ++ v ∷ drop (length xs) xs ≡ xs ++ v ∷ []
  append_at_end [] v = refl
  append_at_end (x ∷ xs) v = ap (◌∷◌ x) (append_at_end xs v)

  -- An insertion in range keeps the elements in front of the index and behind it.
  pub insert_slice_lem :
      (xs : List A) (i : ℕ) (v : A)
      → i ≤ length xs
      → insert_slice xs i v ≡ take i xs ++ v ∷ drop i xs
  unfolding insert_slice
  insert_slice_lem xs i v h = elim (Bool-cases (i == length xs)) [
    | inl end ↦ rw end (rw ((==_iff i (length xs)).0 end) (sym (append_at_end xs v)))
    | inr inside ↦ rw inside (set_shifted xs i v (ground arith))
  ]

  module _ (p : A → Bool) where
    pub lower_bound-le : (xs : List A) → lower_bound p xs ≤ length xs
    lower_bound-le [] = omega arith
    lower_bound-le (x ∷ xs) = ground (arith, lower_bound-le xs)

    insert_at_lower_bound :
        (xs : List A) (v : A)
        → take (lower_bound p xs) xs ++ v ∷ drop (lower_bound p xs) xs ≡ insert_before p v xs
    insert_at_lower_bound [] v = refl
    insert_at_lower_bound (x ∷ xs) v = elim (Bool-cases (p x)) [
      | inl here ↦ rw here
      | inr later ↦ rw later (ap (◌∷◌ x) (insert_at_lower_bound xs v))
    ]

    pub insert_slice-lower_bound :
        (xs : List A) (v : A) → insert_slice xs (lower_bound p xs) v ≡ insert_before p v xs
    insert_slice-lower_bound xs v =
        insert_slice_lem xs (lower_bound p xs) v (lower_bound-le xs) ∙ insert_at_lower_bound xs v

-- the elements after an insertion
pub All-insert_before {ℓ κ} :
    {A : Type ℓ} (P : A → Type κ) (p : A → Bool) (v : A) (xs : List A)
    → P v
    → All P xs
    → All P (insert_before p v xs)
All-insert_before P p v [] here h = (here, tt)
All-insert_before P p v (x ∷ xs) here h = elim (Bool-cases (p x)) [
  | inl earlier ↦ rw earlier (here, h)
  | inr later ↦ rw later (h.0, All-insert_before P p v xs here h.1)
]
