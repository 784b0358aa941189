-- ===== src/Search/Splits.antt =====
-- `sort.Search` finds the first index that passes.
use go_blob_store.Prelude.{
  ℕ, zero, suc, ◌+◌, ◌-◌, ◌/◌, ◌≤◌, ◌<◌, ◌≡◌, Bool, true, false, List, [], ◌∷◌, arith, length, All,
  inl, inr, Bool-cases, ltb,
}
use native.Mathlib.Decide.{dec_lt}
use go_blob_store.Search.{search_loop, sort_search, test_at, lower_bound}

-- below `r` the test fails, and from `r` on it passes
pub record Splits (n : ℕ) (f : ℕ → Bool) (r : ℕ) : Type 0 where
  pub in_range : r ≤ n
  pub below : (k : ℕ) → k < r → f k ≡ false
  pub above : (k : ℕ) → r ≤ k → k < n → f k ≡ true

pub Splits-unique : (n : ℕ) (f : ℕ → Bool) (r s : ℕ) → Splits n f r → Splits n f s → r ≡ s
Splits-unique n f r s p q = elim (dec_lt r s) [
  | yes lt ↦ absurd (cc (p.above r (omega arith) (omega (arith, q.in_range)), q.below r lt))
  | no ge ↦ elim (dec_lt s r) [
    | yes gt ↦ absurd (cc (q.above s (omega arith) (omega (arith, p.in_range)), p.below s gt))
    | no le ↦ omega arith
  ]
]

search_loop-Splits :
    (fuel n : ℕ) (f : ℕ → Bool) (r i j : ℕ)
    → Splits n f r
    → i ≤ r
    → r ≤ j
    → j ≤ n
    → j - i ≤ fuel
    → search_loop fuel f i j ≡ r
unfolding search_loop
search_loop-Splits zero n f r i j p h k m d = omega arith
search_loop-Splits (suc fuel) n f r i j p h k m d = elim (Bool-cases (ltb i j)) [
  | inr done ↦ rw done (ground arith)
  | inl more ↦ elim (dec_lt ((i + j) / 2) r) [
    | yes low ↦
        rw (more, p.below ((i + j) / 2) low)
          (search_loop-Splits fuel n f r ((i + j) / 2 + 1) j p (omega arith) k m (ground arith))
    | no high ↦
        rw (more, p.above ((i + j) / 2) (omega arith) (ground arith))
          (search_loop-Splits fuel n f r i ((i + j) / 2) p h (omega arith) (ground arith)
            (ground arith))
  ]
]

-- Where one index splits the range, the binary search returns it.
pub sort_search-Splits : (n : ℕ) (f : ℕ → Bool) (r : ℕ) → Splits n f r → sort_search n f ≡ r
unfolding sort_search
sort_search-Splits n f r p =
    search_loop-Splits n n f r 0 n p (omega arith) p.in_range (omega arith) (omega arith)

module _ {ℓ} {A : Type ℓ} (p : A → Bool) where
  -- after an element that passes, all pass
  abbrev pub Ascending : List A → Type ℓ
  Ascending [] = Unit
  Ascending (x ∷ xs) = (p x ≡ true → All (λ y. p y ≡ true) xs) × Ascending xs

  test_at-All :
      (xs : List A) (k : ℕ) → All (λ y. p y ≡ true) xs → k < length xs → test_at p xs k ≡ true
  test_at-All [] k h l = elim l [ ]
  test_at-All (x ∷ xs) zero h l = h.0
  test_at-All (x ∷ xs) (suc k) h l = test_at-All xs k h.1 (omega arith)

  Splits-suc :
      (x : A) (xs : List A) (r : ℕ)
      → p x ≡ false
      → Splits (length xs) (test_at p xs) r
      → Splits (suc (length xs)) (test_at p (x ∷ xs)) (suc r)
  Splits-suc x xs r later s = record {
    in_range = omega (arith, s.in_range);
    below = elim [ zero ↦ λ l. later | suc k ↦ λ l. s.below k (omega arith) ];
    above = elim [
      | zero ↦ λ l m. absurd (omega arith)
      | suc k ↦ λ l m. s.above k (omega arith) (omega arith)
    ];
  }

  lower_bound-Splits :
      (xs : List A) → Ascending xs → Splits (length xs) (test_at p xs) (lower_bound p xs)
  lower_bound-Splits [] h = record {
    in_range = omega arith;
    below = λ k l. absurd (omega arith);
    above = λ k l m. absurd (omega arith);
  }
  lower_bound-Splits (x ∷ xs) h = elim (Bool-cases (p x)) [
    | inl first ↦ rw first (record {
      in_range = omega arith;
      below = λ k l. absurd (omega arith);
      above = λ k l m. test_at-All (x ∷ xs) k (first, h.0 first) m;
    })
    | inr later ↦ rw later (Splits-suc x xs (lower_bound p xs) later (lower_bound-Splits xs h.1))
  ]

  -- On an ascending slice the binary search agrees with a linear scan.
  pub sort_search-lower_bound :
      (xs : List A) → Ascending xs → sort_search (length xs) (test_at p xs) ≡ lower_bound p xs
  sort_search-lower_bound xs h =
      sort_search-Splits (length xs) (test_at p xs) (lower_bound p xs) (lower_bound-Splits xs h)
