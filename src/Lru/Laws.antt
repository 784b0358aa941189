-- ===== src/Lru/Laws.antt =====
-- What the operations of the list do to a lookup by id, and that they keep the order of the ids.
use go_blob_store.Prelude.{
  subst, ◌∙◌, sym, ℕ, suc, ◌+◌, ◌≡◌, refl, sym, ap, String, Bool, none, some, List, [], ◌∷◌, ◌++◌,
  arith, All, All-map, str_eq, str_eq_refl, str_eq→eq, inl, inr, Bool-cases, length, set, take,
  drop, sum_by, if◌then◌else◌,
}
use go_blob_store.Search.{lower_bound, insert_before}
use go_blob_store.Lru.{LruEntry, key}
use go_blob_store.Lru.Order.{
  Below, IsSorted, lookup, at_least, Below_of_ne, str_eq_of_not-at_least, lookup_of_Below,
  Below-trans,
}

-- the entries without the one of the id
unfoldable pub without : String → List LruEntry → List LruEntry
without id [] = []
without id (e ∷ es) = if str_eq (key e) id then es else e ∷ without id es

-- the entries with `v` in the place of the one of the id
pub replace : String → LruEntry → List LruEntry → List LruEntry
replace id v [] = []
replace id v (e ∷ es) = if str_eq (key e) id then v ∷ es else e ∷ replace id v es

module _ (v : LruEntry) where
  All-Below-insert_before :
      (id : String) (es : List LruEntry)
      → Below id v
      → All (Below id) es
      → All (Below id) (insert_before (at_least (key v)) v es)
  All-Below-insert_before id [] b h = (b, tt)
  All-Below-insert_before id (e ∷ es) b h = elim (Bool-cases (at_least (key v) e)) [
    | inl here ↦ rw here (b, h)
    | inr later ↦ rw later (h.0, All-Below-insert_before id es b h.1)
  ]

  pub insert_before-IsSorted :
      (es : List LruEntry)
      → IsSorted es
      → lookup (key v) es ≡ none
      → IsSorted (insert_before (at_least (key v)) v es)
  unfolding lookup
  insert_before-IsSorted [] s absent = (tt, tt)
  insert_before-IsSorted (e ∷ es) s absent = elim (Bool-cases (at_least (key v) e)) [
    | inl here ↦
        let b : Below (key v) e = Below_of_ne (key v) e here (ground arith) in
        rw here ((b, All-map es (λ y. Below-trans (key v) e y b) s.0), s)
    | inr later ↦
        rw later (
          All-Below-insert_before (key e) es later s.0,
          insert_before-IsSorted es s.1 (ground arith),
        )
  ]

  pub lookup-insert_before :
      (id : String) (es : List LruEntry)
      → lookup (key v) es ≡ none
      → lookup id (insert_before (at_least (key v)) v es)
        ≡ (if str_eq (key v) id then some v else lookup id es)
  unfolding lookup
  lookup-insert_before id [] absent = refl
  lookup-insert_before id (e ∷ es) absent = elim (Bool-cases (at_least (key v) e)) [
    | inl here ↦ rw here
    | inr later ↦ rw later (
        ground (
          arith,
          lookup-insert_before id es,
          str_eq→eq (key e) id,
          str_eq→eq (key v) id,
          str_eq_refl id,
        ))
  ]

  pub length-insert_before :
      (p : LruEntry → Bool) (es : List LruEntry) → length (insert_before p v es) ≡ suc (length es)
  length-insert_before p [] = refl
  length-insert_before p (e ∷ es) = ground (arith, length-insert_before p es)

  pub sum_by-insert_before :
      (p : LruEntry → Bool) (f : LruEntry → ℕ) (es : List LruEntry)
      → sum_by f (insert_before p v es) ≡ f v + sum_by f es
  sum_by-insert_before p f [] = refl
  sum_by-insert_before p f (e ∷ es) = elim (Bool-cases (p e)) [
    | inl here ↦ rw here
    | inr later ↦ rw later (omega (arith, sum_by-insert_before p f es))
  ]

-- removal at the index that the search gives
pub remove_at_lower_bound :
    (id : String) (es : List LruEntry) {e : LruEntry}
    → IsSorted es
    → lookup id es ≡ some e
    → take (lower_bound (at_least id) es) es ++ drop (suc (lower_bound (at_least id) es)) es
      ≡ without id es
unfolding lookup without
remove_at_lower_bound id [] s found = refl
remove_at_lower_bound id (x ∷ xs) s found = elim (Bool-cases (at_least id x)) [
  | inr later ↦
      rw (later, str_eq_of_not-at_least id x later)
        (ap (◌∷◌ x)
          (remove_at_lower_bound id xs s.1 (rw (str_eq_of_not-at_least id x later) at found)))
  | inl here ↦ elim (Bool-cases (str_eq (key x) id)) [
    | inl same ↦ rw (here, same)
    | inr other ↦ absurd (
        cc (
          lookup_of_Below id xs
              (All-map xs (λ y. Below-trans id x y (Below_of_ne id x here other)) s.0),
          rw other at found,
        ))
  ]
]

-- a write at the index that the search gives
pub set_at_lower_bound :
    (id : String) (v : LruEntry) (es : List LruEntry) {e : LruEntry}
    → IsSorted es
    → lookup id es ≡ some e
    → set es (lower_bound (at_least id) es) v ≡ replace id v es
unfolding lookup replace
set_at_lower_bound id v [] s found = refl
set_at_lower_bound id v (x ∷ xs) s found = elim (Bool-cases (at_least id x)) [
  | inr later ↦
      rw (later, str_eq_of_not-at_least id x later)
        (ap (◌∷◌ x)
          (set_at_lower_bound id v xs s.1 (rw (str_eq_of_not-at_least id x later) at found)))
  | inl here ↦ elim (Bool-cases (str_eq (key x) id)) [
    | inl same ↦ rw (here, same)
    | inr other ↦ absurd (
        cc (
          lookup_of_Below id xs
              (All-map xs (λ y. Below-trans id x y (Below_of_ne id x here other)) s.0),
          rw other at found,
        ))
  ]
]

All-Below-without :
    (k id : String) (es : List LruEntry) → All (Below k) es → All (Below k) (without id es)
unfolding without
All-Below-without k id [] h = tt
All-Below-without k id (e ∷ es) h = elim (Bool-cases (str_eq (key e) id)) [
  | inl same ↦ rw same h.1
  | inr other ↦ rw other (h.0, All-Below-without k id es h.1)
]

pub without-IsSorted : (id : String) (es : List LruEntry) → IsSorted es → IsSorted (without id es)
unfolding without
without-IsSorted id [] s = tt
without-IsSorted id (e ∷ es) s = elim (Bool-cases (str_eq (key e) id)) [
  | inl same ↦ rw same s.1
  | inr other ↦ rw other (All-Below-without (key e) id es s.0, without-IsSorted id es s.1)
]

pub lookup-without :
    (id j : String) (es : List LruEntry)
    → IsSorted es
    → lookup j (without id es) ≡ (if str_eq id j then none else lookup j es)
unfolding without lookup
lookup-without id j [] s = ground arith
lookup-without id j (e ∷ es) s = ground (
  arith,
  lookup-without id j es s.1,
  lookup_of_Below (key e) es s.0,
  str_eq→eq (key e) id,
  str_eq→eq (key e) j,
  str_eq→eq id j,
  str_eq_refl id,
  str_eq_refl j,
)

pub length-without :
    (id : String) (es : List LruEntry) {e : LruEntry}
    → lookup id es ≡ some e
    → suc (length (without id es)) ≡ length es
unfolding without lookup
length-without id [] found = absurd (cc)
length-without id (x ∷ xs) {e} found = ground (arith, length-without id xs {e = e})

pub sum_by-without :
    (f : LruEntry → ℕ) (id : String) (es : List LruEntry) {e : LruEntry}
    → lookup id es ≡ some e
    → sum_by f es ≡ f e + sum_by f (without id es)
unfolding without lookup
sum_by-without f id [] found = absurd (cc)
sum_by-without f id (x ∷ xs) {e} found = elim (Bool-cases (str_eq (key x) id)) [
  | inl same ↦ rw same (ground arith)
  | inr other ↦ rw other (omega (arith, sum_by-without f id xs (rw other at found)))
]

module _ (id : String) (v : LruEntry) (named : key v ≡ id) where
  All-Below-replace :
      (k : String) (es : List LruEntry) → All (Below k) es → All (Below k) (replace id v es)
  unfolding replace
  All-Below-replace k [] h = tt
  All-Below-replace k (e ∷ es) h = elim (Bool-cases (str_eq (key e) id)) [
    | inl same ↦ rw same (ground (arith, str_eq→eq (key e) id, h.0), h.1)
    | inr other ↦ rw other (h.0, All-Below-replace k es h.1)
  ]

  pub replace-IsSorted : (es : List LruEntry) → IsSorted es → IsSorted (replace id v es)
  unfolding replace
  replace-IsSorted [] s = tt
  replace-IsSorted (e ∷ es) s = elim (Bool-cases (str_eq (key e) id)) [
    | inl same ↦
        rw same (subst (λ k. All (Below k) es) (str_eq→eq (key e) id same ∙ sym named) s.0, s.1)
    | inr other ↦ rw other (All-Below-replace (key e) es s.0, replace-IsSorted es s.1)
  ]

  pub lookup-replace :
      (j : String) (es : List LruEntry) {e : LruEntry}
      → lookup id es ≡ some e
      → lookup j (replace id v es) ≡ (if str_eq id j then some v else lookup j es)
  unfolding replace lookup
  lookup-replace j [] found = absurd (cc)
  lookup-replace j (x ∷ xs) {e} found = ground (
    arith,
    lookup-replace j xs {e = e},
    str_eq→eq (key x) id,
    str_eq→eq (key x) j,
    str_eq→eq id j,
    str_eq_refl id,
    str_eq_refl j,
    named,
  )

pub length-replace :
    (id : String) (v : LruEntry) (es : List LruEntry) → length (replace id v es) ≡ length es
unfolding replace
length-replace id v [] = refl
length-replace id v (e ∷ es) = ground (arith, length-replace id v es)

pub sum_by-replace :
    (f : LruEntry → ℕ) (id : String) (v : LruEntry) (es : List LruEntry) {e : LruEntry}
    → lookup id es ≡ some e
    → f v ≡ f e
    → sum_by f (replace id v es) ≡ sum_by f es
unfolding replace lookup
sum_by-replace f id v [] found same = absurd (cc)
sum_by-replace f id v (x ∷ xs) {e} found same = elim (Bool-cases (str_eq (key x) id)) [
  | inl here ↦ rw here (ground arith)
  | inr other ↦ rw other (omega (arith, sum_by-replace f id v xs {e = e} (rw other at found) same))
]
