-- ===== src/Lru/Members.antt =====
-- What holds of all entries, under the list's operations.
use go_blob_store.Prelude.{
  ℕ, zero, suc, ◌≡◌, sym, inl, inr, String, some, List, [], ◌∷◌, arith, All, str_eq, str_eq→eq,
  str_eq_refl, str_leb_refl, subst, refl, ◌⊎◌, false, none, get_elem?, Bool-cases, All-get_elem?,
}
use go_blob_store.Lru.{LruEntry, key}
use go_blob_store.Lru.Order.{lookup, IsSorted, Below}
use go_blob_store.Lru.Laws.{without}
use go_blob_store.Lru.Ram.{forget, Forgets, key-Forgets}

module _ (P : LruEntry → Type 0) (stable : (e : LruEntry) → P e → P (forget e)) where
  pub All-Forgets : (xs ys : List LruEntry) → Forgets xs ys → All P xs → All P ys
  All-Forgets [] [] f h = tt
  All-Forgets [] (y ∷ ys) f h = absurd f
  All-Forgets (x ∷ xs) [] f h = tt
  All-Forgets (x ∷ xs) (y ∷ ys) (inl p, f) h = (subst P (sym p) h.0, All-Forgets xs ys f h.1)
  All-Forgets (x ∷ xs) (y ∷ ys) (inr p, f) h =
      (subst P (sym p) (stable x h.0), All-Forgets xs ys f h.1)

-- what holds of all entries holds of those that are left
pub All-without :
    (P : LruEntry → Type 0) (id : String) (es : List LruEntry) → All P es → All P (without id es)
unfolding without
All-without P id [] h = tt
All-without P id (e ∷ es) h = elim (Bool-cases (str_eq (key e) id)) [
  | inl same ↦ rw same h.1
  | inr other ↦ rw other (h.0, All-without P id es h.1)
]

-- an entry of a sorted list is found by its id
pub lookup_of_get_elem? :
    (es : List LruEntry) (i : ℕ) (e : LruEntry)
    → IsSorted es
    → get_elem? es i ≡ some e
    → lookup (key e) es ≡ some e
unfolding lookup
lookup_of_get_elem? [] i e s h = absurd (cc)
lookup_of_get_elem? (x ∷ xs) zero e s h = ground (arith, str_eq_refl (key x))
lookup_of_get_elem? (x ∷ xs) (suc i) e s h = ground (
  arith,
  lookup_of_get_elem? xs i e s.1 h,
  All-get_elem? (Below (key x)) xs i {a = e} s.0 h,
  str_eq→eq (key x) (key e),
  str_leb_refl (key e),
)

-- and of one that a lookup finds
pub All-lookup :
    (P : LruEntry → Type 0) (id : String) (es : List LruEntry) {e : LruEntry}
    → All P es
    → lookup id es ≡ some e
    → P e
unfolding lookup
All-lookup P id [] h found = absurd (cc)
All-lookup P id (x ∷ xs) h found = elim (Bool-cases (str_eq (key x) id)) [
  | inl same ↦ subst P (ground arith) h.0
  | inr other ↦ All-lookup P id xs h.1 (rw other at found)
]

-- an entry is still found after data was forgotten
pub forgotten-lookup :
    (id : String) (xs ys : List LruEntry) {x : LruEntry}
    → Forgets xs ys
    → lookup id xs ≡ some x
    → (y : LruEntry) × (lookup id ys ≡ some y) × ((y ≡ x) ⊎ (y ≡ forget x))
unfolding lookup
forgotten-lookup id [] [] f found = absurd (cc)
forgotten-lookup id [] (y ∷ ys) f found = absurd f
forgotten-lookup id (x ∷ xs) [] f found = absurd f
forgotten-lookup id (x ∷ xs) (y ∷ ys) f found = elim (Bool-cases (str_eq (key x) id)) [
  | inl same ↦ (
    y,
    rw (key-Forgets x y f.0, same) refl,
    subst (λ z. (y ≡ z) ⊎ (y ≡ forget z)) (ground arith) f.0,
  )
  | inr other ↦ rw (key-Forgets x y f.0, other) (forgotten-lookup id xs ys f.1 (rw other at found))
]

-- a lookup misses: no entry has the id
pub All-absent :
    (id : String) (es : List LruEntry)
    → lookup id es ≡ none
    → All (λ e. str_eq (key e) id ≡ false) es
unfolding lookup
All-absent id [] h = tt
All-absent id (e ∷ es) h = elim (Bool-cases (str_eq (key e) id)) [
  | inl same ↦ absurd (cc (rw same at h))
  | inr other ↦ (other, All-absent id es (rw other at h))
]

pub All-both :
    (P Q : LruEntry → Type 0) (es : List LruEntry) → All P es → All Q es → All (λ e. P e × Q e) es
All-both P Q [] h k = tt
All-both P Q (e ∷ es) h k = ((h.0, k.0), All-both P Q es h.1 k.1)
