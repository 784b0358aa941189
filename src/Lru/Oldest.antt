-- ===== src/Lru/Oldest.antt =====
-- `getOldest` and `getOldestWithData`: the scans find a least recently accessed entry.
use go_blob_store.Prelude.{
  ℕ, zero, suc, ◌≤◌, ◌<◌, ◌≡◌, refl, true, false, Option, none, some, is_some, List, [], ◌∷◌, arith,
  All, ltb, inl, inr, Bool-cases, length, get_elem?, drop, ◌&&◌,
}
use go_blob_store.Lru.{
  LruEntry, LruList, before_at, get_oldest_from, get_oldest, pick_with_data,
  get_oldest_with_data_from, get_oldest_with_data,
}

get_elem?-drop {ℓ} :
    {A : Type ℓ} (i : ℕ) (xs : List A) {y : A} {ys : List A}
    → drop i xs ≡ y ∷ ys
    → get_elem? xs i ≡ some y
get_elem?-drop zero [] h = absurd (cc)
get_elem?-drop zero (x ∷ xs) h = cc
get_elem?-drop (suc i) [] h = absurd (cc)
get_elem?-drop (suc i) (x ∷ xs) h = get_elem?-drop i xs h

drop-suc {ℓ} :
    {A : Type ℓ} (i : ℕ) (xs : List A) {y : A} {ys : List A}
    → drop i xs ≡ y ∷ ys
    → drop (suc i) xs ≡ ys
drop-suc zero [] h = absurd (cc)
drop-suc zero (x ∷ xs) h = cc
drop-suc (suc i) [] h = absurd (cc)
drop-suc (suc i) (x ∷ xs) h = drop-suc i xs h

before_at_lem :
    (e o : LruEntry) (xs : List LruEntry) (i : ℕ)
    → get_elem? xs i ≡ some o
    → before_at e xs i ≡ ltb e.last_access o.last_access
unfolding before_at
before_at_lem e o xs i here = ground arith

none_of_not-some {ℓ} : {A : Type ℓ} (o : Option A) → is_some o ≡ false → o ≡ none
none_of_not-some none h = refl
none_of_not-some (some a) h = absurd (cc)

-- no entry of `es` was accessed before `o`
abbrev pub IsOldest : LruEntry → List LruEntry → Type 0
IsOldest o es = All (λ (y : LruEntry). o.last_access ≤ y.last_access) es

get_oldest_from_lem :
    (xs : List LruEntry) (x : ℕ) (es : List LruEntry) (i : ℕ) (o : LruEntry)
    → drop x xs ≡ es
    → get_elem? xs i ≡ some o
    → (r : LruEntry) × (get_elem? xs (get_oldest_from xs x es i) ≡ some r)
      × (r.last_access ≤ o.last_access)
      × IsOldest r es
unfolding get_oldest_from
get_oldest_from_lem xs x [] i o at here = (o, here, omega arith, tt)
get_oldest_from_lem xs x (e ∷ es) i o at here =
    elim (Bool-cases (ltb e.last_access o.last_access)) [
      | inl earlier ↦
          let (r, found, le, rest) =
            get_oldest_from_lem xs (suc x) es x e (drop-suc x xs at) (get_elem?-drop x xs at) in
          rw (before_at_lem e o xs i here, earlier) (r, found, ground arith, (le, rest))
      | inr later ↦
          let (r, found, le, rest) =
            get_oldest_from_lem xs (suc x) es i o (drop-suc x xs at) here in
          rw (before_at_lem e o xs i here, later) (r, found, le, (ground arith, rest))
    ]

-- Of a list that is not empty, `get_oldest` gives the index of an entry than which no other was
-- accessed earlier.
pub get_oldest_correct :
    (l : LruList)
    → 0 < length l.entries
    → (r : LruEntry) × (get_elem? l.entries (get_oldest l) ≡ some r) × IsOldest r l.entries
unfolding get_oldest
get_oldest_correct l h = go l.entries refl
  where
    go :
        (es : List LruEntry)
        → l.entries ≡ es
        → (r : LruEntry) × (get_elem? l.entries (get_oldest_from l.entries 0 l.entries 0) ≡ some r)
          × IsOldest r l.entries
    go [] e = absurd (ground arith)
    go (e ∷ es) same =
        let (r, found, le, rest) = get_oldest_from_lem l.entries 0 l.entries 0 e refl (rw same) in
        (r, found, rest)

-- the entry at the index has data, and no entry of `es` with data was accessed before it
abbrev pub IsOldestWithData : List LruEntry → List LruEntry → Option ℕ → Type 0
IsOldestWithData xs es none = All (λ (y : LruEntry). y.data_in_ram ≡ none) es
IsOldestWithData xs es (some i) =
    (o : LruEntry) × (get_elem? xs i ≡ some o)
    × (is_some o.data_in_ram ≡ true)
    × All (λ (y : LruEntry). is_some y.data_in_ram ≡ true → o.last_access ≤ y.last_access) es

with_data_some :
    (xs : List LruEntry) (x : ℕ) (es : List LruEntry) (i : ℕ) (o : LruEntry)
    → drop x xs ≡ es
    → get_elem? xs i ≡ some o
    → is_some o.data_in_ram ≡ true
    → (j : ℕ) × (r : LruEntry) × (get_oldest_with_data_from xs x es (some i) ≡ some j)
      × (get_elem? xs j ≡ some r)
      × (is_some r.data_in_ram ≡ true)
      × (r.last_access ≤ o.last_access)
      × All (λ (y : LruEntry). is_some y.data_in_ram ≡ true → r.last_access ≤ y.last_access) es
unfolding get_oldest_with_data_from pick_with_data
with_data_some xs x [] i o at here full = (i, o, refl, here, full, omega arith, tt)
with_data_some xs x (e ∷ es) i o at here full =
    elim (Bool-cases (is_some e.data_in_ram && ltb e.last_access o.last_access)) [
      | inl earlier ↦
          let (j, r, eq, found, data_r, le, rest) =
            with_data_some xs (suc x) es x e (drop-suc x xs at) (get_elem?-drop x xs at)
              (ground arith) in
          rw (before_at_lem e o xs i here, earlier)
            (j, r, eq, found, data_r, ground arith, (λ _. le, rest))
      | inr later ↦
          let (j, r, eq, found, data_r, le, rest) =
            with_data_some xs (suc x) es i o (drop-suc x xs at) here full in
          rw (before_at_lem e o xs i here, later)
            (j, r, eq, found, data_r, le, (λ d. ground arith, rest))
    ]

with_data_none :
    (xs : List LruEntry) (x : ℕ) (es : List LruEntry)
    → drop x xs ≡ es
    → IsOldestWithData xs es (get_oldest_with_data_from xs x es none)
unfolding get_oldest_with_data_from pick_with_data
with_data_none xs x [] at = tt
with_data_none xs x (e ∷ es) at = elim (Bool-cases (is_some e.data_in_ram)) [
  | inl full ↦
      let (j, r, eq, found, data_r, le, rest) =
        with_data_some xs (suc x) es x e (drop-suc x xs at) (get_elem?-drop x xs at) full in
      rw (full, eq) (r, found, data_r, (λ _. le, rest))
  | inr nil ↦ rw nil (
      later nil (get_oldest_with_data_from xs (suc x) es none)
        (with_data_none xs (suc x) es (drop-suc x xs at)))
]
  where
    later :
        is_some e.data_in_ram ≡ false
        → (o : Option ℕ) → IsOldestWithData xs es o
        → IsOldestWithData xs (e ∷ es) o
    later nil none h = (none_of_not-some e.data_in_ram nil, h)
    later nil (some i) (o, found, full, rest) = (o, found, full, (λ d. absurd (cc), rest))

-- `get_oldest_with_data` gives an entry with data than which no other entry with data was accessed
-- earlier, or nothing, where no entry has data.
pub get_oldest_with_data_correct :
    (l : LruList) → IsOldestWithData l.entries l.entries (get_oldest_with_data l)
unfolding get_oldest_with_data
get_oldest_with_data_correct l = with_data_none l.entries 0 l.entries refl
