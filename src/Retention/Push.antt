-- ===== src/Retention/Push.antt =====
-- The insertion into the list of internal/services/retentionmanager/singleretentionmanager.go.
use go_blob_store.Prelude.{
  ℕ, zero, suc, String, Bool, true, false, [], ◌∷◌, ◌-◌, ◌+◌, ◌≤◌, ◌<◌, ◌≡◌, ltb, str_eq, length,
  take, All, All-map, refl, ap, ◌∙◌, Bool-cases, inl, inr, arith, ltb→ge, lt→ltb, length-take,
  str_eq_symm,
}
use go_blob_store.Model.{RetentionEntry}
use go_blob_store.Search.{insert_slice, sort_search, test_at, insert_before, lower_bound}
use go_blob_store.Search.Splits.{Ascending, sort_search-lower_bound}
use go_blob_store.Search.Slices.{All-insert_before, insert_slice-lower_bound}
use go_blob_store.Retention
use go_blob_store.Retention.{Entries, is_later}
use go_blob_store.Retention.Removal.{IsDistinct, has_id}

-- the earliest entry first
abbrev pub IsSorted : Entries → Type 0
IsSorted [] = Unit
IsSorted (x ∷ xs) = All (λ y. is_later y x ≡ false) xs × IsSorted xs

pub record IsValid (max_size : ℕ) (xs : Entries) : Type 0 where
  pub sorted : IsSorted xs
  pub distinct : IsDistinct xs
  pub bounded : length xs ≤ max_size

later_than :
    (r x y : RetentionEntry) → is_later y x ≡ false → is_later r x ≡ true → is_later r y ≡ true
later_than r x y h k = ground arith

IsSorted-Ascending : (r : RetentionEntry) (xs : Entries) → IsSorted xs → Ascending (is_later r) xs
IsSorted-Ascending r [] s = tt
IsSorted-Ascending r (x ∷ xs) s =
    (λ later. All-map xs (λ y h. later_than r x y h later) s.0, IsSorted-Ascending r xs s.1)

-- what the binary search and the slice operations amount to
pub insert_at-before :
    (r : RetentionEntry) (xs : Entries)
    → IsSorted xs
    → Retention.insert_at xs (sort_search (length xs) (test_at (is_later r) xs)) r
      ≡ insert_before (is_later r) r xs
unfolding Retention.insert_at
insert_at-before r xs s =
    ap (λ i. insert_slice xs i r)
      (sort_search-lower_bound (is_later r) xs (IsSorted-Ascending r xs s))
    ∙ insert_slice-lower_bound (is_later r) xs r

length-insert_before :
    (p : RetentionEntry → Bool) (r : RetentionEntry) (xs : Entries)
    → length (insert_before p r xs) ≡ suc (length xs)
length-insert_before p r [] = refl
length-insert_before p r (x ∷ xs) = elim (Bool-cases (p x)) [
  | inl e ↦ rw e refl
  | inr e ↦ rw e (ap suc (length-insert_before p r xs))
]

not_later : (r x : RetentionEntry) → is_later r x ≡ true → is_later x r ≡ false
not_later r x h = ground arith

insert_before-IsSorted :
    (r : RetentionEntry) (xs : Entries) → IsSorted xs → IsSorted (insert_before (is_later r) r xs)
insert_before-IsSorted r [] s = (tt, tt)
insert_before-IsSorted r (x ∷ xs) s = elim (Bool-cases (is_later r x)) [
  | inl e ↦
      rw e ((not_later r x e, All-map xs (λ y h. not_later r y (later_than r x y h e)) s.0), s)
  | inr e ↦ rw e (
    All-insert_before (λ y. is_later y x ≡ false) (is_later r) r xs e s.0,
    insert_before-IsSorted r xs s.1,
  )
]

take-All : (P : RetentionEntry → Type 0) (n : ℕ) (xs : Entries) → All P xs → All P (take n xs)
take-All P zero xs h = tt
take-All P (suc n) [] h = tt
take-All P (suc n) (x ∷ xs) h = (h.0, take-All P n xs h.1)

take-IsSorted : (n : ℕ) (xs : Entries) → IsSorted xs → IsSorted (take n xs)
take-IsSorted zero xs s = tt
take-IsSorted (suc n) [] s = tt
take-IsSorted (suc n) (x ∷ xs) s =
    (take-All (λ y. is_later y x ≡ false) n xs s.0, take-IsSorted n xs s.1)

has_id-take :
    (id : String) (n : ℕ) (xs : Entries) → has_id id xs ≡ false → has_id id (take n xs) ≡ false
has_id-take id zero xs h = refl
has_id-take id (suc n) [] h = refl
has_id-take id (suc n) (x ∷ xs) h = ground (arith, has_id-take id n xs)

take-IsDistinct : (n : ℕ) (xs : Entries) → IsDistinct xs → IsDistinct (take n xs)
take-IsDistinct zero xs d = tt
take-IsDistinct (suc n) [] d = tt
take-IsDistinct (suc n) (x ∷ xs) d = (has_id-take x.blob_id n xs d.0, take-IsDistinct n xs d.1)

has_id-insert_before :
    (id : String) (p : RetentionEntry → Bool) (r : RetentionEntry) (xs : Entries)
    → str_eq id r.blob_id ≡ false
    → has_id id xs ≡ false
    → has_id id (insert_before p r xs) ≡ false
has_id-insert_before id p r [] e h = rw e refl
has_id-insert_before id p r (x ∷ xs) e h = elim (Bool-cases (p x)) [
  | inl here ↦ rw here (rw e h)
  | inr after ↦
      let ih = has_id-insert_before id p r xs e (ground arith) in rw after (ground (arith, ih))
]

insert_before-IsDistinct :
    (p : RetentionEntry → Bool) (r : RetentionEntry) (xs : Entries)
    → has_id r.blob_id xs ≡ false
    → IsDistinct xs
    → IsDistinct (insert_before p r xs)
insert_before-IsDistinct p r [] new d = (refl, tt)
insert_before-IsDistinct p r (x ∷ xs) new d = elim (Bool-cases (p x)) [
  | inl here ↦ rw here (new, d)
  | inr after ↦ rw after (
    has_id-insert_before x.blob_id p r xs (str_eq_symm x.blob_id r.blob_id ∙ ground arith) d.0,
    insert_before-IsDistinct p r xs (ground arith) d.1,
  )
]

truncate-IsValid :
    (max_size : ℕ) (xs : Entries)
    → IsSorted xs
    → IsDistinct xs
    → IsValid max_size (Retention.truncate max_size xs)
unfolding Retention.truncate
truncate-IsValid max_size xs s d = elim (Bool-cases (ltb max_size (length xs))) [
  | inl more ↦ rw more (record {
    sorted = take-IsSorted (max_size - 1) xs s;
    distinct = take-IsDistinct (max_size - 1) xs d;
    bounded = omega (arith, length-take (max_size - 1) xs);
  })
  | inr fits ↦
      rw fits (record { sorted = s; distinct = d; bounded = ltb→ge max_size (length xs) fits })
]

-- The insertion of any entry keeps a list sorted by the end of the retention, without two entries
-- of one id, and within its bound.
pub push_to_list-IsValid :
    (max_size : ℕ) (xs : Entries) (r : RetentionEntry)
    → IsValid max_size xs
    → IsValid max_size (Retention.push_to_list max_size xs r)
unfolding Retention.push_to_list
push_to_list-IsValid max_size xs r v = elim (Bool-cases (has_id r.blob_id xs)) [
  | inl old ↦ rw old v
  | inr new ↦ elim (Bool-cases (ltb (sort_search (length xs) (test_at (is_later r) xs)) max_size)) [
    | inr late ↦ rw (new, late) v
    | inl fits ↦
        rw (new, fits, insert_at-before r xs v.sorted)
          (truncate-IsValid max_size (insert_before (is_later r) r xs)
            (insert_before-IsSorted r xs v.sorted)
            (insert_before-IsDistinct (is_later r) r xs new v.distinct))
  ]
]

-- A new entry that belongs into a full list costs two: the list is one shorter afterwards.
pub push_to_list-full :
    (max_size : ℕ) (xs : Entries) (r : RetentionEntry)
    → IsSorted xs
    → length xs ≡ max_size
    → has_id r.blob_id xs ≡ false
    → lower_bound (is_later r) xs < max_size
    → length (Retention.push_to_list max_size xs r) + 1 ≡ max_size
unfolding Retention.push_to_list Retention.truncate
push_to_list-full max_size xs r s full new fits =
    let small : ltb (sort_search (length xs) (test_at (is_later r) xs)) max_size ≡ true =
      rw (sort_search-lower_bound (is_later r) xs (IsSorted-Ascending r xs s))
        (lt→ltb (lower_bound (is_later r) xs) max_size fits) in
    let longer = length-insert_before (is_later r) r xs in
    let over : ltb max_size (length (insert_before (is_later r) r xs)) ≡ true =
      lt→ltb max_size _ (omega (arith, longer)) in
    rw (new, small, insert_at-before r xs s, over)
      (omega (arith, longer, length-take (max_size - 1) (insert_before (is_later r) r xs)))
