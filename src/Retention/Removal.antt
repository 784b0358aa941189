-- ===== src/Retention/Removal.antt =====
-- What the processing of internal/services/retentionmanager/singleretentionmanager.go takes off the
-- list: just the expired entries.
use go_blob_store.Prelude.{
  ℕ, zero, suc, String, ℤ, Bool, true, false, List, [], ◌∷◌, ◌++◌, ◌-◌, ◌+◌, ◌<◌, ◌≡◌, ltb, str_eq,
  length, take, drop, any, All, refl, ap, ◌∙◌, Bool-cases, inl, inr, if◌then◌else◌, arith,
  str_eq_refl, str_eq_symm, lt→ltb, ltb→ge,
}
use go_blob_store.Model.{RetentionEntry}
use go_blob_store.Interfaces.{Services}
use go_blob_store.Retention
use go_blob_store.Retention.{Entries, expired_ids, is_expired}

-- the list without the first entry of an id
abbrev pub erase : Entries → String → Entries
erase [] id = []
erase (x ∷ xs) id = if str_eq id x.blob_id then xs else x ∷ erase xs id

abbrev pub has_id : String → Entries → Bool
has_id id xs = any (λ v. str_eq id v.blob_id) xs

-- no two entries have the same id
abbrev pub IsDistinct : Entries → Type 0
IsDistinct [] = Unit
IsDistinct (x ∷ xs) = (has_id x.blob_id xs ≡ false) × IsDistinct xs

-- the entries that have not expired
abbrev pub alive : ℤ → Entries → Entries
alive now [] = []
alive now (v ∷ vs) = if is_expired now v then alive now vs else v ∷ alive now vs

-- the entries around an index
without : Entries → ℕ → Entries
without [] i = []
without (x ∷ xs) zero = xs
without (x ∷ xs) (suc i) = x ∷ without xs i

take-append : (xs ys : Entries) → take (length xs) (xs ++ ys) ≡ xs
take-append [] ys = refl
take-append (x ∷ xs) ys = ap (◌∷◌ x) (take-append xs ys)

-- the elements around `i` in front of what the shift leaves at the end
take_around :
    (xs : Entries) (i n : ℕ) (rest : Entries)
    → length xs ≡ suc n
    → i < length xs
    → take n (take i xs ++ (drop (suc i) xs ++ rest)) ≡ without xs i
unfolding without
take_around [] i n rest e h = elim h [ ]
take_around (x ∷ xs) zero n rest e h =
    let e' : n ≡ length xs = omega arith in rw e' (take-append xs rest)
take_around (x ∷ xs) (suc i) zero rest e h = absurd (omega arith)
take_around (x ∷ xs) (suc i) (suc n) rest e h =
    ap (◌∷◌ x) (take_around xs i n rest (omega arith) (omega arith))

take_all_but_last : (xs : Entries) (i : ℕ) → length xs ≡ suc i → take i xs ≡ without xs i
unfolding without
take_all_but_last [] i h = absurd (omega arith)
take_all_but_last (x ∷ []) zero h = refl
take_all_but_last (x ∷ y ∷ xs) zero h = absurd (omega arith)
take_all_but_last (x ∷ xs) (suc i) h = ap (◌∷◌ x) (take_all_but_last xs i (omega arith))

remove_at_lem : (xs : Entries) (i : ℕ) → i < length xs → Retention.remove_at xs i ≡ without xs i
unfolding Retention.remove_at
remove_at_lem xs i h = elim (Bool-cases (ltb i (length xs - 1))) [
  | inl inside ↦
      rw inside (take_around xs i (length xs - 1) (drop (length xs - 1) xs) (omega arith) h)
  | inr last ↦
      let e : length xs ≡ suc i = omega (arith, ltb→ge i (length xs - 1) last) in
      let e' : length xs - 1 ≡ i = omega arith in rw last (rw e' (take_all_but_last xs i e))
]

-- the index of a present id, counted from `k`
index_of_present :
    (id : String) (xs : Entries) (k : ℕ)
    → has_id id xs ≡ true
    → (i : ℕ) × ((Retention.index_of id xs k ≡ k + i)
        × ((i < length xs) × (without xs i ≡ erase xs id)))
unfolding Retention.index_of without
index_of_present id [] k h = absurd (cc)
index_of_present id (x ∷ xs) k h = elim (Bool-cases (str_eq id x.blob_id)) [
  | inl here ↦ (0, (rw here (omega arith), (omega arith, rw here refl)))
  | inr there ↦
      let (i, (e, (l, w))) = index_of_present id xs (suc k) (ground arith) in
      (suc i, (rw there (omega (arith, e)), (omega arith, rw there (ap (◌∷◌ x) w))))
]

-- Removing an id that is in the list takes off its first entry.
pub remove_entry-present :
    (xs : Entries) (id : String) → has_id id xs ≡ true → Retention.remove_entry xs id ≡ erase xs id
unfolding Retention.remove_entry
remove_entry-present xs id h =
    let (i, (e, (l, w))) = index_of_present id xs 0 h in
    let e' : Retention.index_of id xs 0 ≡ i = omega (arith, e) in
    rw (e', lt→ltb i (length xs) l) (remove_at_lem xs i l ∙ w)

index_of_absent :
    (id : String) (xs : Entries) (k : ℕ) → has_id id xs ≡ false → Retention.index_of id xs k ≡ 0
unfolding Retention.index_of
index_of_absent id [] k h = refl
index_of_absent id (x ∷ xs) k h = elim (Bool-cases (str_eq id x.blob_id)) [
  | inl here ↦ absurd (ground arith)
  | inr there ↦ rw there (index_of_absent id xs (suc k) (ground arith))
]

-- Removing an id that is not in the list takes off the first entry, whichever this is.
pub remove_entry-absent :
    (x : RetentionEntry) (xs : Entries) (id : String)
    → has_id id (x ∷ xs) ≡ false
    → Retention.remove_entry (x ∷ xs) id ≡ xs
unfolding Retention.remove_entry without
remove_entry-absent x xs id h =
    rw (index_of_absent id (x ∷ xs) 0 h, lt→ltb 0 (length (x ∷ xs)) (omega arith))
      (remove_at_lem (x ∷ xs) 0 (omega arith))

-- the ids can be erased one after the other
abbrev Removable : Entries → List String → Type 0
Removable xs [] = Unit
Removable xs (id ∷ ids) = (has_id id xs ≡ true) × Removable (erase xs id) ids

abbrev erase_all : Entries → List String → Entries
erase_all xs [] = xs
erase_all xs (id ∷ ids) = erase_all (erase xs id) ids

remove_entries_lem :
    (xs : Entries) (ids : List String)
    → Removable xs ids
    → Retention.remove_entries xs ids ≡ erase_all xs ids
unfolding Retention.remove_entries
remove_entries_lem xs [] h = refl
remove_entries_lem xs (id ∷ ids) h =
    rw (remove_entry-present xs id h.0) (remove_entries_lem (erase xs id) ids h.1)

-- in front of the list, an entry with another id than all of these stays
abbrev Others : RetentionEntry → List String → Type 0
Others x ids = All (λ id. str_eq id x.blob_id ≡ false) ids

erase_all-cons :
    (x : RetentionEntry) (xs : Entries) (ids : List String)
    → Others x ids
    → erase_all (x ∷ xs) ids ≡ x ∷ erase_all xs ids
erase_all-cons x xs [] h = refl
erase_all-cons x xs (id ∷ ids) h = rw h.0 (erase_all-cons x (erase xs id) ids h.1)

Removable-cons :
    (x : RetentionEntry) (xs : Entries) (ids : List String)
    → Others x ids
    → Removable xs ids
    → Removable (x ∷ xs) ids
Removable-cons x xs [] h r = tt
Removable-cons x xs (id ∷ ids) h r =
    (rw h.0 r.0, rw h.0 (Removable-cons x (erase xs id) ids h.1 r.1))

expired_ids-Others :
    (now : ℤ) (x : RetentionEntry) (xs : Entries)
    → has_id x.blob_id xs ≡ false
    → Others x (expired_ids now xs)
expired_ids-Others now x [] h = tt
expired_ids-Others now x (y ∷ ys) h = elim (Bool-cases (is_expired now y)) [
  | inl old ↦
      rw old
        (str_eq_symm y.blob_id x.blob_id ∙ ground arith, expired_ids-Others now x ys (ground arith))
  | inr young ↦ rw young (expired_ids-Others now x ys (ground arith))
]

expired_ids-Removable : (now : ℤ) (xs : Entries) → IsDistinct xs → Removable xs (expired_ids now xs)
expired_ids-Removable now [] d = tt
expired_ids-Removable now (x ∷ xs) d = elim (Bool-cases (is_expired now x)) [
  | inl old ↦ rw old (
    rw (str_eq_refl x.blob_id) refl,
    rw (str_eq_refl x.blob_id) (expired_ids-Removable now xs d.1),
  )
  | inr young ↦ rw young (
      Removable-cons x xs (expired_ids now xs) (expired_ids-Others now x xs d.0)
        (expired_ids-Removable now xs d.1))
]

erase_all-expired :
    (now : ℤ) (xs : Entries) → IsDistinct xs → erase_all xs (expired_ids now xs) ≡ alive now xs
erase_all-expired now [] d = refl
erase_all-expired now (x ∷ xs) d = elim (Bool-cases (is_expired now x)) [
  | inl old ↦ rw old (rw (str_eq_refl x.blob_id, erase_all) (erase_all-expired now xs d.1))
  | inr young ↦ rw young (
      erase_all-cons x xs (expired_ids now xs) (expired_ids-Others now x xs d.0)
      ∙ ap (◌∷◌ x) (erase_all-expired now xs d.1))
]

-- Processing a list without two entries of one id leaves the entries that have not expired, in
-- their order.
pub process_retention-alive :
    (srv : Services) (now : ℤ) (m : Retention.SingleRetentionManager srv)
    → IsDistinct m.retention_list
    → (Retention.process_retention srv now m).retention_list ≡ alive now m.retention_list
unfolding Retention.process_retention
process_retention-alive srv now m d =
    remove_entries_lem m.retention_list (expired_ids now m.retention_list)
      (expired_ids-Removable now m.retention_list d)
    ∙ erase_all-expired now m.retention_list d
