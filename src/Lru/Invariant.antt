-- ===== src/Lru/Invariant.antt =====
-- The list's invariant: strictly ascending ids, and the memory size is the sum of the data's sizes.
-- Each method keeps it, and acts on lookups as a finite map does.
use go_blob_store.Prelude.{
  ℕ, suc, ◌+◌, ◌≡◌, refl, sym, ap, ◌∙◌, String, pos, none, some, is_some, List, [], ◌∷◌, ◌++◌,
  arith, str_eq, str_eq→eq, inl, inr, Bool-cases, Option-cases, length, sum_by, if◌then◌else◌, ◌+ℤ◌,
  ◌-ℤ◌, set, take, drop,
}
use mathlib.Core.Option
use go_blob_store.Search.{insert_before}
use go_blob_store.Lru.{
  LruEntry, LruList, key, data_size, search_id, add, update, has, entry_at, get, delete,
}
use go_blob_store.Lru.Order.{
  IsSorted, lookup, at_least, search_id-lower_bound, entry_at-search_id,
  insert_sorted-insert_before,
}
use go_blob_store.Lru.Laws.{
  without, replace, insert_before-IsSorted, lookup-insert_before, length-insert_before,
  sum_by-insert_before, remove_at_lower_bound, set_at_lower_bound, without-IsSorted, lookup-without,
  length-without, sum_by-without, replace-IsSorted, lookup-replace, length-replace, sum_by-replace,
}

pub record IsValid (l : LruList) : Type 0 where
  pub sorted : IsSorted l.entries
  pub counted : l.ram_size ≡ pos (sum_by data_size l.entries)

+ℤ_pos : (a b : ℕ) → pos a +ℤ pos b ≡ pos (a + b)
unfolding ◌+ℤ◌
+ℤ_pos a b = ground arith

pub -ℤ_pos : (a b : ℕ) → pos (a + b) -ℤ pos a ≡ pos b
unfolding ◌-ℤ◌
-ℤ_pos a b = ground arith

remove_at-without :
    (id : String) (es : List LruEntry) {e : LruEntry}
    → IsSorted es
    → lookup id es ≡ some e
    → take (search_id es id) es ++ drop (suc (search_id es id)) es ≡ without id es
remove_at-without id es s found =
    rw (search_id-lower_bound id es s) (remove_at_lower_bound id es s found)

set_at-replace :
    (id : String) (v : LruEntry) (es : List LruEntry) {e : LruEntry}
    → IsSorted es
    → lookup id es ≡ some e
    → set es (search_id es id) v ≡ replace id v es
set_at-replace id v es s found =
    rw (search_id-lower_bound id es s) (set_at_lower_bound id v es s found)

pub entries-add :
    (l : LruList) (e : LruEntry)
    → IsValid l
    → (add l e).0.entries ≡ insert_before (at_least (key e)) e l.entries
unfolding add
entries-add l e v = insert_sorted-insert_before l.entries e v.sorted

ram_size-add :
    (l : LruList) (e : LruEntry)
    → IsValid l
    → (add l e).0.ram_size ≡ pos (data_size e + sum_by data_size l.entries)
unfolding add
ram_size-add l e v = elim (Option-cases e.data_in_ram) [
  | inl nil ↦ rw nil (v.counted ∙ ap pos (omega arith))
  | inr (d, full) ↦ rw (full, v.counted) (+ℤ_pos _ _ ∙ ap pos (omega arith))
]

pub add-bounds :
    (l : LruList) (e : LruEntry)
    → ((add l e).0.max_count ≡ l.max_count) × ((add l e).0.max_ram_size ≡ l.max_ram_size)
unfolding add
add-bounds l e = (refl, refl)

-- Adding an entry whose id is not in a valid list keeps the list valid, makes it one longer, and
-- changes the lookup of the entry's id alone.
pub add_correct :
    (l : LruList) (e : LruEntry)
    → IsValid l
    → lookup (key e) l.entries ≡ none
    → IsValid (add l e).0
      × (length (add l e).0.entries ≡ suc (length l.entries))
      × ((id : String)
          → lookup id (add l e).0.entries
            ≡ (if str_eq (key e) id then some e else lookup id l.entries))
add_correct l e v absent =
    let same = entries-add l e v in
    (
      record {
        sorted = rw same (insert_before-IsSorted e l.entries v.sorted absent);
        counted =
            rw (ram_size-add l e v, same)
              (ap pos (sym (sum_by-insert_before e _ data_size l.entries)));
      },
      rw same (length-insert_before e _ l.entries),
      λ id. rw same (lookup-insert_before e id l.entries absent),
    )

-- On a valid list the membership test and the read agree with a scan of the entries.
pub has-lookup : (l : LruList) (id : String) → IsValid l → has l id ≡ is_some (lookup id l.entries)
unfolding has
has-lookup l id v = rw (entry_at-search_id id l.entries v.sorted)

pub entries-delete :
    (l : LruList) (id : String) {e : LruEntry}
    → IsValid l
    → lookup id l.entries ≡ some e
    → ((delete l id).0.entries ≡ without id l.entries)
      × ((delete l id).0.ram_size ≡ pos (sum_by data_size (without id l.entries)))
      × ((delete l id).1 ≡ id)
unfolding delete
entries-delete l id {e} v found =
    rw (entry_at-search_id id l.entries v.sorted, found)
      (remove_at-without id l.entries v.sorted found, ram_size-delete, refl)
  where
    total : pos (data_size e + sum_by data_size (without id l.entries)) ≡ l.ram_size
    total = sym (v.counted ∙ ap pos (sum_by-without data_size id l.entries found))

    ram_size-delete :
        (if is_some e.data_in_ram then l.ram_size -ℤ pos (data_size e) else l.ram_size)
        ≡ pos (sum_by data_size (without id l.entries))
    ram_size-delete = elim (Option-cases e.data_in_ram) [
      | inl nil ↦ rw nil (sym total ∙ ap pos (ground arith))
      | inr (d, full) ↦ rw (full, ← total, full) (-ℤ_pos _ _)
    ]

delete_absent :
    (l : LruList) (id : String) → IsValid l → lookup id l.entries ≡ none → delete l id ≡ (l, "")
unfolding delete
delete_absent l id v absent = rw (entry_at-search_id id l.entries v.sorted, absent)

pub delete-bounds :
    (l : LruList) (id : String)
    → ((delete l id).0.max_count ≡ l.max_count) × ((delete l id).0.max_ram_size ≡ l.max_ram_size)
unfolding delete
delete-bounds l id = elim (Option-cases (entry_at l.entries (search_id l.entries id) id)) [
  | inl absent ↦ rw absent (refl, refl)
  | inr (e, found) ↦ rw found (refl, refl)
]

-- Deletion from a valid list keeps it valid. With the id present the result is the id, the list is
-- one shorter, and afterwards a lookup misses this id and finds what it found of any other. With the
-- id absent the list stays as it was and the result is the empty text.
pub delete_correct :
    (l : LruList) (id : String)
    → IsValid l
    → IsValid (delete l id).0
      × ((j : String)
          → lookup j (delete l id).0.entries ≡ (if str_eq id j then none else lookup j l.entries))
      × ((e : LruEntry)
          → lookup id l.entries ≡ some e
          → ((delete l id).1 ≡ id) × (suc (length (delete l id).0.entries) ≡ length l.entries))
      × (lookup id l.entries ≡ none → delete l id ≡ (l, ""))
delete_correct l id v = elim (Option-cases (lookup id l.entries)) [
  | inl absent ↦
      let same = delete_absent l id v absent in
      (rw same v, λ j. rw same (ground (arith, str_eq→eq id j)), λ e found. absurd (cc), λ _. same)
  | inr (e, found) ↦
      let (removed, counted, result) = entries-delete l id v found in
      (
        record {
          sorted = rw removed (without-IsSorted id l.entries v.sorted);
          counted = rw removed counted;
        },
        λ j. rw removed (lookup-without id j l.entries v.sorted),
        λ e' found'. (result, rw removed (length-without id l.entries found)),
        λ absent. absurd (cc),
      )
]

-- the entry with a new time
abbrev pub at_time : ℕ → LruEntry → LruEntry
at_time now e = record e { last_access = now }

entries-get :
    (l : LruList) (id : String) (now : ℕ) {e : LruEntry}
    → IsValid l
    → lookup id l.entries ≡ some e
    → get l id now
      ≡ (record l { entries = replace id (at_time now e) l.entries }, some (at_time now e))
unfolding get
entries-get l id now {e} v found =
    rw (entry_at-search_id id l.entries v.sorted, found)
      (rw (set_at-replace id (at_time now e) l.entries v.sorted found))

key_of_lookup :
    (id : String) (es : List LruEntry) {e : LruEntry} → lookup id es ≡ some e → key e ≡ id
unfolding lookup
key_of_lookup id [] found = absurd (cc)
key_of_lookup id (x ∷ xs) {e} found = elim (Bool-cases (str_eq (key x) id)) [
  | inl same ↦ ground (arith, str_eq→eq (key x) id same)
  | inr other ↦ key_of_lookup id xs (rw other at found)
]

replaced-IsValid :
    (l : LruList) (id : String) (w : LruEntry) {e : LruEntry}
    → IsValid l
    → lookup id l.entries ≡ some e
    → key w ≡ id
    → data_size w ≡ data_size e
    → IsValid (record l { entries = replace id w l.entries })
replaced-IsValid l id w v found named same = record {
  sorted = replace-IsSorted id w named l.entries v.sorted;
  counted = v.counted ∙ ap pos (sym (sum_by-replace data_size id w l.entries found same));
}

get_absent :
    (l : LruList) (id : String) (now : ℕ)
    → IsValid l
    → lookup id l.entries ≡ none
    → get l id now ≡ (l, none)
unfolding get
get_absent l id now v absent = rw (entry_at-search_id id l.entries v.sorted, absent)

-- A read from a valid list keeps it valid. It returns the entry that a scan of the list finds, with
-- the time of the read; this time is all that the read changes. A miss changes nothing.
pub get_correct :
    (l : LruList) (id : String) (now : ℕ)
    → IsValid l
    → IsValid (get l id now).0
      × ((get l id now).1 ≡ Option.map (at_time now) (lookup id l.entries))
      × ((j : String)
          → lookup j (get l id now).0.entries ≡ (
              if str_eq id j
              then Option.map (at_time now) (lookup j l.entries)
              else lookup j l.entries))
      × (length (get l id now).0.entries ≡ length l.entries)
get_correct l id now v = elim (Option-cases (lookup id l.entries)) [
  | inl absent ↦
      rw (get_absent l id now v absent, absent)
        (v, refl, λ j. ground (arith, str_eq→eq id j, absent), refl)
  | inr (e, found) ↦
      let named = key_of_lookup id l.entries found in
      rw (entries-get l id now v found, found)
        (
          replaced-IsValid l id (at_time now e) v found named refl,
          refl,
          λ j.
              lookup-replace id (at_time now e) named j l.entries found
              ∙ ground (arith, str_eq→eq id j, found),
          length-replace id (at_time now e) l.entries,
        )
]

entries-update :
    (l : LruList) (e : LruEntry) (now : ℕ) {old : LruEntry}
    → IsValid l
    → lookup (key e) l.entries ≡ some old
    → update l e now ≡ record l { entries = replace (key e) (at_time now e) l.entries }
unfolding update
entries-update l e now v found =
    rw (entry_at-search_id (key e) l.entries v.sorted, found)
      (rw (set_at-replace (key e) (at_time now e) l.entries v.sorted found))

-- An update of a valid list by an entry with as much data as the one that it replaces keeps the list
-- valid, and afterwards the lookup of its id gives the new entry with the time of the update, and
-- every other lookup what it gave.
pub update_correct :
    (l : LruList) (e old : LruEntry) (now : ℕ)
    → IsValid l
    → lookup (key e) l.entries ≡ some old
    → data_size e ≡ data_size old
    → IsValid (update l e now)
      × ((j : String)
          → lookup j (update l e now).entries
            ≡ (if str_eq (key e) j then some (at_time now e) else lookup j l.entries))
update_correct l e old now v found same = rw (entries-update l e now v found) (
  replaced-IsValid l (key e) (at_time now e) v found refl same,
  λ j. lookup-replace (key e) (at_time now e) refl j l.entries found,
)
