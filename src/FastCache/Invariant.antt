-- ===== src/FastCache/Invariant.antt =====
-- The cache's invariant, and that `HasBlob` tells what the list holds.
use Prim.Native.String.{len}
use go_blob_store.Prelude.{
  ◌≡◌, refl, ap, ◌⊎◌, inl, inr, String, Bool, true, false, Option, none, some, is_some, arith,
  str_eq, str_eq→eq, ltb, Option-cases, Bool-cases, if◌then◌else◌,
}
use go_blob_store.Model.{Bytes, Result, ok, err}
use go_blob_store.Lru
use go_blob_store.Lru.{LruEntry}
use go_blob_store.Lru.Order.{lookup}
use go_blob_store.Lru.Invariant
use go_blob_store.FastCache.{
  BloomFilter, Disk, FastCache, in_bloom, has_blob, delete_blob, delete_blob_file, delete_listed,
}

-- the entry's bytes are on the disk, and in memory where it has data
abbrev pub IsStored : Option Bytes → LruEntry → Type 0
IsStored file e =
    (content : Bytes) × (file ≡ some content)
    × ((e.data_in_ram ≡ none) ⊎ (e.data_in_ram ≡ some content))

module _ (bloom : BloomFilter) where
  open bloom use {Filter}

  abbrev pub at : FastCache Filter → String → Option LruEntry
  at f id = lookup id f.entries.entries

  -- The list is valid; each entry has its file and an id of at least two bytes, and is in the filter
  -- unless the exception names it: `StoreBlob` adds the entry first.
  pub record IsValid (except : String → Bool) (f : FastCache Filter) : Type 0 where
    pub list : Lru.Invariant.IsValid f.entries
    pub covered :
        (id : String) (e : LruEntry)
        → at f id ≡ some e
        → except id ≡ false
        → bloom.lookup f.bf id ≡ true
    pub stored : (id : String) (e : LruEntry) → at f id ≡ some e → IsStored (f.files id) e
    pub named : (id : String) (e : LruEntry) → at f id ≡ some e → ltb (len id) 2 ≡ false

  pub not_empty : (id : String) → ltb (len id) 2 ≡ false → str_eq id "" ≡ false
  not_empty id h = elim (Bool-cases (str_eq id "")) [
    | inr done ↦ done
    | inl same ↦ absurd (cc (h, ap (λ s. ltb (len s) 2) (str_eq→eq id "" same)))
  ]

  -- In a valid cache `HasBlob` says of an id, the empty one apart, exactly whether the list has an
  -- entry for it: the filter hides none.
  pub has_blob-at :
      (f : FastCache Filter) (id : String)
      → IsValid (λ _. false) f
      → str_eq id "" ≡ false
      → has_blob bloom f id ≡ ok (is_some (at f id))
  unfolding has_blob in_bloom
  has_blob-at f id v named = elim (Option-cases (at f id)) [
    | inl absent ↦ simp (named, Lru.Invariant.has-lookup f.entries id v.list, absent) (ground arith)
    | inr (e, found) ↦
        simp (named, Lru.Invariant.has-lookup f.entries id v.list, found, v.covered id e found refl)
  ]

  delete_blob_file_keeps :
      (d : Disk) (f : FastCache Filter) (id : String)
      → ((delete_blob_file bloom d f id).1.entries ≡ f.entries)
        × ((delete_blob_file bloom d f id).1.bf ≡ f.bf)
        × ((delete_blob_file bloom d f id).1.max_count ≡ f.max_count)
        × ((j : String)
            → str_eq id j ≡ false
            → (delete_blob_file bloom d f id).1.files j ≡ f.files j)
  unfolding delete_blob_file
  delete_blob_file_keeps d f id = ground arith

  -- what an operation on the file of `id` leaves alone
  abbrev Keeps : String → FastCache Filter → FastCache Filter → Type 0
  Keeps id f f' =
      (f'.entries ≡ f.entries)
      × (f'.bf ≡ f.bf)
      × (f'.max_count ≡ f.max_count)
      × ((j : String) → str_eq id j ≡ false → f'.files j ≡ f.files j)

  delete_listed-Keeps :
      (d : Disk) (f : FastCache Filter) (id : String) → Keeps id f (delete_listed bloom d f id).1
  unfolding delete_listed
  delete_listed-Keeps d f id = elim (Bool-cases (str_eq id "")) [
    | inl empty ↦ simp empty (refl, refl, refl, λ j other. refl)
    | inr named ↦ simp named (go (delete_blob_file bloom d f id) (delete_blob_file_keeps d f id))
  ]
    where
      go :
          (r : Result (Unit {0}) × FastCache Filter)
          → Keeps id f r.1
          → Keeps id f
              (elim r.0 as (λ _. Result (Unit {0}) × FastCache Filter) [
                | err e ↦ (err e, r.1)
                | ok _ ↦ (ok tt, record (r.1) { bf_dirty = true })
              ]).1
      go (ok _, f') k = k
      go (err e, f') k = k

  delete_blob_found :
      (d : Disk) (except : String → Bool) (f : FastCache Filter) (id : String) {e : LruEntry}
      → IsValid except f
      → at f id ≡ some e
      → except id ≡ false
      → Keeps id (record f { entries = (Lru.delete f.entries id).0 }) (delete_blob bloom d f id).1
  unfolding delete_blob in_bloom
  delete_blob_found d except f id {e} v found ordinary =
      let result = ((Lru.Invariant.delete_correct f.entries id v.list).2 e found).0 in
      simp
        (
          not_empty id (v.named id e found),
          v.covered id e found ordinary,
          Lru.Invariant.has-lookup f.entries id v.list,
          found,
          result,
        )
        (delete_listed-Keeps d (record f { entries = (Lru.delete f.entries id).0 }) id)

  -- Deleting the blob of an entry removes this entry from a valid cache, whatever the disk does, and
  -- keeps the cache valid and the files of all other blobs.
  pub delete_blob_correct :
      (d : Disk) (except : String → Bool) (f : FastCache Filter) (id : String) (e : LruEntry)
      → IsValid except f
      → at f id ≡ some e
      → except id ≡ false
      → IsValid except (delete_blob bloom d f id).1
        × ((delete_blob bloom d f id).1.entries ≡ (Lru.delete f.entries id).0)
        × ((j : String)
            → at (delete_blob bloom d f id).1 j ≡ (if str_eq id j then none else at f j))
        × ((j : String) → str_eq id j ≡ false → (delete_blob bloom d f id).1.files j ≡ f.files j)
  delete_blob_correct d except f id e v found ordinary =
      let (entries, bf, _, files) = delete_blob_found d except f id v found ordinary in
      let (valid, removed, _, _) = Lru.Invariant.delete_correct f.entries id v.list in
      (
        record {
          list = rw entries valid;
          covered = λ j x at_j usual. rw bf (v.covered j x (still j x at_j).1 usual);
          stored = λ j x at_j. rw (files j (still j x at_j).0) (v.stored j x (still j x at_j).1);
          named = λ j x at_j. v.named j x (still j x at_j).1;
        },
        entries,
        λ j. rw entries (removed j),
        files,
      )
    where
      -- an entry that is left is another one, and was there before
      still :
          (j : String) (x : LruEntry)
          → at (delete_blob bloom d f id).1 j ≡ some x
          → (str_eq id j ≡ false) × (at f j ≡ some x)
      still j x at_j =
          let (entries, _, _, _) = delete_blob_found d except f id v found ordinary in
          let (_, removed, _, _) = Lru.Invariant.delete_correct f.entries id v.list in
          ground (arith, rw entries at at_j, removed j)
