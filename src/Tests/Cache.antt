-- ===== src/Tests/Cache.antt =====
-- The cache (internal/services/fastcache/fastcache.go) over a filter that remembers every id.
use Prim.Native.String.{len}
use go_blob_store.Prelude.{
  ◌≤◌, ◌≡◌, refl, String, pos, Bool, true, false, ◌||◌, none, some, is_some, List, [], ◌∷◌, arith,
  length, str_eq, str_eq_refl, ltb, ltb_ℤ, if◌then◌else◌, str_eq→eq, subst, sym,
}
use go_blob_store.Model.{ok, Reader}
use go_blob_store.Lru
use go_blob_store.Lru.{LruEntry}
use go_blob_store.Lru.Order.{lookup}
use go_blob_store.Lru.Oldest.{IsOldest}
use go_blob_store.FastCache
use go_blob_store.FastCache.{BloomFilter, Disk, FastCache}
use go_blob_store.FastCache.Invariant.{IsValid, at, has_blob-at, delete_blob_correct}
use go_blob_store.FastCache.Storing.{CanStore, store_blob_correct}
use go_blob_store.FastCache.Filter.{rebuild_bloom_filter_correct, evict_never}
use go_blob_store.Tests.Lists.{blob, cached}

remembers : List String → String → Bool
remembers [] id = false
remembers (i ∷ ids) id = str_eq i id || remembers ids id

remembers_self : (ids : List String) (id : String) → remembers (id ∷ ids) id ≡ true
unfolding remembers
remembers_self ids id = ground (arith, str_eq_refl id)

remembers-cons :
    (ids : List String) (id j : String) → remembers ids j ≡ true → remembers (id ∷ ids) j ≡ true
unfolding remembers
remembers-cons ids id j h = ground arith

abbrev all_ids : BloomFilter
all_ids = record {
  Filter = List String;
  new = λ n. [];
  insert = λ ids id. id ∷ ids;
  lookup = remembers;
  lookup-insert_self = remembers_self;
  lookup-insert = remembers-cons;
}

abbrev sound_disk : Disk
sound_disk = record {
  mkdir_fails = λ _. false;
  create_fails = λ _. false;
  close_fails = λ _. false;
  read_fails = λ _. false;
  remove_fails = λ _. false;
  write_fails = false;
}

-- one blob, in memory and on the disk
abbrev one_blob : FastCache (List String)
one_blob = record {
  max_count = 1;
  max_file_size_for_ram = pos 100;
  size = pos 2;
  entries = record {
    max_count = 1;
    max_ram_size = pos 10;
    entries = cached "bb01" 5 (some (7 ∷ 8 ∷ [])) ∷ [];
    ram_size = pos 2;
  };
  bf = "bb01" ∷ [];
  bf_dirty = true;
  files = λ id. if str_eq "bb01" id then some (7 ∷ 8 ∷ []) else none;
}

is_bb01 :
    (id : String) (e : LruEntry)
    → at all_ids one_blob id ≡ some e
    → (id ≡ "bb01") × (e ≡ cached "bb01" 5 (some (7 ∷ 8 ∷ [])))
unfolding lookup
is_bb01 id e h = ground (arith, str_eq→eq "bb01" id)

one_blob-IsValid : (except : String → Bool) → IsValid all_ids except one_blob
unfolding remembers lookup
one_blob-IsValid except = record {
  list = record { sorted = (tt, tt); counted = refl };
  covered = λ id e h _. ground (arith, is_bb01 id e h, str_eq_refl "bb01");
  stored = λ id e h. (
    7 ∷ 8 ∷ [],
    ground (arith, is_bb01 id e h, str_eq_refl "bb01"),
    ground (arith, is_bb01 id e h),
  );
  named = λ id e h. subst (λ s. ltb (len s) 2 ≡ false) (sym (is_bb01 id e h).0) refl;
}

abbrev text_reader : Reader
text_reader = record { content = 1 ∷ 2 ∷ 3 ∷ []; broken = false }

-- a new blob takes the place of the old one
can_store : CanStore all_ids sound_disk 6 (blob "cc01") text_reader one_blob
unfolding lookup
can_store = record {
  valid = one_blob-IsValid (λ _. false);
  absent = refl;
  named = refl;
  room = omega arith;
  earlier = (omega arith, tt);
  writable = record { mkdir = refl; create = refl; close = refl };
  sound = refl;
}

store_blob_correct_example :
    (f : FastCache (List String)) × (FastCache.store_blob all_ids 4 sound_disk 6
        (blob "cc01")
        text_reader
        one_blob
      ≡ some (ok "cc01", f))
    × IsValid all_ids (λ _. false) f
    × (length f.entries.entries ≤ 1)
    × (ltb_ℤ (pos 0) (pos 10) ≡ true → ltb_ℤ (pos 10) f.entries.ram_size ≡ false)
    × (is_some (at all_ids f "cc01") ≡ true)
    × ((id : String)
        → str_eq "cc01" id ≡ false
        → is_some (at all_ids f id) ≡ true
        → is_some (at all_ids one_blob id) ≡ true)
    × ((id : String) (x : LruEntry)
        → str_eq "cc01" id ≡ false
        → at all_ids one_blob id ≡ some x
        → at all_ids f id ≡ none
        → IsOldest x f.entries.entries)
store_blob_correct_example =
    store_blob_correct all_ids 4 sound_disk 6 (blob "cc01") text_reader one_blob can_store
      (omega arith)

has_blob-at_example :
    FastCache.has_blob all_ids one_blob "bb01" ≡ ok (is_some (at all_ids one_blob "bb01"))
has_blob-at_example = has_blob-at all_ids one_blob "bb01" (one_blob-IsValid (λ _. false)) refl

delete_blob_correct_example :
    IsValid all_ids (λ _. false) (FastCache.delete_blob all_ids sound_disk one_blob "bb01").1
    × ((FastCache.delete_blob all_ids sound_disk one_blob "bb01").1.entries
        ≡ (Lru.delete one_blob.entries "bb01").0)
    × ((j : String)
        → at all_ids (FastCache.delete_blob all_ids sound_disk one_blob "bb01").1 j
          ≡ (if str_eq "bb01" j then none else at all_ids one_blob j))
    × ((j : String)
        → str_eq "bb01" j ≡ false
        → (FastCache.delete_blob all_ids sound_disk one_blob "bb01").1.files j ≡ one_blob.files j)
unfolding lookup
delete_blob_correct_example =
    delete_blob_correct all_ids sound_disk (λ _. false) one_blob "bb01"
      (cached "bb01" 5 (some (7 ∷ 8 ∷ []))) (one_blob-IsValid (λ _. false)) refl refl

rebuild_bloom_filter_correct_example :
    IsValid all_ids (λ _. false) (FastCache.rebuild_bloom_filter all_ids one_blob)
    × ((FastCache.rebuild_bloom_filter all_ids one_blob).entries ≡ one_blob.entries)
    × ((FastCache.rebuild_bloom_filter all_ids one_blob).files ≡ one_blob.files)
    × ((FastCache.rebuild_bloom_filter all_ids one_blob).bf_dirty ≡ false)
rebuild_bloom_filter_correct_example =
    rebuild_bloom_filter_correct all_ids one_blob (one_blob-IsValid (λ _. false))

-- a cache of no entries, which the new blob was added to
abbrev no_room : FastCache (List String)
no_room = record one_blob {
  max_count = 0;
  entries = record {
    max_count = 0;
    max_ram_size = pos 10;
    entries = cached "bb01" 5 (some (7 ∷ 8 ∷ [])) ∷ [];
    ram_size = pos 2;
  };
  bf = [];
}

evict_never_example : FastCache.evict all_ids 1000 sound_disk no_room ≡ none
unfolding remembers
evict_never_example =
    evict_never all_ids sound_disk 1000 no_room (cached "bb01" 5 (some (7 ∷ 8 ∷ [])))
      (record { sorted = (tt, tt); counted = refl }) refl refl refl refl
