-- ===== src/Tests/Lists.antt =====
-- The list of the cache (internal/services/fastcache/lrulist.go), the binary search and the retention
-- dates at small inputs.
use mathlib.Core.Option
use go_blob_store.Prelude.{
  ℕ, suc, ◌+◌, ◌*◌, ◌≡◌, refl, String, pos, true, false, Option, none, some, List, [], ◌∷◌, map,
  arith, length, str_eq, str_leb, ltb_ℤ, if◌then◌else◌,
}
use go_blob_store.Model.{BlobDescription, RetentionEntry, get_retention_timestamp_ms}
use go_blob_store.Model.Retention.{get_retention_timestamp_ms_exact}
use go_blob_store.Search.{sort_search}
use go_blob_store.Lru
use go_blob_store.Lru.{LruEntry, LruList, key}
use go_blob_store.Lru.Order.{lookup}
use go_blob_store.Lru.Invariant.{
  IsValid, at_time, add_correct, delete_correct, get_correct, update_correct,
}
use go_blob_store.Lru.Oldest.{IsOldestWithData, get_oldest_with_data_correct}
use go_blob_store.Lru.Ram.{Forgets, IsSurplus, SameBounds, handle_constrains_correct}

abbrev pub blob : String → BlobDescription
blob id = record {
  store_id = "";
  content_length = pos 3;
  content_type = "text/plain";
  creation_date = pos 1000;
  filename = "a.txt";
  tenant_id = "mcs";
  blob_id = id;
  last_access = pos 0;
  retention = pos 2;
  blob_url = "";
  hash = "";
  check = none;
  properties = [];
}

abbrev pub cached : String → ℕ → Option (List ℕ) → LruEntry
cached id time dat = record { last_access = time; description = blob id; data_in_ram = dat }

abbrev entry_b : LruEntry
entry_b = cached "bb01" 5 (some (1 ∷ 2 ∷ 3 ∷ []))

abbrev entry_d : LruEntry
entry_d = cached "dd01" 3 (some (4 ∷ []))

-- two entries of four bytes in memory, where one entry and two bytes are allowed
abbrev pub two : LruList
two = record {
  max_count = 1;
  max_ram_size = pos 2;
  entries = entry_b ∷ entry_d ∷ [];
  ram_size = pos 4;
}

abbrev entry_c : LruEntry
entry_c = cached "cc01" 7 none

program : Unit {0}
unfolding str_leb sort_search Lru.search_id Lru.entry_at Lru.insert_sorted Lru.add Lru.delete
    Lru.has Lru.get Lru.handle_constrains
program = tt

add_between : map key (Lru.add two entry_c).0.entries ≡ "bb01" ∷ "cc01" ∷ "dd01" ∷ []
unfolding program
add_between = refl

two-IsValid : IsValid two
unfolding str_leb
two-IsValid = record { sorted = ((refl, tt), (tt, tt)); counted = refl }

add_correct_example :
    IsValid (Lru.add two entry_c).0
    × (length (Lru.add two entry_c).0.entries ≡ 3)
    × ((id : String)
        → lookup id (Lru.add two entry_c).0.entries
          ≡ (if str_eq "cc01" id then some entry_c else lookup id two.entries))
unfolding lookup
add_correct_example = add_correct two entry_c two-IsValid refl

delete_correct_example :
    IsValid (Lru.delete two "bb01").0
    × ((j : String)
        → lookup j (Lru.delete two "bb01").0.entries
          ≡ (if str_eq "bb01" j then none else lookup j two.entries))
    × ((e : LruEntry)
        → lookup "bb01" two.entries ≡ some e
        → ((Lru.delete two "bb01").1 ≡ "bb01")
          × (suc (length (Lru.delete two "bb01").0.entries) ≡ length two.entries))
    × (lookup "bb01" two.entries ≡ none → Lru.delete two "bb01" ≡ (two, ""))
delete_correct_example = delete_correct two "bb01" two-IsValid

get_correct_example :
    IsValid (Lru.get two "dd01" 9).0
    × ((Lru.get two "dd01" 9).1 ≡ Option.map (at_time 9) (lookup "dd01" two.entries))
    × ((j : String)
        → lookup j (Lru.get two "dd01" 9).0.entries ≡ (
            if str_eq "dd01" j
            then Option.map (at_time 9) (lookup j two.entries)
            else lookup j two.entries))
    × (length (Lru.get two "dd01" 9).0.entries ≡ length two.entries)
get_correct_example = get_correct two "dd01" 9 two-IsValid

abbrev renamed_d : LruEntry
renamed_d = record entry_d { description = record (blob "dd01") { filename = "b.txt" } }

update_correct_example :
    IsValid (Lru.update two renamed_d 9)
    × ((j : String)
        → lookup j (Lru.update two renamed_d 9).entries
          ≡ (if str_eq "dd01" j then some (at_time 9 renamed_d) else lookup j two.entries))
unfolding lookup
update_correct_example = update_correct two renamed_d entry_d 9 two-IsValid refl refl

get_oldest_with_data_correct_example :
    IsOldestWithData two.entries two.entries (Lru.get_oldest_with_data two)
get_oldest_with_data_correct_example = get_oldest_with_data_correct two

handle_constrains_correct_example :
    (l : LruList) × (id : String) × (Lru.handle_constrains two ≡ some (l, id))
    × IsValid l
    × Forgets two.entries l.entries
    × (ltb_ℤ (pos 0) two.max_ram_size ≡ true → ltb_ℤ two.max_ram_size l.ram_size ≡ false)
    × IsSurplus two id
    × SameBounds two l
handle_constrains_correct_example = handle_constrains_correct two two-IsValid

abbrev kept_an_hour : RetentionEntry
kept_an_hour = record {
  filename = "a.txt";
  tenant_id = "mcs";
  blob_id = "bb01";
  creation_date = pos 1000;
  retention = pos 60;
  retention_base = pos 0;
}

get_retention_timestamp_ms_exact_example :
    get_retention_timestamp_ms kept_an_hour ≡ pos (1000 + 60 * 60000)
get_retention_timestamp_ms_exact_example =
    get_retention_timestamp_ms_exact kept_an_hour 60 1000 0 refl refl refl (omega arith)
