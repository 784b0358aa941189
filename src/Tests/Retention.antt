-- ===== src/Tests/Retention.antt =====
-- The retention manager (internal/services/retentionmanager/singleretentionmanager.go).
use go_blob_store.Prelude.{◌≡◌, ◌+ℤ◌, refl, String, pos, List, [], ◌∷◌, ℕ, ◌+◌, arith, length}
use go_blob_store.Model.{err, Error, RetentionEntry, get_retention_timestamp_ms, to_int64}
use go_blob_store.Retention
use go_blob_store.Retention.{SingleRetentionManager}
use go_blob_store.Retention.Push.{IsValid, push_to_list-IsValid, push_to_list-full}
use go_blob_store.Retention.Removal.{remove_entry-absent, process_retention-alive}
use go_blob_store.Tests.Maps.{maps}

abbrev entry : String → ℕ → RetentionEntry
entry id date = record {
  filename = "a.txt";
  tenant_id = "mcs";
  blob_id = id;
  creation_date = pos date;
  retention = pos 1;
  retention_base = pos 0;
}

abbrev early : RetentionEntry
early = entry "aa01" 1000

abbrev late : RetentionEntry
late = entry "bb01" 9000

abbrev both_entries : List RetentionEntry
both_entries = early ∷ late ∷ []

both_entries-IsValid : IsValid 2 both_entries
unfolding get_retention_timestamp_ms to_int64 ◌+ℤ◌
both_entries-IsValid = record {
  sorted = ((refl, tt), (tt, tt));
  distinct = (refl, (refl, tt));
  bounded = omega arith;
}

push_to_list-IsValid_example : IsValid 2 (Retention.push_to_list 2 both_entries (entry "cc01" 5000))
push_to_list-IsValid_example =
    push_to_list-IsValid 2 both_entries (entry "cc01" 5000) both_entries-IsValid

push_to_list-full_example :
    length (Retention.push_to_list 2 both_entries (entry "cc01" 5000)) + 1 ≡ 2
unfolding get_retention_timestamp_ms to_int64 ◌+ℤ◌
push_to_list-full_example =
    push_to_list-full 2 both_entries (entry "cc01" 5000) both_entries-IsValid.sorted refl refl
      (omega arith)

remove_entry-absent_example : Retention.remove_entry both_entries "cc01" ≡ late ∷ []
remove_entry-absent_example = remove_entry-absent early (late ∷ []) "cc01" refl

abbrev manager : SingleRetentionManager maps
manager = record {
  storages = λ _. err Error.not_exist;
  retention_list = both_entries;
  max_size = 2;
}

process_retention-alive_example :
    (Retention.process_retention maps (pos 65000) manager).retention_list ≡ late ∷ []
unfolding get_retention_timestamp_ms to_int64 ◌+ℤ◌
process_retention-alive_example =
    process_retention-alive maps (pos 65000) manager both_entries-IsValid.distinct
