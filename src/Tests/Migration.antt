-- ===== src/Tests/Migration.antt =====
-- internal/services/migration over storages that are maps.
use go_blob_store.Prelude.{String, true, none, some, [], ◌∷◌}
use go_blob_store.Model.{Bytes, Error}
use go_blob_store.Migration
use go_blob_store.Migration.{CheckContext}
use go_blob_store.Tests.Lists.{blob}
use go_blob_store.Tests.Maps.{Map, maps, put}

abbrev bytes : Bytes
bytes = 1 ∷ 2 ∷ 3 ∷ []

abbrev hex : Bytes → String
hex c = "00"

abbrev text : Error → String
text e = "failed"

-- a map with the blobs "aa01" and "bb01", and one with the second
abbrev both : Map
both = put (put (λ _. none) "aa01" (some (blob "aa01", bytes))) "bb01" (some (blob "bb01", bytes))

abbrev one : Map
one = put (λ _. none) "bb01" (some (blob "bb01", bytes))

abbrev context : CheckContext maps hex text
context = record {
  tenant_id = "mcs";
  cache = none;
  primary = put (λ _. none) "aa01" (some (record (blob "aa01") { hash = "sha-256:00" }, bytes));
  backup = some one;
  running = true;
}
