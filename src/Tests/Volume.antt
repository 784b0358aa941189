-- ===== src/Tests/Volume.antt =====
-- The choice of a volume (internal/services/volume/manager.go).
use go_blob_store.Prelude.{
  ◌≡◌, refl, ℕ, ◌≤◌, ◌<◌, ◌+◌, String, true, is_some, [], ◌∷◌, sum_by, str_leb, arith,
}
use go_blob_store.Volume
use go_blob_store.Volume.{Info, Volumes, keys}
use go_blob_store.Volume.Selection.{select_key-sum, with_selectors-sum, share}

abbrev volume : String → ℕ → ℕ → Info
volume name freepm selector = record {
  name = name;
  free = 500;
  used = 500;
  total = 1000;
  path = "";
  selector = selector;
  freepm = freepm;
}

abbrev three : Volumes
three =
    ("mvn02", volume "mvn02" 500 333)
    ∷ ("mvn01", volume "mvn01" 500 333)
    ∷ ("mvn03", volume "mvn03" 500 333)
    ∷ []

select_key-sum_example : is_some (Volume.select_key three 400 0 (keys three)) ≡ true
unfolding Volume.selector_of Volume.info str_leb
select_key-sum_example = select_key-sum three 400 "mvn01" ("mvn02" ∷ "mvn03" ∷ []) refl

with_selectors-sum_example :
    (sum_by share (Volume.with_selectors three) ≤ 1000)
    × (1000 < sum_by share (Volume.with_selectors three) + 3)
with_selectors-sum_example =
    with_selectors-sum three (omega arith, (omega arith, (omega arith, tt))) (omega arith)
