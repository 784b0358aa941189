-- ===== src/Tests/Slices.antt =====
-- The slices of strings (internal/utils/slicesutils/slicesutils.go).
use go_blob_store.Prelude.{◌≡◌, String, List, [], ◌∷◌, ◌+◌, ◌&&◌, str_eq}
use go_blob_store.Slices
use go_blob_store.Slices.Counts.{count, one_if, count-remove_string}

abbrev names : List String
names = "Willie" ∷ "Arthur" ∷ "Till" ∷ []

count-remove_string_example :
    count "Till" (Slices.remove_string names "Willie")
      + one_if (Slices.contains names "Willie" && str_eq "Willie" "Till")
    ≡ count "Till" names
count-remove_string_example = count-remove_string "Till" "Willie" names
