-- ===== src/Tests/Version.antt =====
-- The versions (internal/config/version.go).
use go_blob_store.Prelude.{◌≡◌, refl, pos, String, false}
use go_blob_store.Version
use go_blob_store.Version.{Version}
use go_blob_store.Version.Comparison.{is_equal_of_neither}

abbrev release : String → Version
release special = record { major = pos 1; minor = pos 2; patch = pos 3; special = special }

is_equal_of_neither_example : Version.is_equal (release "a") (release "b") ≡ false
unfolding Version.is_greater_than Version.is_smaller_than
is_equal_of_neither_example = is_equal_of_neither (release "a") (release "b") refl refl
