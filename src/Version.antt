-- ===== src/Version.antt =====
-- internal/config/version.go: versions and their comparison. A version is read from a text by Go's
-- number parser, which is not modelled.
pub mod Comparison
use go_blob_store.Prelude.{
  String, ℤ, Bool, true, false, str_eq, ltb_ℤ, if◌then◌else◌, pos_part, neg_part, ◌==◌, ◌&&◌,
}

pub record Version : Type 0 where
  pub major : ℤ
  pub minor : ℤ
  pub patch : ℤ
  pub special : String

abbrev pub eq_ℤ : ℤ → ℤ → Bool
eq_ℤ a b = (pos_part a == pos_part b) && (neg_part a == neg_part b)

unfoldable pub is_greater_than : Version → Version → Bool
is_greater_than v o =
    if ltb_ℤ o.major v.major
    then true
    else if ltb_ℤ v.major o.major
    then false
    else if ltb_ℤ o.minor v.minor
    then true
    else if ltb_ℤ v.minor o.minor
    then false
    else if ltb_ℤ o.patch v.patch
    then true
    else if ltb_ℤ v.patch o.patch
    then false
    else false

unfoldable pub is_smaller_than : Version → Version → Bool
is_smaller_than v o =
    if ltb_ℤ v.major o.major
    then true
    else if ltb_ℤ o.major v.major
    then false
    else if ltb_ℤ v.minor o.minor
    then true
    else if ltb_ℤ o.minor v.minor
    then false
    else if ltb_ℤ v.patch o.patch
    then true
    else if ltb_ℤ o.patch v.patch
    then false
    else false

unfoldable pub is_equal : Version → Version → Bool
is_equal v o =
    if eq_ℤ v.major o.major
    then if eq_ℤ v.minor o.minor
      then if eq_ℤ v.patch o.patch
        then if str_eq v.special o.special then true else false
        else false
      else false
    else false
