-- ===== src/Version/Comparison.antt =====
-- The comparisons of internal/config/version.go belong to one order.
use go_blob_store.Prelude.{
  ℤ, pos, negsuc, Bool, true, false, ◌≡◌, str_eq, ltb_ℤ, if◌then◌else◌, arith,
}
use go_blob_store.Version
use go_blob_store.Version.{Version}

equal_of_neither : (a b : ℤ) → ltb_ℤ a b ≡ false → ltb_ℤ b a ≡ false → Version.eq_ℤ a b ≡ true
equal_of_neither (pos a) (pos b) h k = ground arith
equal_of_neither (pos a) (negsuc b) h k = ground arith
equal_of_neither (negsuc a) (pos b) h k = ground arith
equal_of_neither (negsuc a) (negsuc b) h k = ground arith

-- the comparison of three pairs of numbers, the first pair first
lexical : Bool → Bool → Bool → Bool → Bool → Bool → Bool
lexical a a' b b' c c' =
    if a
    then true
    else if a'
    then false
    else if b
    then true
    else if b'
    then false
    else if c
    then true
    else if c'
    then false
    else false

none_is_less :
    (a a' b b' c c' : Bool)
    → lexical a a' b b' c c' ≡ false
    → lexical a' a b' b c' c ≡ false
    → ((a ≡ false) × (a' ≡ false)) × (((b ≡ false) × (b' ≡ false)) × ((c ≡ false) × (c' ≡ false)))
unfolding lexical
none_is_less a a' b b' c c' h k = ground arith

if_self : (b : Bool) → (if b then true else false) ≡ b
if_self b = ground arith

-- Of two versions of which neither is greater nor smaller than the other, the numbers are the same:
-- they are equal just if their special parts are.
pub is_equal_of_neither :
    (v o : Version)
    → Version.is_greater_than v o ≡ false
    → Version.is_smaller_than v o ≡ false
    → Version.is_equal v o ≡ str_eq v.special o.special
unfolding Version.is_greater_than Version.is_smaller_than Version.is_equal lexical
is_equal_of_neither v o h k =
    let ((a, a'), ((b, b'), (c, c'))) =
      none_is_less (ltb_ℤ o.major v.major) (ltb_ℤ v.major o.major) (ltb_ℤ o.minor v.minor)
        (ltb_ℤ v.minor o.minor) (ltb_ℤ o.patch v.patch) (ltb_ℤ v.patch o.patch) h k in
    rw
      (
        equal_of_neither v.major o.major a' a,
        equal_of_neither v.minor o.minor b' b,
        equal_of_neither v.patch o.patch c' c,
      )
      (if_self (str_eq v.special o.special))
