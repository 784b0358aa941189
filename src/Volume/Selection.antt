-- ===== src/Volume/Selection.antt =====
-- The shares of the volumes, and the choice by them (internal/services/volume/manager.go).
use native.Mathlib.Nat.{
  div-mul-le_self, lt-div-mul-add, le_of_mul-le-mul_right, lt_of_mul-lt-mul_right,
}
use go_blob_store.Prelude.{
  ℕ, String, All, is_some, List, [], ◌∷◌, ◌+◌, ◌*◌, ◌/◌, ◌%◌, ◌^◌, ◌≤◌, ◌<◌, ◌≡◌, leb, sum_by,
  lt→ltb, Bool-cases, inl, inr, arith, refl, ap, ◌∙◌, map, length,
}
use go_blob_store.Volume
use go_blob_store.Volume.{freepm_of, with_selector, Volumes, selector_of, keys}

select_key-is_some :
    (vs : Volumes) (i sel : ℕ) (k : String) (ks : List String)
    → is_some (Volume.select_key vs i sel (k ∷ ks)) ≡ leb i (sel + sum_by (selector_of vs) (k ∷ ks))
unfolding Volume.select_key
select_key-is_some vs i sel k [] = elim (Bool-cases (leb i (sel + selector_of vs k))) [
  | inl here ↦ rw here (ground arith)
  | inr later ↦ rw later (ground arith)
]
select_key-is_some vs i sel k (k' ∷ ks) = elim (Bool-cases (leb i (sel + selector_of vs k))) [
  | inl here ↦ rw here (ground arith)
  | inr later ↦
      rw later (select_key-is_some vs i (sel + selector_of vs k) k' ks ∙ ap (leb i) (omega arith))
]

-- Where there is a volume, the loop of the selection stops at one just if the number is not above
-- the sum of the selectors; above it none is selected.
pub select_key-sum :
    (vs : Volumes) (i : ℕ) (k : String) (ks : List String)
    → keys vs ≡ k ∷ ks
    → is_some (Volume.select_key vs i 0 (keys vs)) ≡ leb i (sum_by (selector_of vs) (keys vs))
select_key-sum vs i k ks e = rw e (select_key-is_some vs i 0 k ks ∙ ap (leb i) (omega arith))

-- the sum of the shares that a whole of `g` gives
abbrev shares : ℕ → Volumes → ℕ
shares g vs = sum_by (λ v. freepm_of v * 1000 / g) vs

shares_upper : (g : ℕ) (vs : Volumes) → shares g vs * g ≤ sum_by freepm_of vs * 1000
shares_upper g [] = omega arith
shares_upper g (v ∷ vs) = grind (arith, shares_upper g vs, div-mul-le_self (freepm_of v * 1000) g)

shares_lower :
    (g : ℕ) (vs : Volumes)
    → 0 < g
    → sum_by freepm_of vs * 1000 + length vs ≤ (shares g vs + length vs) * g
shares_lower g [] h = omega arith
shares_lower g (v ∷ vs) h =
    grind (arith, shares_lower g vs h, lt-div-mul-add {a = freepm_of v * 1000} {b = g} h)

abbrev pub share : String × Volume.Info → ℕ
share v = v.1.selector

-- free space in per mille of the volume's own
abbrev pub IsPerMille : String × Volume.Info → Type 0
IsPerMille v = freepm_of v ≤ 1000

sum_by-share :
    (g : ℕ) (vs : Volumes)
    → All IsPerMille vs
    → sum_by share (map (with_selector g) vs) ≡ shares g vs
sum_by-share g [] all = refl
sum_by-share g (v ∷ vs) (small, all) =
    let exact : freepm_of v * 1000 % 2 ^ 64 ≡ freepm_of v * 1000 = omega arith in
    rw exact (omega (arith, sum_by-share g vs all))

nonempty_of_sum : (vs : Volumes) → 0 < sum_by freepm_of vs → 0 < length vs
nonempty_of_sum [] h = absurd (omega arith)
nonempty_of_sum (v ∷ vs) h = omega arith

-- Where the free shares in per mille are at most 1000 each and not all zero, the selectors add up to
-- at most 1000, and miss it by less than the number of the volumes.
pub with_selectors-sum :
    (vs : Volumes)
    → All IsPerMille vs
    → 0 < sum_by freepm_of vs
    → (sum_by share (Volume.with_selectors vs) ≤ 1000)
      × (1000 < sum_by share (Volume.with_selectors vs) + length vs)
unfolding Volume.with_selectors
with_selectors-sum vs small some_free =
    let g = sum_by freepm_of vs in
    let total = sum_by-share g vs small in
    let upper : shares g vs ≤ 1000 =
      le_of_mul-le-mul_right {k = g} (omega (arith, shares_upper g vs)) some_free in
    let lower : 1000 < shares g vs + length vs =
      lt_of_mul-lt-mul_right g {m = 1000}
        (omega (arith, shares_lower g vs some_free, nonempty_of_sum vs some_free)) in
    rw (lt→ltb 0 g some_free) (omega (arith, total, upper), omega (arith, total, lower))
