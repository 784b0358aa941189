-- ===== src/Slices/Counts.antt =====
-- The removal of internal/utils/slicesutils/slicesutils.go takes off one occurrence.
use mathlib.Core.Option
use go_blob_store.Prelude.{
  ℕ, zero, suc, String, pos, negsuc, Bool, true, false, some, List, [], ◌∷◌, ◌-◌, ◌+◌, ◌<◌, ◌≡◌,
  ◌⊎◌, ◌&&◌, ◌∙◌, ap, sym, str_eq, length, get_elem?, set, take, sum_by, if◌then◌else◌, refl, arith,
  Bool-cases, inl, inr, str_eq_symm, str_eq→eq, get_elem?_in_range, length-set,
}
use go_blob_store.Slices

-- how often a string stands in a slice
abbrev pub one_if : Bool → ℕ
one_if b = if b then 1 else 0

abbrev pub count : String → List String → ℕ
count d s = sum_by (λ a. one_if (str_eq a d)) s

count-set :
    (d v x : String) (s : List String) (i : ℕ)
    → get_elem? s i ≡ some x
    → count d (set s i v) + one_if (str_eq x d) ≡ count d s + one_if (str_eq v d)
count-set d v x [] i h = absurd (cc)
count-set d v x (y ∷ s) zero h = ground (arith, Option.some-injective y x h)
count-set d v x (y ∷ s) (suc i) h = omega (arith, count-set d v x s i h)

count-take :
    (d x : String) (s : List String) (n : ℕ)
    → length s ≡ suc n
    → get_elem? s n ≡ some x
    → count d (take n s) + one_if (str_eq x d) ≡ count d s
count-take d x [] n l h = absurd (cc)
count-take d x (y ∷ []) zero l h = ground (arith, Option.some-injective y x h)
count-take d x (y ∷ z ∷ s) zero l h = absurd (omega arith)
count-take d x (y ∷ s) (suc n) l h = omega (arith, count-take d x s n (omega arith) h)

-- what the search finds, counted from `k`
find_from_lem :
    (s : List String) (e : String) (k : ℕ)
    → ((Slices.contains s e ≡ false) × (Slices.find_from s e k ≡ negsuc 0))
      ⊎ ((i : ℕ) × ((Slices.contains s e ≡ true)
            × ((Slices.find_from s e k ≡ pos (k + i))
                × ((i < length s) × (get_elem? s i ≡ some e)))))
unfolding Slices.contains Slices.find_from
find_from_lem [] e k = inl (refl, refl)
find_from_lem (n ∷ s) e k = elim (Bool-cases (str_eq e n)) [
  | inl here ↦ inr (
    0,
    (
      rw (str_eq_symm n e, here) refl,
      (rw here (ap pos (omega arith)), (omega arith, ap some (sym (str_eq→eq e n here)))),
    ),
  )
  | inr there ↦ elim (find_from_lem s e (suc k)) [
    | inl (absent, f) ↦ inl (rw (str_eq_symm n e, there) absent, rw there f)
    | inr (i, (present, (f, (l, at_i)))) ↦ inr (
      suc i,
      (
        rw (str_eq_symm n e, there) present,
        (rw there (f ∙ ap pos (omega arith)), (omega arith, at_i)),
      ),
    )
  ]
]

get_elem?-set :
    (s : List String) (i n : ℕ) {v : String}
    → get_elem? s n ≡ some v
    → get_elem? (set s i v) n ≡ some v
get_elem?-set [] i n h = absurd (cc)
get_elem?-set (x ∷ s) zero zero h = refl
get_elem?-set (x ∷ s) zero (suc n) h = h
get_elem?-set (x ∷ s) (suc i) zero h = h
get_elem?-set (x ∷ s) (suc i) (suc n) h = get_elem?-set s i n h

count-remove :
    (d e : String) (s : List String) (i : ℕ)
    → i < length s
    → get_elem? s i ≡ some e
    → count d (Slices.remove s i) + one_if (str_eq e d) ≡ count d s
unfolding Slices.remove
count-remove d e s i l at_i =
    let n = length s - 1 in
    let (last, at_n) = get_elem?_in_range s n (omega arith) in
    let length_set : length (set s i last) ≡ suc n = length-set s i last ∙ omega arith in
    rw (at_n, Slices.remove)
      (omega (
        arith,
        count-set d last e s i at_i,
        count-take d last (set s i last) n length_set (get_elem?-set s i n at_n),
      ))

-- Removing a string takes off one occurrence of it, if there is any, and keeps how often every
-- other string stands in the slice.
pub count-remove_string :
    (d e : String) (s : List String)
    → count d (Slices.remove_string s e) + one_if (Slices.contains s e && str_eq e d) ≡ count d s
unfolding Slices.remove_string Slices.find Slices.remove_found
count-remove_string d e s = elim (find_from_lem s e 0) [
  | inl (absent, f) ↦
      simp (absent, f, Slices.remove_string, Slices.find, Slices.remove_found) (omega arith)
  | inr (i, (present, (f, (l, at_i)))) ↦
      let f' : Slices.find_from s e 0 ≡ pos i = f ∙ ap pos (omega arith) in
      simp (present, f', Slices.remove_string, Slices.find, Slices.remove_found)
        (count-remove d e s i l at_i)
]
