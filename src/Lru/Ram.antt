-- ===== src/Lru/Ram.antt =====
-- The loop of `HandleContrains` that takes data out of memory: it ends, and it keeps the entries.
use go_blob_store.Prelude.{
  str_eq, subst, ℕ, zero, suc, ◌+◌, ◌≤◌, ◌<◌, ◌≡◌, refl, ap, ◌∙◌, pos, String, true, false, Option,
  none, some, is_some, List, [], ◌∷◌, arith, All, inl, inr, ◌⊎◌, Bool-cases, length, get_elem?, set,
  sum_by, ltb, ltb_ℤ, if◌then◌else◌, ◌-ℤ◌,
}
use go_blob_store.Lru.{
  LruEntry, LruList, key, data_size, get_oldest, get_oldest_with_data, drop_data, shrink_ram,
  surplus, handle_constrains,
}
use go_blob_store.Lru.Order.{Below, IsSorted, lookup}
use go_blob_store.Lru.Invariant.{IsValid, -ℤ_pos}
use go_blob_store.Lru.Oldest.{
  IsOldest, IsOldestWithData, get_oldest_correct, get_oldest_with_data_correct,
}

-- the entry without its data in memory
abbrev pub forget : LruEntry → LruEntry
forget e = record e { data_in_ram = none }

-- the second list is the first one with the data of some entries forgotten
abbrev pub Forgets : List LruEntry → List LruEntry → Type 0
Forgets [] [] = Unit
Forgets [] (y ∷ ys) = ⊥
Forgets (x ∷ xs) [] = ⊥
Forgets (x ∷ xs) (y ∷ ys) = ((y ≡ x) ⊎ (y ≡ forget x)) × Forgets xs ys

Forgets-refl : (xs : List LruEntry) → Forgets xs xs
Forgets-refl [] = tt
Forgets-refl (x ∷ xs) = (inl refl, Forgets-refl xs)

pub forget_twice :
    (x y z : LruEntry)
    → (y ≡ x) ⊎ (y ≡ forget x)
    → (z ≡ y) ⊎ (z ≡ forget y)
    → (z ≡ x) ⊎ (z ≡ forget x)
forget_twice x y z (inl p) (inl q) = inl (q ∙ p)
forget_twice x y z (inl p) (inr q) = inr (q ∙ ap forget p)
forget_twice x y z (inr p) (inl q) = inr (q ∙ p)
forget_twice x y z (inr p) (inr q) = inr (q ∙ ap forget p)

Forgets-trans : (xs ys zs : List LruEntry) → Forgets xs ys → Forgets ys zs → Forgets xs zs
Forgets-trans [] [] zs f g = g
Forgets-trans [] (y ∷ ys) zs f g = absurd f
Forgets-trans (x ∷ xs) [] zs f g = absurd f
Forgets-trans (x ∷ xs) (y ∷ ys) [] f g = absurd g
Forgets-trans (x ∷ xs) (y ∷ ys) (z ∷ zs) f g =
    (forget_twice x y z f.0 g.0, Forgets-trans xs ys zs f.1 g.1)

Forgets-set :
    (xs : List LruEntry) (i : ℕ) {e : LruEntry}
    → get_elem? xs i ≡ some e
    → Forgets xs (set xs i (forget e))
Forgets-set [] i h = tt
Forgets-set (x ∷ xs) zero h = (inr (ground arith), Forgets-refl xs)
Forgets-set (x ∷ xs) (suc i) h = (inl refl, Forgets-set xs i h)

pub key-Forgets : (x y : LruEntry) → (y ≡ x) ⊎ (y ≡ forget x) → key y ≡ key x
key-Forgets x y (inl p) = ap key p
key-Forgets x y (inr p) = ap key p

All-Below-Forgets :
    (k : String) (xs ys : List LruEntry) → Forgets xs ys → All (Below k) xs → All (Below k) ys
All-Below-Forgets k [] [] f h = tt
All-Below-Forgets k [] (y ∷ ys) f h = absurd f
All-Below-Forgets k (x ∷ xs) [] f h = tt
All-Below-Forgets k (x ∷ xs) (y ∷ ys) f h =
    (rw (key-Forgets x y f.0) h.0, All-Below-Forgets k xs ys f.1 h.1)

pub Forgets-IsSorted : (xs ys : List LruEntry) → Forgets xs ys → IsSorted xs → IsSorted ys
Forgets-IsSorted [] [] f s = tt
Forgets-IsSorted [] (y ∷ ys) f s = absurd f
Forgets-IsSorted (x ∷ xs) [] f s = tt
Forgets-IsSorted (x ∷ xs) (y ∷ ys) f s = (
  rw (key-Forgets x y f.0) (All-Below-Forgets (key x) xs ys f.1 s.0),
  Forgets-IsSorted xs ys f.1 s.1,
)

pub length-Forgets : (xs ys : List LruEntry) → Forgets xs ys → length ys ≡ length xs
length-Forgets [] [] f = refl
length-Forgets [] (y ∷ ys) f = absurd f
length-Forgets (x ∷ xs) [] f = absurd f
length-Forgets (x ∷ xs) (y ∷ ys) f = ap suc (length-Forgets xs ys f.1)

pub lookup-Forgets :
    (id : String) (xs ys : List LruEntry) {y : LruEntry}
    → Forgets xs ys
    → lookup id ys ≡ some y
    → (x : LruEntry) × (lookup id xs ≡ some x) × ((y ≡ x) ⊎ (y ≡ forget x))
unfolding lookup
lookup-Forgets id [] [] f found = absurd (cc)
lookup-Forgets id [] (y ∷ ys) f found = absurd f
lookup-Forgets id (x ∷ xs) [] f found = absurd f
lookup-Forgets id (x ∷ xs) (y ∷ ys) f found = elim (Bool-cases (str_eq (key y) id)) [
  | inl same ↦ (
    x,
    rw (rw (key-Forgets x y f.0) at same),
    subst (λ z. (z ≡ x) ⊎ (z ≡ forget x)) (ground arith) f.0,
  )
  | inr other ↦
      rw (rw (key-Forgets x y f.0) at other) (lookup-Forgets id xs ys f.1 (rw other at found))
]

-- how many entries have data in memory
abbrev in_ram : List LruEntry → ℕ
in_ram = sum_by (λ e. if is_some e.data_in_ram then 1 else 0)

sum_by-set :
    (f : LruEntry → ℕ) (xs : List LruEntry) (i : ℕ) (v : LruEntry) {e : LruEntry}
    → get_elem? xs i ≡ some e
    → sum_by f (set xs i v) + f e ≡ sum_by f xs + f v
sum_by-set f [] i v h = absurd (cc)
sum_by-set f (x ∷ xs) zero v h = ground arith
sum_by-set f (x ∷ xs) (suc i) v h = omega (arith, sum_by-set f xs i v h)

in_ram-le : (xs : List LruEntry) → in_ram xs ≤ length xs
in_ram-le [] = omega arith
in_ram-le (x ∷ xs) = ground (arith, in_ram-le xs)

no_data :
    (xs : List LruEntry) → All (λ (y : LruEntry). y.data_in_ram ≡ none) xs → sum_by data_size xs ≡ 0
no_data [] h = refl
no_data (x ∷ xs) h = ground (arith, no_data xs h.1, h.0)

drop_data_entries :
    (l : LruList) (i : ℕ) {e : LruEntry}
    → get_elem? l.entries i ≡ some e
    → drop_data l i ≡ record l {
      entries = set l.entries i (forget e);
      ram_size = l.ram_size -ℤ pos (data_size e);
    }
unfolding drop_data
drop_data_entries l i h = rw (h, drop_data)

-- one round: the list stays valid, and one entry less has data
drop_data_step :
    (l : LruList) (i : ℕ) (e : LruEntry)
    → IsValid l
    → get_elem? l.entries i ≡ some e
    → is_some e.data_in_ram ≡ true
    → IsValid (drop_data l i)
      × Forgets l.entries (drop_data l i).entries
      × (in_ram (drop_data l i).entries + 1 ≡ in_ram l.entries)
drop_data_step l i e v h full = rw (drop_data_entries l i h) (
  record {
    sorted = Forgets-IsSorted l.entries _ (Forgets-set l.entries i h) v.sorted;
    counted = rw v.counted (ap (λ n. pos n -ℤ pos (data_size e)) split ∙ -ℤ_pos (data_size e) _);
  },
  Forgets-set l.entries i h,
  ground (
    arith,
    sum_by-set (λ x. if is_some x.data_in_ram then 1 else 0) l.entries i (forget e) {e = e} h,
  ),
)
  where
    split : sum_by data_size l.entries ≡ data_size e + sum_by data_size (set l.entries i (forget e))
    split = omega (arith, sum_by-set data_size l.entries i (forget e) {e = e} h)

-- the two bounds are left alone
abbrev pub SameBounds : LruList → LruList → Type 0
SameBounds l l' = (l'.max_count ≡ l.max_count) × (l'.max_ram_size ≡ l.max_ram_size)

-- the loop ends, in a valid list that fits
abbrev Shrinks : ℕ → LruList → Type 0
Shrinks fuel l =
    (l' : LruList) × (shrink_ram fuel l ≡ some l')
    × IsValid l'
    × Forgets l.entries l'.entries
    × (ltb_ℤ l.max_ram_size l'.ram_size ≡ false)
    × SameBounds l l'

shrink_ram_round :
    (fuel : ℕ) (l : LruList) (i : ℕ)
    → ltb_ℤ l.max_ram_size l.ram_size ≡ true
    → get_oldest_with_data l ≡ some i
    → Forgets l.entries (drop_data l i).entries
    → SameBounds l (drop_data l i)
    → Shrinks fuel (drop_data l i)
    → Shrinks (suc fuel) l
unfolding shrink_ram
shrink_ram_round fuel l i large e f same (l', done, v, f', small, same') =
    rw (large, e)
      (
        l',
        done,
        v,
        Forgets-trans l.entries _ l'.entries f f',
        rw same.1 at small,
        (same'.0 ∙ same.0, same'.1 ∙ same.1),
      )

shrink_ram-total :
    (fuel : ℕ) (l : LruList)
    → IsValid l
    → ltb_ℤ (pos 0) l.max_ram_size ≡ true
    → in_ram l.entries < fuel
    → Shrinks fuel l
unfolding shrink_ram
shrink_ram-total zero l v m h = absurd (omega arith)
shrink_ram-total (suc fuel) l v m h = elim (Bool-cases (ltb_ℤ l.max_ram_size l.ram_size)) [
  | inr small ↦ rw small (l, refl, v, Forgets-refl l.entries, small, (refl, refl))
  | inl large ↦
      go large (shrink_ram-total fuel) (get_oldest_with_data l) refl
        (get_oldest_with_data_correct l)
]
  where
    go :
        ltb_ℤ l.max_ram_size l.ram_size ≡ true
        → ((k : LruList)
            → IsValid k
            → ltb_ℤ (pos 0) k.max_ram_size ≡ true
            → in_ram k.entries < fuel
            → Shrinks fuel k)
        → (o : Option ℕ) → get_oldest_with_data l ≡ o
        → IsOldestWithData l.entries l.entries o
        → Shrinks (suc fuel) l
    go large ih none e empty = absurd (ground (arith, no_data l.entries empty, v.counted))
    go large ih (some i) e (o, here, full, _) =
        let (v', f, fewer) = drop_data_step l i o v here full in
        let eq = drop_data_entries l i here in
        let ram = ap (λ (k : LruList). k.max_ram_size) eq in
        let same : SameBounds l (drop_data l i) = (ap (λ (k : LruList). k.max_count) eq, ram) in
        shrink_ram_round fuel l i large e f same (ih (drop_data l i) v' (rw ram m) (omega arith))

-- what `handle_constrains` reports: the empty text, or the id of a least recently accessed entry
abbrev pub IsSurplus : LruList → String → Type 0
IsSurplus l id =
    (length l.entries ≤ l.max_count → id ≡ "")
    × (l.max_count < length l.entries
        → (e : LruEntry) × (id ≡ key e)
          × (get_elem? l.entries (get_oldest l) ≡ some e)
          × IsOldest e l.entries)

surplus_full :
    (l : LruList) {e : LruEntry}
    → ltb l.max_count (length l.entries) ≡ true
    → get_elem? l.entries (get_oldest l) ≡ some e
    → surplus l ≡ key e
unfolding surplus
surplus_full l more found = rw (more, found)

surplus_lem : (l : LruList) → IsSurplus l (surplus l)
unfolding surplus
surplus_lem l = elim (Bool-cases (ltb l.max_count (length l.entries))) [
  | inr fits ↦ rw fits (λ _. refl, λ more. absurd (ground arith))
  | inl more ↦
      let (r, found, oldest) = get_oldest_correct l (ground arith) in
      (λ fits. absurd (ground arith), λ _. (r, surplus_full l more found, found, oldest))
]

-- On a valid list `handle_constrains` ends. It keeps the list valid and all its entries, of which
-- some lose their data in memory; with a positive bound on the memory the data that is left fits
-- into it, and the bounds stay. It reports an id just if there are more entries than allowed, that of a least recently
-- accessed entry.
pub handle_constrains_correct :
    (l : LruList)
    → IsValid l
    → (l' : LruList) × (id : String) × (handle_constrains l ≡ some (l', id))
      × IsValid l'
      × Forgets l.entries l'.entries
      × (ltb_ℤ (pos 0) l.max_ram_size ≡ true → ltb_ℤ l.max_ram_size l'.ram_size ≡ false)
      × IsSurplus l id
      × SameBounds l l'
unfolding handle_constrains
handle_constrains_correct l v = elim (Bool-cases (ltb_ℤ (pos 0) l.max_ram_size)) [
  | inr unbounded ↦
      rw unbounded (
        l,
        surplus l,
        refl,
        v,
        Forgets-refl l.entries,
        λ b. absurd (cc),
        surplus_lem l,
        (refl, refl),
      )
  | inl bounded ↦
      let (l', done, v', f, small, same) =
        shrink_ram-total (suc (length l.entries)) l v bounded
          (omega (arith, in_ram-le l.entries)) in
      rw (bounded, done) (l', surplus l, refl, v', f, λ _. small, surplus_lem l, same)
]
