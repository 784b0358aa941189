-- ===== src/Lru/Order.antt =====
-- Entries in strictly ascending order of their ids: the searches of the list against a plain scan.
use go_blob_store.Prelude.{
  ◌≡◌, refl, ap, String, Bool, true, false, Option, none, some, List, [], ◌∷◌, arith, All, All-map,
  str_eq, str_leb, str_eq_refl, str_eq→eq, str_leb_refl, str_leb_total, str_leb_trans,
  str_leb_antisymm, inl, inr, Bool-cases, if◌then◌else◌,
}
use go_blob_store.Search.{lower_bound, insert_before}
use go_blob_store.Search.Splits.{Ascending, sort_search-lower_bound}
use go_blob_store.Search.Slices.{insert_slice-lower_bound}
use go_blob_store.Lru.{LruEntry, key, search_id, entry_at, insert_sorted}

-- `x` is smaller than `y`
abbrev pub Below : String → LruEntry → Type 0
Below id e = str_leb (key e) id ≡ false

abbrev pub IsSorted : List LruEntry → Type 0
IsSorted [] = Unit
IsSorted (e ∷ es) = All (Below (key e)) es × IsSorted es

-- the first entry with the id, by a scan of the whole list
unfoldable pub lookup : String → List LruEntry → Option LruEntry
lookup id [] = none
lookup id (e ∷ es) = if str_eq (key e) id then some e else lookup id es

abbrev pub at_least : String → LruEntry → Bool
at_least id e = str_leb id (key e)

at_least_of_Below :
    (id : String) (x y : LruEntry) → at_least id x ≡ true → Below (key x) y → at_least id y ≡ true
at_least_of_Below id x y h b = str_leb_trans id (key x) (key y) h (str_leb_total (key y) (key x) b)

IsSorted-Ascending : (id : String) (es : List LruEntry) → IsSorted es → Ascending (at_least id) es
IsSorted-Ascending id [] h = tt
IsSorted-Ascending id (e ∷ es) h =
    (λ p. All-map es (λ y. at_least_of_Below id e y p) h.0, IsSorted-Ascending id es h.1)

pub search_id-lower_bound :
    (id : String) (es : List LruEntry)
    → IsSorted es
    → search_id es id ≡ lower_bound (at_least id) es
unfolding search_id
search_id-lower_bound id es h =
    sort_search-lower_bound (at_least id) es (IsSorted-Ascending id es h)

pub lookup_of_Below : (id : String) (es : List LruEntry) → All (Below id) es → lookup id es ≡ none
unfolding lookup
lookup_of_Below id [] h = refl
lookup_of_Below id (e ∷ es) h =
    ground (arith, lookup_of_Below id es h.1, str_eq→eq (key e) id, str_leb_refl id, h.0)

pub Below-trans :
    (id : String) (x y : LruEntry) → str_leb (key x) id ≡ false → Below (key x) y → Below id y
Below-trans id x y h b = elim (Bool-cases (str_leb (key y) id)) [
  | inr done ↦ done
  | inl le ↦ absurd (cc (str_leb_trans (key x) (key y) id (str_leb_total (key y) (key x) b) le))
]

pub str_eq_of_not-at_least :
    (id : String) (e : LruEntry) → at_least id e ≡ false → str_eq (key e) id ≡ false
str_eq_of_not-at_least id e later = ground (arith, str_eq→eq (key e) id, str_leb_refl id)

-- an entry that is not smaller than the id and has another id is greater
pub Below_of_ne :
    (id : String) (e : LruEntry)
    → at_least id e ≡ true
    → str_eq (key e) id ≡ false
    → str_leb (key e) id ≡ false
Below_of_ne id e here other = elim (Bool-cases (str_leb (key e) id)) [
  | inr done ↦ done
  | inl le ↦
      absurd
        (cc (str_eq_refl (key e), ap (str_eq (key e)) (str_leb_antisymm (key e) id le here), other))
]

entry_at-lower_bound :
    (id : String) (es : List LruEntry)
    → IsSorted es
    → entry_at es (lower_bound (at_least id) es) id ≡ lookup id es
unfolding entry_at lookup
entry_at-lower_bound id [] h = refl
entry_at-lower_bound id (e ∷ es) h = elim (Bool-cases (at_least id e)) [
  | inr later ↦ rw (later, str_eq_of_not-at_least id e later) (entry_at-lower_bound id es h.1)
  | inl here ↦ rw here (elim (Bool-cases (str_eq (key e) id)) [
    | inl same ↦ rw same
    | inr other ↦ rw (
      other,
      lookup_of_Below id es
          (All-map es (λ y. Below-trans id e y (Below_of_ne id e here other)) h.0),
    )
  ])
]

-- What the binary search finds, a scan of the list finds.
pub entry_at-search_id :
    (id : String) (es : List LruEntry)
    → IsSorted es
    → entry_at es (search_id es id) id ≡ lookup id es
entry_at-search_id id es h = rw (search_id-lower_bound id es h) (entry_at-lower_bound id es h)

pub insert_sorted-insert_before :
    (es : List LruEntry) (v : LruEntry)
    → IsSorted es
    → insert_sorted es v ≡ insert_before (at_least (key v)) v es
unfolding insert_sorted
insert_sorted-insert_before es v h =
    rw (search_id-lower_bound (key v) es h) (insert_slice-lower_bound (at_least (key v)) es v)
