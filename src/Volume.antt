-- ===== src/Volume.antt =====
-- internal/services/volume/manager.go: the volumes below a root, and the choice of one by its free
-- space. The map of the volumes is an association list without two entries of one name; `Rescan`
-- gets what the directory and the disk say as an argument. An `int` that is never negative is a
-- natural number, and so is a product below 2^63. A division by zero is a panic, here none.
pub mod Selection
use mathlib.Core.Option
use go_blob_store.Prelude.{
  ℕ, String, Bool, true, false, Option, none, some, is_some, List, [], ◌∷◌, ◌++◌, ◌+◌, ◌*◌, ◌/◌,
  ◌%◌, ◌^◌, ltb, leb, ◌==◌, str_eq, str_leb, map, sum_by, if◌then◌else◌,
}
use go_blob_store.Model.{Error, Result, ok, err}
use go_blob_store.Search.{insert_before}

pub record Info : Type 0 where
  pub name : String
  pub free : ℕ
  pub used : ℕ
  pub total : ℕ
  pub path : String
  pub selector : ℕ
  pub freepm : ℕ

abbrev pub Volumes : Type 0
Volumes = List (String × Info)

unfoldable pub info : Volumes → String → Option Info
info [] name = none
info ((k, vi) ∷ vs) name = let rest = info vs name in if str_eq k name then some vi else rest

unfoldable pub has_volume : Volumes → String → Bool
has_volume vs name = is_some (info vs name)

-- `v.volumes[name] = vi`
pub put : Volumes → String → Info → Volumes
put [] name vi = (name, vi) ∷ []
put ((k, old) ∷ vs) name vi =
    let rest = put vs name vi in if str_eq k name then (k, vi) ∷ vs else (k, old) ∷ rest

-- the utilisation of each volume; the product wraps at 64 bits
unfoldable pub with_freepm : Volumes → Option Volumes
with_freepm [] = some []
with_freepm ((k, vi) ∷ vs) =
    let rest = with_freepm vs in
    if vi.total == 0
    then none
    else Option.map (◌∷◌ (k, record vi { freepm = vi.free * 1000 % 2 ^ 64 / vi.total })) rest

abbrev pub freepm_of : String × Info → ℕ
freepm_of v = v.1.freepm

abbrev pub with_selector : ℕ → String × Info → String × Info
with_selector gfreepm (k, vi) = (k, record vi { selector = vi.freepm * 1000 % 2 ^ 64 / gfreepm })

unfoldable pub with_selectors : Volumes → Volumes
with_selectors vs =
    let gfreepm = sum_by freepm_of vs in
    if ltb 0 gfreepm then map (with_selector gfreepm) vs else vs

-- none: a volume without any space
unfoldable pub calculate_per_mill : Volumes → Option Volumes
calculate_per_mill vs = Option.map with_selectors (with_freepm vs)

-- What `volInfo` does with the volumes and returns, for a directory: it may have set the information
-- before it fails.
abbrev pub Scanned : Type 0
Scanned = String × (Option Info × Option Error)

abbrev pub set_info : Volumes → String → Option Info → Volumes
set_info vs name none = vs
set_info vs name (some vi) = put vs name vi

-- the callback's argument for a volume that was not there
abbrev pub new_volume : Bool → Option Info → List String
new_volume true vi = []
new_volume false none = []
new_volume false (some vi) = vi.name ∷ []

-- the loop of `Rescan` over the directories, with the names that the callbacks got
scan : Volumes → List String → List Scanned → (Result (Unit {0}) × List String) × Volumes
scan vs called [] = ((ok tt, called), vs)
scan vs called ((name, (vi, some e)) ∷ es) = ((err e, called), set_info vs name vi)
scan vs called ((name, (vi, none)) ∷ es) =
    scan (set_info vs name vi) (called ++ new_volume (has_volume vs name) vi) es

calculated :
    (Result (Unit {0}) × List String) × Volumes
    → Option ((Result (Unit {0}) × List String) × Volumes)
calculated ((err e, called), vs) = some ((err e, called), vs)
calculated ((ok _, called), vs) = Option.map (λ vs'. ((ok tt, called), vs')) (calculate_per_mill vs)

-- `dir` is what the directory has, or the error of reading it
unfoldable pub rescan :
    Volumes → Result (List Scanned) → Option ((Result (Unit {0}) × List String) × Volumes)
unfolding scan calculated
rescan vs (err e) = some ((err e, []), vs)
rescan vs (ok es) = calculated (scan vs [] es)

-- Go's `sort.Strings`
abbrev pub sort_strings : List String → List String
sort_strings [] = []
sort_strings (k ∷ ks) = insert_before (λ y. str_leb k y) k (sort_strings ks)

unfoldable pub selector_of : Volumes → String → ℕ
selector_of vs k = elim (info vs k) [ none ↦ 0 | some vi ↦ vi.selector ]

-- the loop of `SelectFree`: the key of the volume that it stops at
unfoldable pub select_key : Volumes → ℕ → ℕ → List String → Option String
select_key vs i sel [] = none
select_key vs i sel (k ∷ ks) =
    let next = sel + selector_of vs k in
    let rest = select_key vs i next ks in if leb i next then some k else rest

-- the volume's own name, which its file may have set
name_of : Volumes → Option String → String
name_of vs none = ""
name_of vs (some k) = elim (info vs k) [ none ↦ "" | some vi ↦ vi.name ]

abbrev pub keys : Volumes → List String
keys vs = sort_strings (map (λ v. v.0) vs)

unfoldable pub select_free : Volumes → ℕ → String
unfolding name_of
select_free vs i = name_of vs (select_key vs i 0 (keys vs))
