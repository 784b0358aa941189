-- ===== src/Operations/Counting.antt =====
-- How many operations are counted on an id (internal/services/opscoor/opscoor.go).
use go_blob_store.Prelude.{
  ℕ, suc, String, some, List, [], ◌∷◌, ◌++◌, ◌-◌, ◌+◌, ◌<◌, ◌≡◌, str_eq, length, set, if◌then◌else◌,
  refl, ap, ◌∙◌, Bool-cases, inl, inr, arith, str_eq→eq, length-append, length-take, length-set,
  get_elem?_in_range,
}
use go_blob_store.Operations
use go_blob_store.Operations.{DefaultOperation, Entities, OperationType, SingleNodeOpsCoor}

load-store :
    (es : Entities) (id j : String) (ops : List DefaultOperation)
    → Operations.load (Operations.store es id ops) j
      ≡ (if str_eq id j then ops else Operations.load es j)
unfolding Operations.load Operations.store
load-store [] id j ops = refl
load-store ((k, old) ∷ es) id j ops = elim (Bool-cases (str_eq k id)) [
  | inl here ↦
      let e = ap (λ i. str_eq i j) (str_eq→eq k id here) in
      elim (Bool-cases (str_eq id j)) [
        | inl same ↦ rw (here, same, e ∙ same) refl
        | inr other ↦ rw (here, other, e ∙ other) refl
      ]
  | inr there ↦ elim (Bool-cases (str_eq k j)) [
    | inr away ↦ rw (there, away) (load-store es id j ops)
    | inl at_k ↦ elim (Bool-cases (str_eq id j)) [
      | inr other ↦ rw (there, at_k, other) refl
      | inl same ↦ absurd (cc (there, str_eq→eq id j same))
    ]
  ]
]

-- A prepared operation adds one to the count of its id, and leaves every other count.
pub count-prepare_op :
    (s : SingleNodeOpsCoor) (opt : OperationType) (id j : String)
    → Operations.count (Operations.prepare_op s opt id).1 j
      ≡ Operations.count s j + (if str_eq id j then 1 else 0)
unfolding Operations.count Operations.prepare_op
count-prepare_op s opt id j =
    let ops = Operations.load s.entities id in
    let op : DefaultOperation = record {
      idx = suc s.idx;
      opt = opt;
      id = id;
      stage = Operations.Stage.prepare;
    } in
    ap length (load-store s.entities id j (ops ++ (op ∷ []))) ∙ (elim (Bool-cases (str_eq id j)) [
      | inl same ↦ rw same (
          length-append ops (op ∷ [])
          ∙ ap (λ i. length (Operations.load s.entities i) + 1) (str_eq→eq id j same))
      | inr other ↦ rw other (omega arith)
    ])

length-swap_remove :
    (ops : List DefaultOperation) (i : ℕ)
    → 0 < length ops
    → length (Operations.swap_remove ops i) + 1 ≡ length ops
unfolding Operations.swap_remove
length-swap_remove ops i h =
    let n = length ops - 1 in
    let (last, e) = get_elem?_in_range ops n (omega arith) in
    rw (e, Operations.swap_remove)
      (omega (arith, length-take n (set ops i last), length-set ops i last))

-- The number of an operation that is on the list is found.
abbrev pub IsOn : ℕ → List DefaultOperation → Type 0
IsOn n ops = (i : ℕ) × (Operations.index_of ops n 0 ≡ some i)

nonempty_of_IsOn : (n : ℕ) (ops : List DefaultOperation) → IsOn n ops → 0 < length ops
unfolding Operations.index_of
nonempty_of_IsOn n [] h = absurd (cc (h.1))
nonempty_of_IsOn n (o ∷ ops) h = omega arith

remove_found :
    (ops : List DefaultOperation) (n i : ℕ)
    → Operations.index_of ops n 0 ≡ some i
    → (Operations.remove ops n).0 ≡ Operations.swap_remove ops i
unfolding Operations.remove
remove_found ops n i found = rw (found, Operations.remove) refl

-- The end of an operation that is on the list of its id takes one off the count of this id, and
-- leaves every other count.
pub count-finish :
    (s : SingleNodeOpsCoor) (op : DefaultOperation) (j : String)
    → IsOn op.idx (Operations.load s.entities op.id)
    → Operations.count (Operations.finish s op).1 j + (if str_eq op.id j then 1 else 0)
      ≡ Operations.count s j
unfolding Operations.count Operations.finish
count-finish s op j (i, found) =
    let ops = Operations.load s.entities op.id in
    let shorter = length-swap_remove ops i (nonempty_of_IsOn op.idx ops (i, found)) in
    let after =
      ap (λ l. length (Operations.load (Operations.store s.entities op.id l) j))
        (remove_found ops op.idx i found)
      ∙ ap length (load-store s.entities op.id j (Operations.swap_remove ops i)) in
    ap (λ n. n + (if str_eq op.id j then 1 else 0)) after ∙ (elim (Bool-cases (str_eq op.id j)) [
      | inl same ↦
          rw same
            (shorter ∙ ap (λ k. length (Operations.load s.entities k)) (str_eq→eq op.id j same))
      | inr other ↦ rw other (omega arith)
    ])
