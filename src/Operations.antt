-- ===== src/Operations.antt =====
-- internal/services/opscoor/opscoor.go: the operations that run on each id. An operation is prepared,
-- and its goroutine starts it, calls back, takes it off the list of its id and finishes it. The map
-- of the lists is an association list without two entries of one id, and a step of the goroutine is
-- one of `begin` and `finish`; the callback is left out. The counter is a natural number, which
-- wraps in Go after 2^63 operations.
pub mod Counting
use go_blob_store.Prelude.{
  ℕ, suc, String, Bool, true, false, Option, none, some, List, [], ◌∷◌, ◌++◌, ◌-◌, ◌==◌, str_eq,
  length, get_elem?, set, take, if◌then◌else◌,
}

pub data OperationType : Type 0 where
  op_unknown op_backup op_tnt_bck op_restore op_cache : OperationType

pub data Stage : Type 0 where
  prepare running finished : Stage

pub record DefaultOperation : Type 0 where
  pub idx : ℕ
  pub opt : OperationType
  pub id : String
  pub stage : Stage

abbrev pub Entities : Type 0
Entities = List (String × List DefaultOperation)

pub record SingleNodeOpsCoor : Type 0 where
  pub idx : ℕ
  pub entities : Entities

-- `entities.Load(id)`, an empty list where the id is missing
unfoldable pub load : Entities → String → List DefaultOperation
load [] id = []
load ((k, ops) ∷ es) id = let rest = load es id in if str_eq k id then ops else rest

-- the list of an id in its place, or at the end
unfoldable pub store : Entities → String → List DefaultOperation → Entities
store [] id ops = (id, ops) ∷ []
store ((k, old) ∷ es) id ops =
    let rest = store es id ops in if str_eq k id then (k, ops) ∷ es else (k, old) ∷ rest

-- the first index whose operation has the number
unfoldable pub index_of : List DefaultOperation → ℕ → ℕ → Option ℕ
index_of [] n x = none
index_of (en ∷ ops) n x = let rest = index_of ops n (suc x) in if en.idx == n then some x else rest

-- `items[i] = items[len-1]`, then one shorter
unfoldable pub swap_remove : List DefaultOperation → ℕ → List DefaultOperation
swap_remove ops i = elim (get_elem? ops (length ops - 1)) [
  | none ↦ ops
  | some last ↦ take (length ops - 1) (set ops i last)
]

unfoldable pub remove : List DefaultOperation → ℕ → List DefaultOperation × Bool
remove ops n = elim (index_of ops n 0) [ none ↦ (ops, false) | some i ↦ (swap_remove ops i, true) ]

abbrev pub is_known : OperationType → Bool
is_known OperationType.op_unknown = false
is_known OperationType.op_backup = true
is_known OperationType.op_tnt_bck = true
is_known OperationType.op_restore = true
is_known OperationType.op_cache = true

-- The operation, whether its type is known, and the new state.
unfoldable pub prepare_op :
    SingleNodeOpsCoor → OperationType → String → (DefaultOperation × Bool) × SingleNodeOpsCoor
prepare_op s opt id =
    let op : DefaultOperation = record {
      idx = suc s.idx;
      opt = opt;
      id = id;
      stage = Stage.prepare;
    } in
    (
      (op, is_known opt),
      record s {
        idx = suc s.idx;
        entities = store s.entities id (load s.entities id ++ (op ∷ []));
      },
    )

-- the goroutine's first step, on its own copy of the operation
unfoldable pub begin : DefaultOperation → DefaultOperation
begin op = record op { stage = Stage.running }

-- and its last ones
unfoldable pub finish : SingleNodeOpsCoor → DefaultOperation → DefaultOperation × SingleNodeOpsCoor
finish s op = (
  record op { stage = Stage.finished },
  record s { entities = store s.entities op.id (remove (load s.entities op.id) op.idx).0 },
)

unfoldable pub count : SingleNodeOpsCoor → String → ℕ
count s id = length (load s.entities id)

abbrev pub started : DefaultOperation → Bool
started o = false

abbrev pub active : DefaultOperation → Bool
active o = false

abbrev pub is_finished : DefaultOperation → Bool
is_finished o = false
