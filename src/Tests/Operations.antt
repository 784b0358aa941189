-- ===== src/Tests/Operations.antt =====
-- The coordinator of operations (internal/services/opscoor/opscoor.go).
use go_blob_store.Prelude.{◌≡◌, refl, ◌+◌, [], ◌∷◌}
use go_blob_store.Operations
use go_blob_store.Operations.{DefaultOperation, SingleNodeOpsCoor, OperationType}
use go_blob_store.Operations.Counting.{count-prepare_op, count-finish}

abbrev first : DefaultOperation
first = record {
  idx = 1;
  opt = OperationType.op_backup;
  id = "aa01";
  stage = Operations.Stage.running;
}

abbrev busy : SingleNodeOpsCoor
busy = record { idx = 1; entities = ("aa01", first ∷ []) ∷ [] }

count-prepare_op_example :
    Operations.count (Operations.prepare_op busy OperationType.op_cache "aa01").1 "aa01"
    ≡ Operations.count busy "aa01" + 1
count-prepare_op_example = count-prepare_op busy OperationType.op_cache "aa01" "aa01"

count-finish_example :
    Operations.count (Operations.finish busy first).1 "aa01" + 1 ≡ Operations.count busy "aa01"
unfolding Operations.index_of Operations.load
count-finish_example = count-finish busy first "aa01" (0, refl)
