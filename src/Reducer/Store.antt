-- ===== src/Reducer/Store.antt =====
-- runtime/state.js: `requireRun`, `requireTask`, `requireApproval`, `requireMemoryCandidate` and
-- `requireDelivery`, each with the change that the reducer then makes of the object in place.
use fdos_genesis.Prelude.{String, Option, none, some}
use fdos_genesis.Kernel.Result.{Result, ok, err, integrity, or_throw}
use fdos_genesis.Kernel.Exec.{Exec, reading}
use fdos_genesis.Kernel.JsMap
use fdos_genesis.Model.{State, Run, Task, Approval, Memory, Delivery}

unfoldable pub require_run : String → Exec State Run
require_run id = reading (λ s. or_throw (JsMap.get id s.runs) integrity)

unfoldable pub require_task : String → Exec State Task
require_task id = reading (λ s. or_throw (JsMap.get id s.tasks) integrity)

-- The entry must be there; it becomes `f` of it, and the new entry is returned.
unfoldable pub update_run : String → (Run → Run) → Exec State Run
update_run id f s = elim (JsMap.get id s.runs) [
  | none ↦ (err integrity, s)
  | some r ↦ (ok (f r), record s { runs = JsMap.set id (f r) s.runs })
]

unfoldable pub update_task : String → (Task → Task) → Exec State Task
update_task id f s = elim (JsMap.get id s.tasks) [
  | none ↦ (err integrity, s)
  | some t ↦ (ok (f t), record s { tasks = JsMap.set id (f t) s.tasks })
]

unfoldable pub update_approval : String → (Approval → Approval) → Exec State Approval
update_approval id f s = elim (JsMap.get id s.approvals) [
  | none ↦ (err integrity, s)
  | some a ↦ (ok (f a), record s { approvals = JsMap.set id (f a) s.approvals })
]

unfoldable pub update_memory : String → (Memory → Memory) → Exec State Memory
update_memory id f s = elim (JsMap.get id s.memory_candidates) [
  | none ↦ (err integrity, s)
  | some m ↦ (ok (f m), record s { memory_candidates = JsMap.set id (f m) s.memory_candidates })
]

-- A delivery is written only if all checks pass.
abbrev pub write_delivery : String → State → Result Delivery → Result (Unit {0}) × State
write_delivery id s (ok d) = (ok tt, record s { outbox = JsMap.set id d s.outbox })
write_delivery id s (err e) = (err e, s)

abbrev pub at_delivery :
    String → (Delivery → Result Delivery) → State → Option Delivery → Result (Unit {0}) × State
at_delivery id f s none = (err integrity, s)
at_delivery id f s (some d) = write_delivery id s (f d)

unfoldable pub update_delivery : String → (Delivery → Result Delivery) → Exec State (Unit {0})
update_delivery id f s = at_delivery id f s (JsMap.get id s.outbox)
