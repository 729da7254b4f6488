-- ===== src/Reducer/Approvals.antt =====
-- runtime/state.js: the events of approvals and of memory candidates.
use fdos_genesis.Prelude.{String, none, some, if◌then◌else◌}
use fdos_genesis.Kernel.Result.{ok, err, integrity}
use fdos_genesis.Kernel.Exec.{Exec, pure, ◌>>=◌, ◌>>◌}
use fdos_genesis.Kernel.Validation.{Stamp}
use fdos_genesis.Kernel.JsMap
use fdos_genesis.Model.{
  State, RunStatus, Task, TaskStatus, WaitingReason, Approval, ApprovalStatus, Memory, MemoryStatus,
}
use fdos_genesis.Reducer.Store.{update_run, update_task, update_approval, update_memory}

unfoldable pub request_approval : Approval → Exec State (Unit {0})
request_approval approval s =
    if JsMap.has approval.id s.approvals
    then (err integrity, s)
    else hold (record s { approvals = JsMap.set approval.id approval s.approvals })
  where
    hold : Exec State (Unit {0})
    hold = do
      update_task approval.task_id (λ t. record t {
        status = TaskStatus.waiting_approval;
        waiting_reason = some WaitingReason.human_approval_required;
        updated_at = approval.requested_at;
      })
      pure tt

unfoldable pub grant_approval :
    (approval_id decided_by : String) → (decided_at expires_at : Stamp) → Exec State (Unit {0})
grant_approval approval_id decided_by decided_at expires_at = do
  approval ← update_approval approval_id (λ a. record a {
    status = ApprovalStatus.granted;
    decided_by = some decided_by;
    decided_at = some decided_at;
    expires_at = expires_at;
  })
  update_task approval.task_id
      (λ t. record t { status = TaskStatus.ready; waiting_reason = none; updated_at = decided_at })
  pure tt

unfoldable pub deny_approval :
    (approval_id decided_by : String) → Stamp → (reason : String) → Exec State (Unit {0})
deny_approval approval_id decided_by decided_at reason = do
  approval ← update_approval approval_id (λ a. record a {
    status = ApprovalStatus.denied;
    decided_by = some decided_by;
    decided_at = some decided_at;
    decision_reason = some reason;
  })
  task ← update_task approval.task_id (λ t. record t {
    status = TaskStatus.cancelled;
    waiting_reason = some WaitingReason.approval_denied;
    updated_at = decided_at;
  })
  update_run task.run_id (λ r. record r { status = RunStatus.cancelled; updated_at = decided_at })
  pure tt

abbrev pub release_waiting : Stamp → Task → TaskStatus → Task
release_waiting at t TaskStatus.waiting_approval = record t {
  status = TaskStatus.ready;
  waiting_reason = none;
  updated_at = at;
}
release_waiting at t _ = t

unfoldable pub expire_approval : (approval_id : String) → Stamp → Exec State (Unit {0})
expire_approval approval_id at = do
  approval ←
      update_approval approval_id
        (λ a. record a { status = ApprovalStatus.expired; expired_at = some at })
  update_task approval.task_id (λ t. release_waiting at t t.status)
  pure tt

unfoldable pub consume_approval : (approval_id : String) → Stamp → Exec State (Unit {0})
consume_approval approval_id at = do
  update_approval approval_id
      (λ a. record a { status = ApprovalStatus.consumed; consumed_at = some at })
  pure tt

unfoldable pub propose_memory : Memory → Exec State (Unit {0})
propose_memory m s =
    if JsMap.has m.id s.memory_candidates
    then (err integrity, s)
    else (ok tt, record s { memory_candidates = JsMap.set m.id m s.memory_candidates })

unfoldable pub review_memory :
    (candidate_id : String)
    → MemoryStatus
    → (reviewed_by : String) → Stamp
    → (reason : String) → Exec State (Unit {0})
review_memory candidate_id decision reviewed_by at reason = do
  update_memory candidate_id (λ m. record m {
    status = decision;
    reviewed_by = some reviewed_by;
    reviewed_at = some at;
    review_reason = some reason;
  })
  pure tt
