-- ===== src/Runtime/Gateway.antt =====
-- runtime/authenticated-gateway.js: the commands that a caller may send, and what each runs for the
-- actor of its accepted invocation. The commands that only read, start a workflow or export evidence
-- are not among them.
use fdos_genesis.Prelude.{ℕ, Bool, String, Option, List}
use fdos_genesis.Kernel.Exec.{Exec, pure, reading, ◌>>=◌}
use fdos_genesis.Kernel.Json.{Json, Fields}
use fdos_genesis.Kernel.EventLog.{Actor}
use fdos_genesis.Domain.Catalog.{Sensitivity}
use fdos_genesis.Model.{
  Task, Approval, Memory, Delivery, DeliveryStatus, OutcomeType, Evidence, WorkerReceipt, Decision,
}
use fdos_genesis.Runtime.{Environment, Live, Command}
use fdos_genesis.Runtime.Tasks.{claim_task, fail_task, retry_task, cancel_task}
use fdos_genesis.Runtime.Completion.{complete_task}
use fdos_genesis.Runtime.Handoffs.{Handoff, handoff_task}
use fdos_genesis.Runtime.Approvals.{
  request_approval, decide_approval, ApprovalDecision, list_approvals,
}
use fdos_genesis.Runtime.Memories.{
  propose_memory, review_memory, ReviewDecision, read_memory, list_memory_candidates,
}
use fdos_genesis.Runtime.Outbox.{prepare_delivery, claim_delivery}
use fdos_genesis.Runtime.Reports.{
  record_delivery_outcome, record_verified_worker_outcome, reconcile_expired_delivery,
}
use fdos_genesis.Runtime.Review.{
  retry_delivery, cancel_delivery, resolve_uncertain_delivery, get_delivery, list_outbox,
}
use fdos_genesis.Runtime.Authenticated.{execute_authenticated_command}

pub data Request : Type 0 where
  task_claim : (task_id : String) → Request
  task_complete : (task_id : String) (result : Fields) → Request
  task_fail : (task_id reason : String) (retryable : Bool) → Request
  task_retry : (task_id : String) → Request
  task_cancel : (task_id reason : String) → Request
  task_handoff : (task_id : String) (handoff : Handoff) → Request
  approval_request : (task_id reason : String) (ttl_minutes : ℕ) → Request
  approval_decide : (approval_id : String) (decision : ApprovalDecision) (reason : String) → Request
  approval_list : (task_id : Option String) → Request
  memory_propose :
      (scope title content : String) (sensitivity : Sensitivity) (source_references : List String)
      (source_evidence : List Json)
      → Request
  memory_review : (candidate_id : String) (decision : ReviewDecision) (reason : String) → Request
  memory_read : (scope : String) → Request
  memory_list_candidates : Request
  outbox_prepare :
      (task_id connector_id operation_id : String) (parameters : Fields) (idempotency_key : String)
      → Request
  outbox_get : (delivery_id : String) → Request
  outbox_list : (status : Option DeliveryStatus) → Request
  outbox_claim : (delivery_id : String) (lease_seconds : ℕ) → Request
  outbox_record_outcome :
      (delivery_id claim_id : String) (outcome : OutcomeType) (evidence : Evidence)
      (worker_receipt : Option WorkerReceipt)
      → Request
  outbox_record_worker_outcome :
      (delivery_id claim_id : String) (outcome : OutcomeType) (evidence : Evidence)
      (worker_receipt : Option WorkerReceipt)
      → Request
  outbox_reconcile_expired : (delivery_id : String) → Request
  outbox_retry : (delivery_id reason : String) → Request
  outbox_cancel : (delivery_id reason : String) → Request
  outbox_resolve_uncertain :
      (delivery_id : String) (decision : Decision) (reason evidence_digest : String)
      (result_digest : Option String) (retryable : Option Bool)
      → Request

pub data Reply : Type 0 where
  one_task : Task → Reply
  one_approval : Approval → Reply
  approvals : List Approval → Reply
  one_memory : Memory → Reply
  memories : List Memory → Reply
  one_delivery : Delivery → Reply
  prepared_delivery : Bool × Delivery → Reply
  deliveries : List Delivery → Reply

abbrev pub reply : {S A : Type 0} → (A → Reply) → Exec S A → Exec S Reply
reply f m = m >>= λ a. pure (f a)

module _ (env : Environment) where
  unfoldable pub dispatch : Request → Actor → Exec (Live env) Reply
  dispatch (task_claim id) actor = reply one_task (claim_task env id actor)
  dispatch (task_complete id result) actor = reply one_task (complete_task env id actor result)
  dispatch (task_fail id reason retryable) actor =
      reply one_task (fail_task env id actor reason retryable)
  dispatch (task_retry id) actor = reply one_task (retry_task env id actor)
  dispatch (task_cancel id reason) actor = reply one_task (cancel_task env id actor reason)
  dispatch (task_handoff id handoff) actor = reply one_task (handoff_task env id actor handoff)
  dispatch (approval_request id reason ttl) actor =
      reply one_approval (request_approval env id actor reason ttl)
  dispatch (approval_decide id decision reason) actor =
      reply one_approval (decide_approval env id actor decision reason)
  dispatch (approval_list id) actor = reply approvals (reading (list_approvals env actor id))
  dispatch (memory_propose scope title content sensitivity references evidence) actor =
      reply one_memory
        (propose_memory env actor scope title content sensitivity references evidence)
  dispatch (memory_review id decision reason) actor =
      reply one_memory (review_memory env id actor decision reason)
  dispatch (memory_read scope) actor = reply memories (reading (read_memory env actor scope))
  dispatch memory_list_candidates actor =
      reply memories (reading (list_memory_candidates env actor))
  dispatch (outbox_prepare task_id connector_id operation_id parameters key) actor =
      reply prepared_delivery
        (prepare_delivery env actor task_id connector_id operation_id parameters key)
  dispatch (outbox_get id) actor = reply one_delivery (reading (get_delivery env id actor))
  dispatch (outbox_list status) actor = reply deliveries (reading (list_outbox env actor status))
  dispatch (outbox_claim id lease) actor = reply one_delivery (claim_delivery env actor id lease)
  dispatch (outbox_record_outcome id claim_id outcome evidence receipt) actor =
      reply one_delivery (record_delivery_outcome env actor id claim_id outcome evidence receipt)
  dispatch (outbox_record_worker_outcome id claim_id outcome evidence receipt) actor =
      reply one_delivery
        (record_verified_worker_outcome env actor id claim_id outcome evidence receipt)
  dispatch (outbox_reconcile_expired id) actor =
      reply one_delivery (reconcile_expired_delivery env actor id)
  dispatch (outbox_retry id reason) actor = reply one_delivery (retry_delivery env actor id reason)
  dispatch (outbox_cancel id reason) actor =
      reply one_delivery (cancel_delivery env actor id reason)
  dispatch (outbox_resolve_uncertain id decision reason evidence result retryable) actor =
      reply one_delivery
        (resolve_uncertain_delivery env actor id decision reason evidence result retryable)

  -- `execute`: the command of a request, run under its invocation.
  unfoldable pub execute : Json → Command → Request → Exec (Live env) Reply
  execute invocation command request =
      execute_authenticated_command env invocation command (dispatch request)
