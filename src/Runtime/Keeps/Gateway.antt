-- ===== src/Runtime/Keeps/Gateway.antt =====
-- Every request, and the whole of its execution, keeps what the appending of events keeps.
use fdos_genesis.Kernel.Exec.Holds.{Holds}
use fdos_genesis.Kernel.EventLog.{Actor}
use fdos_genesis.Runtime.{Environment, Live}
use fdos_genesis.Runtime.Keeps.{Kept, command_rules}
use fdos_genesis.Runtime.Keeps.Tasks.{
  claim_task-Holds, fail_task-Holds, retry_task-Holds, cancel_task-Holds, complete_task-Holds,
  handoff_task-Holds,
}
use fdos_genesis.Runtime.Keeps.Outbox.{
  prepare_delivery-Holds, claim_delivery-Holds, record_delivery_outcome-Holds,
  record_verified_worker_outcome-Holds, reconcile_expired_delivery-Holds, retry_delivery-Holds,
  cancel_delivery-Holds, resolve_uncertain_delivery-Holds,
}
use fdos_genesis.Runtime.Keeps.Others.{
  request_approval-Holds, decide_approval-Holds, propose_memory-Holds, review_memory-Holds,
}
use fdos_genesis.Runtime.Gateway.{
  Request, task_claim, task_complete, task_fail, task_retry, task_cancel, task_handoff,
  approval_request, approval_decide, approval_list, memory_propose, memory_review, memory_read,
  memory_list_candidates, outbox_prepare, outbox_get, outbox_list, outbox_claim,
  outbox_record_outcome, outbox_record_worker_outcome, outbox_reconcile_expired, outbox_retry,
  outbox_cancel, outbox_resolve_uncertain, dispatch,
}

module _ (env : Environment) {P E : Live env → Type 0} (k : Kept env P E) where
  pub dispatch-Holds : (request : Request) (actor : Actor) → Holds P E (dispatch env request actor)
  unfolding dispatch
  dispatch-Holds (task_claim id) actor = search (command_rules, claim_task-Holds) depth 4
  dispatch-Holds (task_complete id result) actor =
      search (command_rules, complete_task-Holds) depth 4
  dispatch-Holds (task_fail id reason retryable) actor =
      search (command_rules, fail_task-Holds) depth 4
  dispatch-Holds (task_retry id) actor = search (command_rules, retry_task-Holds) depth 4
  dispatch-Holds (task_cancel id reason) actor = search (command_rules, cancel_task-Holds) depth 4
  dispatch-Holds (task_handoff id handoff) actor =
      search (command_rules, handoff_task-Holds) depth 4
  dispatch-Holds (approval_request id reason ttl) actor =
      search (command_rules, request_approval-Holds) depth 4
  dispatch-Holds (approval_decide id decision reason) actor =
      search (command_rules, decide_approval-Holds) depth 4
  dispatch-Holds (approval_list id) actor = search (command_rules) depth 4
  dispatch-Holds (memory_propose scope title content sensitivity references evidence) actor =
      search (command_rules, propose_memory-Holds) depth 4
  dispatch-Holds (memory_review id decision reason) actor =
      search (command_rules, review_memory-Holds) depth 4
  dispatch-Holds (memory_read scope) actor = search (command_rules) depth 4
  dispatch-Holds memory_list_candidates actor = search (command_rules) depth 4
  dispatch-Holds (outbox_prepare task_id connector_id operation_id parameters key) actor =
      search (command_rules, prepare_delivery-Holds) depth 4
  dispatch-Holds (outbox_get id) actor = search (command_rules) depth 4
  dispatch-Holds (outbox_list status) actor = search (command_rules) depth 4
  dispatch-Holds (outbox_claim id lease) actor =
      search (command_rules, claim_delivery-Holds) depth 4
  dispatch-Holds (outbox_record_outcome id claim_id outcome evidence receipt) actor =
      search (command_rules, record_delivery_outcome-Holds) depth 4
  dispatch-Holds (outbox_record_worker_outcome id claim_id outcome evidence receipt) actor =
      search (command_rules, record_verified_worker_outcome-Holds) depth 4
  dispatch-Holds (outbox_reconcile_expired id) actor =
      search (command_rules, reconcile_expired_delivery-Holds) depth 4
  dispatch-Holds (outbox_retry id reason) actor =
      search (command_rules, retry_delivery-Holds) depth 4
  dispatch-Holds (outbox_cancel id reason) actor =
      search (command_rules, cancel_delivery-Holds) depth 4
  dispatch-Holds (outbox_resolve_uncertain id decision reason evidence result retryable) actor =
      search (command_rules, resolve_uncertain_delivery-Holds) depth 4
