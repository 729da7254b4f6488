-- ===== src/Runtime/Completion.antt =====
-- `completeTask`, and what it sets free: parents that wait for a handoff, tasks that wait for
-- others, and the run itself.
use fdos_genesis.Prelude.{
  ◌==◌, Bool, true, false, not, ◌&&◌, ◌||◌, String, Option, none, some, List, [], ◌∷◌, leb, ◌is◌,
  is_some, if◌then◌else◌, length, all,
}
use fdos_genesis.Kernel.Result.{
  Result, ok, err, conflict, integrity, not_found, policy, validation, guard, or_throw,
}
use fdos_genesis.Kernel.Result
use fdos_genesis.Kernel.Exec.{Exec, pure, lift, reading, for_each, ◌>>=◌, ◌>>◌}
use fdos_genesis.Kernel.Validation.{iso}
use fdos_genesis.Kernel.Json.{Fields, has_value}
use fdos_genesis.Kernel.JsMap.{JsMap}
use fdos_genesis.Kernel.JsMap
use fdos_genesis.Kernel.EventLog.{Actor}
use fdos_genesis.Kernel.Store
use fdos_genesis.Domain.Intent.{verify_action_intent}
use fdos_genesis.Domain.Connectors.Registry.{has_action_type}
use fdos_genesis.Model.{Run, RunStatus, Task, TaskStatus, Delivery, simulated, AcceptedInvocation}
use fdos_genesis.Reducer.Payload.{Payload}
use fdos_genesis.Reducer.Checks.{same_status}
use fdos_genesis.Runtime.{Environment, Live, TaskEvidence, now, append, mutate, find_run, find_task}
use fdos_genesis.Runtime.Actors.{normalize_actor, attributed_system_actor}
use fdos_genesis.Runtime.Tasks.{is_run_active, is_completed, held_by, every_completed}

abbrev pub is_waiting_handoff : TaskStatus → Bool
is_waiting_handoff TaskStatus.waiting_handoff = true
is_waiting_handoff _ = false

abbrev pub is_blocked : TaskStatus → Bool
is_blocked TaskStatus.blocked = true
is_blocked _ = false

abbrev pub is_run_completed : RunStatus → Bool
is_run_completed RunStatus.completed = true
is_run_completed _ = false

-- `tasks.filter(…)` with a test that may throw.
unfoldable pub filter_tasks : (Task → Result Bool) → List Task → Result (List Task)
filter_tasks p [] = ok []
filter_tasks p (t ∷ ts) =
    let rest = filter_tasks p ts in
    Result.◌>>=◌ (p t)
      (λ keep. Result.◌>>=◌ rest (λ others. ok (if keep then t ∷ others else others)))

-- `ids.map((id) => this.findTask(id))`
unfoldable pub tasks_of : JsMap Task → List String → Result (List Task)
tasks_of tasks [] = ok []
tasks_of tasks (id ∷ ids) =
    Result.◌>>=◌ (or_throw (JsMap.get id tasks) not_found)
      (λ t. Result.◌>>=◌ (tasks_of tasks ids) (λ ts. ok (t ∷ ts)))

-- A parent whose handoffs are all completed.
unfoldable pub is_returned : JsMap Task → (run_id : String) → Task → Result Bool
is_returned tasks run_id t =
    if t.run_id is run_id && is_waiting_handoff t.status && leb 1 (length t.child_task_ids)
    then every_completed tasks t.child_task_ids
    else ok false

unfoldable pub is_released : JsMap Task → Task → Result Bool
is_released tasks t = if is_blocked t.status then every_completed tasks t.dependencies else ok false

abbrev pub is_for : Task → Delivery → Bool
is_for task d =
    d.intent.task.id is task.id
    && d.intent.task.attempt == task.attempt
    && d.intent.task.action_intent_digest is task.action_intent.digest

abbrev pub filter_values : {V : Type 0} → (V → Bool) → JsMap V → List V
filter_values p [] = []
filter_values p ((k, v) ∷ m) = if p v then v ∷ filter_values p m else filter_values p m

-- Exactly one delivery for this attempt, simulated, and asked for by the same actor.
abbrev pub is_delivered : Actor → List Delivery → Result (Unit {0})
is_delivered actor (d ∷ []) =
    guard (same_status d.status simulated && d.intent.requested_by is actor.id) policy
is_delivered actor _ = err policy

abbrev pub task_evidence : Task → TaskEvidence
task_evidence t = record {
  task_id = t.id;
  step_id = t.step_id;
  owner_role_id = t.owner_role_id;
  parent_task_id = t.parent_task_id;
  attempt = t.attempt;
  action_intent_digest = t.action_intent.digest;
  result_digest = t.result_digest;
}

abbrev pub task_evidences : List Task → List TaskEvidence
task_evidences [] = []
task_evidences (t ∷ ts) = task_evidence t ∷ task_evidences ts

-- `deliveryEvidence`: a worker's receipt needs the invocation that brought it.
abbrev pub has_invocation : JsMap AcceptedInvocation → Delivery → Bool
has_invocation invocations d =
    not (is_some d.worker_receipt)
    || (elim d.worker_receipt_invocation_id [ none ↦ false | some id ↦ JsMap.has id invocations ])

module _ (env : Environment) where
  unfoldable pub assert_result_contract : Task → Fields → Result (Unit {0})
  assert_result_contract task result =
      Result.◌>>◌ (guard (leb (env.calls.byte_length result) 131072) validation)
        (guard (all (λ name. has_value name result) task.required_fields) validation)

  unfoldable pub assert_delivered : Actor → Task → Live env → Result (Unit {0})
  assert_delivered actor task r =
      if has_action_type env.connectors task.action_intent.action_type
      then is_delivered actor (filter_values (is_for task) r.state.outbox)
      else ok tt

  unfoldable pub return_parent : Actor → Task → Exec (Live env) (Unit {0})
  return_parent trigger t = do
    at ← now env
    append env (attributed_system_actor trigger) t.id (Payload.handoff_returned t.id (iso at))

  unfoldable pub release_handoff_parents : (run_id : String) → Actor → Exec (Live env) (Unit {0})
  release_handoff_parents run_id trigger = do
    parents ←
        reading (λ r. filter_tasks (is_returned r.state.tasks run_id) (JsMap.values r.state.tasks))
    for_each (return_parent trigger) parents

  unfoldable pub ready_task : Actor → Task → Exec (Live env) (Unit {0})
  ready_task trigger t = do
    at ← now env
    append env (attributed_system_actor trigger) t.id (Payload.task_ready t.id (iso at))

  unfoldable pub release_workflow_dependencies :
      (run_id : String) → Actor → Exec (Live env) (Unit {0})
  release_workflow_dependencies run_id trigger = do
    run ← reading (find_run env run_id)
    tasks ← reading (λ r. tasks_of r.state.tasks run.task_ids)
    ready ← reading (λ r. filter_tasks (is_released r.state.tasks) tasks)
    for_each (ready_task trigger) ready

  abbrev pub run_deliveries : Run → Live env → List Delivery
  run_deliveries run r = filter_values (λ d. d.intent.task.run_id is run.id) r.state.outbox

  unfoldable pub evidence_of : Run → List Task → (head : Option String) → Live env → Result String
  evidence_of run tasks head r =
      Result.◌>>◌
        (guard (all (has_invocation r.state.accepted_invocations) (run_deliveries run r)) integrity)
        (ok (
          env.calls.evidence_digest run (task_evidences tasks) (run_deliveries run r)
            r.state.accepted_invocations head))

  unfoldable pub complete_run : Run → List Task → Actor → Exec (Live env) (Unit {0})
  complete_run run tasks trigger = do
    at ← now env
    head ← reading (λ r. Store.last_event_hash env.sqlite env.outside r.store)
    digest ← reading (evidence_of run tasks head)
    append env (attributed_system_actor trigger) run.id
        (Payload.run_completed run.id digest head (iso at))

  unfoldable pub finalize_run_if_complete : (run_id : String) → Actor → Exec (Live env) (Unit {0})
  finalize_run_if_complete run_id trigger = do
    run ← reading (find_run env run_id)
    (if is_run_completed run.status then pure tt else do
      tasks ← reading (λ r. tasks_of r.state.tasks run.task_ids)
      (if all (λ t. is_completed t.status) tasks then complete_run run tasks trigger else pure tt))

  unfoldable pub complete_task : (task_id : String) → Actor → Fields → Exec (Live env) Task
  complete_task task_id actor result = mutate env (do
    known ← lift (normalize_actor env.agents false true actor)
    task ← reading (find_task env task_id)
    run ← reading (find_run env task.run_id)
    lift (guard (is_run_active run.status) conflict)
    lift (guard (held_by task known) conflict)
    lift (verify_action_intent env.calls.intent_digest task.action_intent env.catalog)
    reading (assert_delivered known task)
    lift (assert_result_contract task result)
    at ← now env
    append env known task.id
        (Payload.task_completed task.id result (env.calls.result_digest result) (iso at))
    release_handoff_parents task.run_id known
    release_workflow_dependencies task.run_id known
    finalize_run_if_complete task.run_id known
    reading (find_task env task.id))
