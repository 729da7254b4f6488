-- ===== src/Runtime/Tasks.antt =====
-- `claimTask`, `failTask`, `retryTask` and `cancelTask`. An event's payload has the fields that the
-- reducer reads; each command returns the task as it is then.
use fdos_genesis.Prelude.{
  ℕ, ◌+◌, Bool, true, false, not, ◌&&◌, ◌||◌, String, Option, none, some, List, [], ◌∷◌, leb, ◌==◌,
  ◌is◌, same_option, if◌then◌else◌,
}
use fdos_genesis.Kernel.Result.{
  FdosError, Result, ok, err, conflict, not_found, policy, guard, or_throw,
}
use fdos_genesis.Kernel.Result
use fdos_genesis.Kernel.Exec.{Exec, pure, lift, reading, ◌>>=◌, ◌>>◌}
use fdos_genesis.Kernel.Validation.{required_string, anything, iso, date_parse}
use fdos_genesis.Kernel.JsMap.{JsMap}
use fdos_genesis.Kernel.JsMap
use fdos_genesis.Kernel.EventLog.{Actor}
use fdos_genesis.Domain.Policy.{
  PolicyDecision, human_approval_required, allowed, is_granted, later, evaluate_task_execution,
}
use fdos_genesis.Model.{
  Run, RunStatus, Task, TaskStatus, TaskFailure, Approval, Delivery, DeliveryStatus,
}
use fdos_genesis.Reducer.Payload.{Payload}
use fdos_genesis.Runtime.{Environment, Live, now, append, mutate, find_run, find_task}
use fdos_genesis.Runtime.Actors.{normalize_actor, require_human}

abbrev pub is_run_active : RunStatus → Bool
is_run_active RunStatus.active = true
is_run_active _ = false

abbrev pub is_ready : TaskStatus → Bool
is_ready TaskStatus.ready = true
is_ready _ = false

abbrev pub is_completed : TaskStatus → Bool
is_completed TaskStatus.completed = true
is_completed _ = false

abbrev pub is_in_progress : TaskStatus → Bool
is_in_progress TaskStatus.in_progress = true
is_in_progress _ = false

abbrev pub is_task_failed : TaskStatus → Bool
is_task_failed TaskStatus.failed = true
is_task_failed _ = false

abbrev pub is_task_cancelled : TaskStatus → Bool
is_task_cancelled TaskStatus.cancelled = true
is_task_cancelled _ = false

-- `ids.every((id) => this.findTask(id).status === "completed")`: the first that is not ends it.
unfoldable pub every_completed : JsMap Task → List String → Result Bool
every_completed tasks [] = ok true
every_completed tasks (id ∷ ids) =
    let rest = every_completed tasks ids in
    Result.◌>>=◌ (or_throw (JsMap.get id tasks) not_found)
      (λ t. if is_completed t.status then rest else ok false)

abbrev pub approves : Task → ℕ → Approval → Bool
approves task now a =
    a.task_id is task.id
    && a.task_attempt == task.attempt
    && a.intent_digest is task.action_intent.digest
    && is_granted a.status
    && later (date_parse a.expires_at) now

abbrev pub held_by : Task → Actor → Bool
held_by task actor = is_in_progress task.status && same_option task.claimed_by (some actor.id)

-- A delivery of this attempt of the task that is neither done nor given up.
abbrev pub is_pending : DeliveryStatus → Bool
is_pending DeliveryStatus.claimed = true
is_pending DeliveryStatus.prepared = true
is_pending DeliveryStatus.uncertain = true
is_pending _ = false

abbrev pub blocks : Task → Delivery → Bool
blocks task d =
    d.intent.task.id is task.id && d.intent.task.attempt == task.attempt && is_pending d.status

abbrev pub any_value : {V : Type 0} → (V → Bool) → JsMap V → Bool
any_value p [] = false
any_value p ((k, v) ∷ m) = p v || any_value p m

abbrev pub is_retryable : Option TaskFailure → Bool
is_retryable none = false
is_retryable (some f) = f.retryable

module _ (env : Environment) where
  -- The matching approval that was decided last.
  abbrev pub later_decided : Approval → Option Approval → Approval
  later_decided a none = a
  later_decided a (some best) =
      if env.calls.collates_after a.decided_at best.decided_at then a else best

  abbrev pub latest_approval :
      (Approval → Bool) → Option Approval → JsMap Approval → Option Approval
  latest_approval p best [] = best
  latest_approval p best ((id, a) ∷ m) =
      latest_approval p (if p a then some (later_decided a best) else best) m

  -- `decision.allowed`, and then `decision.consumeApprovalId`.
  abbrev pub consumed : PolicyDecision → Result (Option String)
  consumed human_approval_required = err policy
  consumed (allowed approval_id) = ok approval_id

  unfoldable pub consume : Actor → Task → Option String → ℕ → Exec (Live env) (Unit {0})
  consume actor task none at = pure tt
  consume actor task (some id) at = append env actor task.id (Payload.approval_consumed id (iso at))

  -- What must hold of a task and its run before the policy is asked.
  unfoldable pub check_claimable : Run → Task → Live env → Result (Unit {0})
  check_claimable run task r = Result.◌>>◌ (guard (is_run_active run.status) conflict) (
      Result.◌>>◌ (guard (is_ready task.status) conflict) (
        Result.◌>>=◌ (every_completed r.state.tasks task.dependencies) (λ dependencies.
          Result.◌>>◌ (guard dependencies conflict) (
            Result.◌>>=◌ (every_completed r.state.tasks task.child_task_ids)
              (λ children. guard children conflict)))))

  unfoldable pub decide_claim : Actor → Task → ℕ → Live env → Result (Option String)
  decide_claim actor task at r =
      Result.◌>>=◌
        (evaluate_task_execution env.calls.intent_digest env.catalog env.roles actor task
          (latest_approval (approves task at) none r.state.approvals) at)
        consumed

  unfoldable pub claim_task : (task_id : String) → Actor → Exec (Live env) Task
  claim_task task_id actor = mutate env (do
    known ← lift (normalize_actor env.agents false true actor)
    task ← reading (find_task env task_id)
    run ← reading (find_run env task.run_id)
    reading (check_claimable run task)
    at ← now env
    approval_id ← reading (decide_claim known task at)
    consume known task approval_id at
    append env known task.id (Payload.task_claimed task.id known.id (iso at))
    reading (find_task env task.id))

  unfoldable pub fail_task :
      (task_id : String) → Actor → (reason : String) → (retryable : Bool) → Exec (Live env) Task
  fail_task task_id actor reason retryable = mutate env (do
    known ← lift (normalize_actor env.agents false true actor)
    task ← reading (find_task env task_id)
    lift (guard (held_by task known) conflict)
    at ← now env
    text ← lift (required_string 1 2000 anything reason)
    append env known task.id (Payload.task_failed task.id text retryable (iso at))
    reading (find_task env task.id))

  unfoldable pub check_retryable : Task → Live env → Result (Unit {0})
  check_retryable task r =
      Result.◌>>◌ (guard (is_task_failed task.status && is_retryable task.failure) conflict) (
        Result.◌>>◌ (guard (not (any_value (blocks task) r.state.outbox)) policy)
          (guard (not (leb task.max_attempts task.attempt)) policy))

  unfoldable pub retry_task : (task_id : String) → Actor → Exec (Live env) Task
  retry_task task_id actor = mutate env (do
    known ← lift (require_human env.agents actor)
    task ← reading (find_task env task_id)
    reading (check_retryable task)
    at ← now env
    append env known task.id (Payload.task_retry_authorized task.id (task.attempt + 1) (iso at))
    reading (find_task env task.id))

  unfoldable pub cancel_task : (task_id : String) → Actor → (reason : String) → Exec (Live env) Task
  cancel_task task_id actor reason = mutate env (do
    known ← lift (require_human env.agents actor)
    task ← reading (find_task env task_id)
    lift (guard (not (is_completed task.status || is_task_cancelled task.status)) conflict)
    reading (λ r. guard (not (any_value (blocks task) r.state.outbox)) policy)
    at ← now env
    lift (required_string 1 2000 anything reason)
    append env known task.id (Payload.task_cancelled task.id (iso at))
    reading (find_task env task.id))
