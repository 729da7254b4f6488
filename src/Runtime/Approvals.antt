-- ===== src/Runtime/Approvals.antt =====
-- `requestApproval`, `decideApproval`, `listApprovals`: a human decides on a task of risk class A2.
use fdos_genesis.Prelude.{
  ℕ, ◌+◌, ◌*◌, ◌==◌, Bool, true, false, not, ◌&&◌, String, Option, none, some, List, [], ◌∷◌, leb,
  ◌is◌, same_option, if◌then◌else◌, any,
}
use fdos_genesis.Kernel.Result.{Result, ok, err, authorization, conflict, policy, validation, guard}
use fdos_genesis.Kernel.Result
use fdos_genesis.Kernel.Exec.{Exec, pure, lift, reading, for_each, ◌>>=◌, ◌>>◌}
use fdos_genesis.Kernel.Validation.{required_string, anything, iso, date_parse}
use fdos_genesis.Kernel.JsMap.{JsMap}
use fdos_genesis.Kernel.JsMap
use fdos_genesis.Kernel.EventLog.{Actor, ActorType, human}
use fdos_genesis.Domain.Intent.{verify_action_intent}
use fdos_genesis.Domain.Policy.{is_a2, is_agent, later}
use fdos_genesis.Domain.Roles.{has_capability}
use fdos_genesis.Model.{Task, Approval, ApprovalStatus}
use fdos_genesis.Reducer.Payload.{Payload}
use fdos_genesis.Runtime.{
  Environment, Live, now, new_id, append, mutate, assert_open, find_run, find_task, find_approval,
}
use fdos_genesis.Runtime.Actors.{normalize_actor, require_human, attributed_system_actor}
use fdos_genesis.Runtime.Tasks.{is_run_active, is_ready}
use fdos_genesis.Runtime.Completion.{filter_values}

abbrev pub is_pending : ApprovalStatus → Bool
is_pending ApprovalStatus.requested = true
is_pending ApprovalStatus.granted = true
is_pending _ = false

abbrev pub is_requested : ApprovalStatus → Bool
is_requested ApprovalStatus.requested = true
is_requested _ = false

-- `activeApproval`
abbrev pub is_active : Approval → ℕ → Bool
is_active a at = is_pending a.status && later (date_parse a.expires_at) at

abbrev pub is_stale : ℕ → Approval → Bool
is_stale at a = is_pending a.status && not (is_active a at)

abbrev pub concerns : Task → Approval → Bool
concerns task a = a.task_id is task.id && a.task_attempt == task.attempt

abbrev pub filter : {A : Type 0} → (A → Bool) → List A → List A
filter p [] = []
filter p (a ∷ rest) = if p a then a ∷ filter p rest else filter p rest

pub data ApprovalDecision : Type 0 where
  granted denied : ApprovalDecision

module _ (env : Environment) where
  unfoldable pub expire : Actor → Task → ℕ → Approval → Exec (Live env) (Unit {0})
  expire trigger task at a =
      append env (attributed_system_actor trigger) task.id (Payload.approval_expired a.id (iso at))

  unfoldable pub check_requestable : Actor → Task → (ttl_minutes : ℕ) → Result (Unit {0})
  check_requestable actor task ttl_minutes =
      Result.◌>>◌
        (guard
          (not (is_agent actor.type && not (same_option actor.role_id (some task.owner_role_id))))
          authorization)
        (Result.◌>>◌ (verify_action_intent env.calls.intent_digest task.action_intent env.catalog) (
          Result.◌>>◌ (guard (is_a2 task.action_intent.risk_class) policy)
            (guard (leb 1 ttl_minutes && leb ttl_minutes 240) validation)))

  unfoldable pub request_approval :
      (task_id : String) → Actor → (reason : String) → (ttl_minutes : ℕ) → Exec (Live env) Approval
  request_approval task_id actor reason ttl_minutes = mutate env (do
    known ← lift (normalize_actor env.agents true true actor)
    task ← reading (find_task env task_id)
    run ← reading (find_run env task.run_id)
    lift (guard (is_run_active run.status) conflict)
    lift (check_requestable known task ttl_minutes)
    at ← now env
    matching ← reading (λ r. ok (filter_values (concerns task) r.state.approvals))
    for_each (expire known task at) (filter (is_stale at) matching)
    lift (guard (not (any (λ a. is_active a at) matching)) conflict)
    current ← reading (find_task env task.id)
    lift (guard (is_ready current.status) conflict)
    id ← new_id env "approval"
    text ← lift (required_string 1 2000 anything reason)
    let approval : Approval = record {
      id = id;
      task_id = task.id;
      task_attempt = task.attempt;
      intent_digest = task.action_intent.digest;
      risk_class = task.action_intent.risk_class;
      reason = text;
      requested_by = known.id;
      requested_at = iso at;
      expires_at = iso (at + ttl_minutes * 60000);
      status = ApprovalStatus.requested;
      decided_by = none;
      decided_at = none;
      decision_reason = none;
      consumed_at = none;
      expired_at = none;
    }
    append env known task.id (Payload.approval_requested approval)
    pure approval)

  -- The decision, once the approval is known to be active.
  unfoldable pub decide :
      Actor
      → Task
      → Approval
      → ApprovalDecision
      → (reason : String) → ℕ
      → Exec (Live env) (Unit {0})
  decide known task approval granted reason at =
      append env known task.id
        (Payload.approval_granted approval.id known.id (iso at) approval.expires_at)
  decide known task approval denied reason at =
      lift (required_string 1 2000 anything reason) >>= λ text.
      append env known task.id (Payload.approval_denied approval.id known.id (iso at) text)

  unfoldable pub decide_approval :
      (approval_id : String)
      → Actor
      → ApprovalDecision
      → (reason : String) → Exec (Live env) Approval
  decide_approval approval_id actor decision reason = mutate env (do
    known ← lift (require_human env.agents actor)
    approval ← reading (find_approval env approval_id)
    lift (guard (is_requested approval.status) conflict)
    task ← reading (find_task env approval.task_id)
    lift (
        guard
          (task.attempt == approval.task_attempt
            && task.action_intent.digest is approval.intent_digest)
          policy)
    at ← now env
    (if is_active approval at
        then decide known task approval decision reason at
        else (expire known task at approval >> lift (err policy)))
    reading (find_approval env approval.id))

  abbrev pub may_review : ActorType → Option String → (capability : String) → Result (Unit {0})
  may_review human role capability = ok tt
  may_review _ (some role) capability =
      Result.◌>>=◌ (has_capability env.roles role capability) (λ held. guard held authorization)
  may_review _ none capability = err authorization

  unfoldable pub list_approvals :
      Actor → (task_id : Option String) → Live env → Result (List Approval)
  list_approvals actor task_id r = Result.◌>>◌ (assert_open env r) (
      Result.◌>>=◌ (normalize_actor env.agents true true actor) (λ known.
        Result.◌>>◌ (may_review known.type known.role_id "audit:read") (elim task_id [
          | none ↦ ok (JsMap.values r.state.approvals)
          | some id ↦
              Result.◌>>◌ (find_task env id r)
                (ok (filter_values (λ a. a.task_id is id) r.state.approvals))
        ])))
