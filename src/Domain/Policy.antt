-- ===== src/Domain/Policy.antt =====
-- domain/policy-engine.js: whether an actor may execute a task.
pub mod Allowed
use fdos_genesis.Prelude.{
  ℕ, Bool, true, false, ◌&&◌, String, Option, none, some, not, ltb, ◌is◌, if◌then◌else◌,
}
use fdos_genesis.Kernel.Result.{
  Result, ok, err, authorization, policy, guard, or_throw, ◌>>=◌, ◌>>◌,
}
use fdos_genesis.Kernel.Validation.{date_parse}
use fdos_genesis.Kernel.EventLog.{Actor, ActorType, agent}
use fdos_genesis.Domain.Catalog.{Catalog, Risk, a0, a1, a2, a3, a4, risk_at_least}
use fdos_genesis.Domain.Intent.{UnsignedIntent, verify_action_intent}
use fdos_genesis.Domain.Roles.{Roles, assert_capability}
use fdos_genesis.Model.{Task, Approval, ApprovalStatus, granted}

pub data PolicyDecision : Type 0 where
  human_approval_required : PolicyDecision
  allowed : Option String → PolicyDecision

abbrev pub is_granted : ApprovalStatus → Bool
is_granted granted = true
is_granted _ = false

abbrev pub is_agent : ActorType → Bool
is_agent agent = true
is_agent _ = false

-- `Number.isFinite(Date.parse(t)) && new Date(t) > now`
abbrev pub later : Option ℕ → ℕ → Bool
later none now = false
later (some t) now = ltb now t

abbrev pub is_a2 : Risk → Bool
is_a2 a2 = true
is_a2 _ = false

unfoldable pub evaluate_approval : Task → Option Approval → ℕ → Result PolicyDecision
evaluate_approval task none now = ok human_approval_required
evaluate_approval task (some approval) now = do
  guard
      (is_granted approval.status
        && approval.task_id is task.id
        && approval.intent_digest is task.action_intent.digest)
      policy
  guard (later (date_parse approval.expires_at) now) policy
  ok (allowed (some approval.id))

module _ (digest_of : UnsignedIntent → String) (catalog : Catalog) (roles : Roles) where
  unfoldable pub evaluate_task_execution :
      Actor → Task → Option Approval → ℕ → Result PolicyDecision
  evaluate_task_execution actor task approval now = do
    guard (is_agent actor.type) authorization
    role ← or_throw actor.role_id authorization
    guard (role is task.owner_role_id) authorization
    verify_action_intent digest_of task.action_intent catalog
    assert_capability roles role task.action_intent.capability
    guard (not (risk_at_least task.action_intent.risk_class a3)) policy
    (if is_a2 task.action_intent.risk_class
        then evaluate_approval task approval now
        else ok (allowed none))
