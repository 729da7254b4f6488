-- ===== src/Domain/Policy/Allowed.antt =====
-- What it takes for the policy to allow an execution.
use fdos_genesis.Prelude.{
  ℕ, ◌<◌, ◌≡◌, refl, ap, subst, ◌∙◌, inl, inr, Bool-cases, true, false, not, String, Option, none,
  some, arith, eq_iff, ◌is◌,
}
use fdos_genesis.Kernel.Result.{
  ok, authorization, policy, guard, or_throw, >>=-eq-ok, >>-eq-ok, or_throw-eq-ok,
}
use fdos_genesis.Kernel.Validation.{date_parse}
use fdos_genesis.Kernel.EventLog.{Actor, agent}
use fdos_genesis.Domain.Catalog.{Catalog, a3, risk_at_least, risk_rank}
use fdos_genesis.Domain.Intent.{UnsignedIntent, verify_action_intent}
use fdos_genesis.Domain.Roles.{Roles, assert_capability}
use fdos_genesis.Model.{Task, Approval, granted}
use fdos_genesis.Domain.Policy.{
  allowed, is_agent, is_a2, later, evaluate_approval, evaluate_task_execution,
}

-- The approval binds the task and its intent, is granted, and ends after `now`.
pub record Binds (task : Task) (now : ℕ) (approval : Approval) : Type 0 where
  pub granted_status : approval.status ≡ granted
  pub same_task : approval.task_id ≡ task.id
  pub same_intent : approval.intent_digest ≡ task.action_intent.digest
  pub not_expired : later (date_parse approval.expires_at) now ≡ true

-- The identifier of the approval that the execution uses up.
abbrev pub UsesUp : Task → Option Approval → ℕ → Option String → Type 0
UsesUp task approval now none = is_a2 task.action_intent.risk_class ≡ false
UsesUp task approval now (some id) =
    (is_a2 task.action_intent.risk_class ≡ true)
    × ((a : Approval) × (approval ≡ some a) × (a.id ≡ id) × Binds task now a)

evaluate_approval-allowed :
    (task : Task) (approval : Option Approval) (now : ℕ) {used : Option String}
    → is_a2 task.action_intent.risk_class ≡ true
    → evaluate_approval task approval now ≡ ok (allowed used)
    → UsesUp task approval now used
unfolding evaluate_approval
evaluate_approval-allowed task none now a e = cc
evaluate_approval-allowed task (some approval) now {used = none} a e = ground arith
evaluate_approval-allowed task (some approval) now {used = some id} a e = (
  a,
  (
    approval,
    refl,
    ground arith,
    record {
      granted_status = ground arith;
      same_task = ground (arith, eq_iff approval.task_id task.id);
      same_intent = ground (arith, eq_iff approval.intent_digest task.action_intent.digest);
      not_expired = ground arith;
    },
  ),
)

UsesUp-nothing :
    (task : Task) (approval : Option Approval) (now : ℕ) (used : Option String)
    → is_a2 task.action_intent.risk_class ≡ false
    → ok (allowed none) ≡ ok (allowed used)
    → UsesUp task approval now used
UsesUp-nothing task approval now none low e = low
UsesUp-nothing task approval now (some id) low e = cc

module _ (digest_of : UnsignedIntent → String) (catalog : Catalog) (roles : Roles) where
  -- What holds of an execution that the policy allows.
  pub record Authorized (actor : Actor) (task : Task) (approval : Option Approval) (now : ℕ)
      (used : Option String) : Type 0 where
    pub by_agent : actor.type ≡ agent
    pub by_owner : actor.role_id ≡ some task.owner_role_id
    pub verified : verify_action_intent digest_of task.action_intent catalog ≡ ok tt
    pub capable : assert_capability roles task.owner_role_id task.action_intent.capability ≡ ok tt
    pub below_a3 : risk_rank task.action_intent.risk_class < 3
    pub approved : UsesUp task approval now used

  -- The policy allows an execution only to an agent with the task's owner role and the intent's
  -- capability, for a verified intent of a risk below A3; and an A2 intent only by an approval
  -- that is granted, binds the task and the intent and has not expired, and that is used up.
  pub evaluate_task_execution-Authorized :
      (actor : Actor) (task : Task) (approval : Option Approval) (now : ℕ) {used : Option String}
      → evaluate_task_execution digest_of catalog roles actor task approval now ≡ ok (allowed used)
      → Authorized actor task approval now used
  unfolding evaluate_task_execution
  evaluate_task_execution-Authorized actor task approval now {used} e =
      let intent = task.action_intent in
      let ((_, g₁), e₁) = >>-eq-ok (guard (is_agent actor.type) authorization) _ e in
      let (role, at_role, e₂) = >>=-eq-ok (or_throw actor.role_id authorization) _ e₁ in
      let ((_, g₃), e₃) = >>-eq-ok (guard (role is task.owner_role_id) authorization) _ e₂ in
      let ((_, v), e₄) = >>-eq-ok (verify_action_intent digest_of intent catalog) _ e₃ in
      let ((_, c), e₅) = >>-eq-ok (assert_capability roles role intent.capability) _ e₄ in
      let ((_, g₆), e₆) = >>-eq-ok (guard (not (risk_at_least intent.risk_class a3)) policy) _ e₅ in
      let owner : role ≡ task.owner_role_id = ground (arith, eq_iff role task.owner_role_id) in
      record {
        by_agent = ground arith;
        by_owner = or_throw-eq-ok actor.role_id authorization at_role ∙ ap some owner;
        verified = v;
        capable = subst (λ r. assert_capability roles r intent.capability ≡ ok tt) owner c;
        below_a3 = ground arith;
        approved = elim (Bool-cases (is_a2 intent.risk_class)) [
          | inl yes_ ↦ evaluate_approval-allowed task approval now yes_ (rw yes_ at e₆)
          | inr no_ ↦ UsesUp-nothing task approval now used no_ (rw no_ at e₆)
        ];
      }
