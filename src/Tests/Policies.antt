-- ===== src/Tests/Policies.antt =====
-- Intents, executions and accesses that the policy allows.
use fdos_genesis.Prelude.{◌≡◌, ◌≢◌, refl, false, ◌&&◌, ◌is◌, none, some}
use fdos_genesis.Kernel.Result.{ok}
use fdos_genesis.Kernel.Text.{
  text_length, trim_start, trim_end, trim, starts_with, skip, every_char, is_digest,
}
use fdos_genesis.Kernel.Validation.{required_string}
use fdos_genesis.Kernel.EventLog.{is_role_id}
use fdos_genesis.Domain.Catalog.{Risk, Sensitivity, default_actions, ActionDefinition}
use fdos_genesis.Domain.Catalog
use fdos_genesis.Domain.Intent.{create_action_intent, verify_action_intent, execution_mode_for}
use fdos_genesis.Domain.Intent.RoundTrip.{
  KeepsTo, verify-create_action_intent, verify_action_intent-KeepsTo,
}
use fdos_genesis.Domain.Policy.{evaluate_task_execution, evaluate_approval}
use fdos_genesis.Domain.Policy.Allowed.{Authorized, evaluate_task_execution-Authorized}
use fdos_genesis.Domain.Roles.{
  MemoryMode, assert_memory_access, assert_role_memory, is_scope, is_confidential, scope_matches,
  memory_capability, assert_capability, has_capability,
}
use fdos_genesis.Domain.Roles
use fdos_genesis.Domain.Roles.Memory.{ActorAllows, assert_memory_access-Allows}
use fdos_genesis.Tests.Samples.{a_digest, intent, task, approval, roles, agent_actor}

verify-create_action_intent_example :
    verify_action_intent (λ u. a_digest) intent default_actions ≡ ok tt
unfolding create_action_intent execution_mode_for Catalog.get required_string trim trim_start
    trim_end text_length starts_with skip every_char is_digest
verify-create_action_intent_example =
    verify-create_action_intent (λ u. a_digest) default_actions "connector.reversible.write"
      "reference/item" a_digest none Sensitivity.internal refl refl

verify_action_intent-KeepsTo_example :
    (d : ActionDefinition) × (Catalog.get default_actions intent.action_type ≡ ok d)
    × KeepsTo (λ u. a_digest) intent d
unfolding verify_action_intent execution_mode_for Catalog.get required_string trim trim_start
    trim_end text_length starts_with skip every_char is_digest
verify_action_intent-KeepsTo_example =
    verify_action_intent-KeepsTo (λ u. a_digest) intent default_actions refl

evaluate_task_execution-Authorized_example :
    Authorized
      (λ u. a_digest)
      default_actions
      roles
      agent_actor
      task
      (some approval)
      100
      (some "approval_000001")
unfolding evaluate_task_execution evaluate_approval assert_capability has_capability Roles.get
    verify_action_intent execution_mode_for Catalog.get required_string trim trim_start trim_end
    text_length starts_with skip every_char is_digest
evaluate_task_execution-Authorized_example =
    evaluate_task_execution-Authorized (λ u. a_digest) default_actions roles agent_actor task
      (some approval) 100 refl

assert_memory_access-Allows_example :
    (Sensitivity.internal ≢ Sensitivity.restricted)
    × (("company" is "company" && is_confidential Sensitivity.internal) ≡ false)
    × (required_string 1 100 is_scope "company" ≡ ok "company")
    × ActorAllows agent_actor.type agent_actor.role_id roles "company" Sensitivity.internal
        MemoryMode.read
unfolding assert_memory_access assert_role_memory is_scope scope_matches memory_capability
    is_role_id Roles.get required_string trim trim_start trim_end text_length starts_with skip
    every_char
assert_memory_access-Allows_example =
    assert_memory_access-Allows roles agent_actor "company" Sensitivity.internal MemoryMode.read
      refl
