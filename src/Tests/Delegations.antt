-- ===== src/Tests/Delegations.antt =====
-- A handoff of a task.
use fdos_genesis.Prelude.{◌≡◌, refl, none, [], ◌∷◌}
use fdos_genesis.Kernel.Result.{ok}
use fdos_genesis.Kernel.Text.{
  text_length, trim_start, trim_end, trim, starts_with, skip, every_char, cut,
}
use fdos_genesis.Kernel.Validation.{iso, required_string, is_id, assert_id}
use fdos_genesis.Kernel.Json.{Json, Fields}
use fdos_genesis.Kernel.Json
use fdos_genesis.Domain.Catalog.{Risk, Sensitivity}
use fdos_genesis.Domain.Intent.{ExecutionMode}
use fdos_genesis.Domain.Roles.{Roles}
use fdos_genesis.Domain.Agents.{Agent, InstanceStatus}
use fdos_genesis.Model.{Task}
use fdos_genesis.Runtime.{Environment, Runtime}
use fdos_genesis.Runtime.Handoffs.{Handoff, child_task, handoff_task}
use fdos_genesis.Runtime.Guards.Delegations.{IsDelegated, handoff_task-IsDelegated}
use fdos_genesis.Tests.Samples.{agent_actor}
use fdos_genesis.Tests.Office.{office, run, reading_task, before_completion}

-- The same task handed on, in an office whose marketing may delegate.
abbrev delegating_office : Environment
delegating_office = record office {
  roles =
      record {
        id = "marketing";
        capabilities = "task:delegate" ∷ "connector:read:reference" ∷ [];
        memory_read_scopes = [];
        memory_propose_scopes = [];
        max_sensitivity = Sensitivity.internal;
      }
      ∷ [];
}

abbrev handoff : Handoff
handoff = record {
  target_role_id = "marketing";
  title = "Read";
  context = "Read the item";
  desired_outcome = "The item";
  action_type = "connector.reference.read";
  target = "reference/item";
  parameters = Json.end;
  risk_class = none;
  sensitivity = Sensitivity.internal;
  required_output_fields = [];
}

abbrev handed_task : Task
handed_task =
    child_task reading_task run handoff agent_actor reading_task.action_intent "task_000002" "Read"
      "Read the item" "The item" [] 50

handoff_returns :
    (handoff_task delegating_office "task_000001" agent_actor handoff before_completion).0
    ≡ ok handed_task
unfolding fdos_genesis.Runtime.mutate fdos_genesis.Runtime.assert_open
    fdos_genesis.Runtime.find_task fdos_genesis.Runtime.find_run fdos_genesis.Runtime.now
    fdos_genesis.Runtime.append fdos_genesis.Runtime.new_id fdos_genesis.Runtime.find_delivery
    fdos_genesis.Runtime.Events.event_type fdos_genesis.Runtime.Actors.normalize_actor
    fdos_genesis.Domain.Agents.resolve_agent fdos_genesis.Domain.Agents.get_agent
    fdos_genesis.Kernel.JsMap.get fdos_genesis.Kernel.JsMap.set fdos_genesis.Kernel.Store.read_clock
    fdos_genesis.Kernel.Store.make_id fdos_genesis.Kernel.Store.append
    fdos_genesis.Kernel.Store.append_now fdos_genesis.Kernel.Store.assert_writable
    fdos_genesis.Kernel.Store.assert_open fdos_genesis.Kernel.EventLog.create_audit_event
    fdos_genesis.Kernel.EventLog.validate_actor
    fdos_genesis.Kernel.EventLog.normalize_transaction_id fdos_genesis.Kernel.EventLog.is_actor_id
    fdos_genesis.Kernel.EventLog.is_role_id fdos_genesis.Kernel.EventLog.is_event_type
    fdos_genesis.Kernel.Validation.required_string fdos_genesis.Kernel.Validation.assert_id
    fdos_genesis.Kernel.Validation.is_id fdos_genesis.Kernel.Validation.is_connector_id
    fdos_genesis.Kernel.Text.trim fdos_genesis.Kernel.Text.trim_start
    fdos_genesis.Kernel.Text.trim_end fdos_genesis.Kernel.Text.text_length
    fdos_genesis.Kernel.Text.starts_with fdos_genesis.Kernel.Text.skip
    fdos_genesis.Kernel.Text.every_char fdos_genesis.Kernel.Text.cut
    fdos_genesis.Kernel.Text.is_digest fdos_genesis.Reducer.Apply.apply_runtime_event
    fdos_genesis.Reducer.Apply.attribution fdos_genesis.Reducer.Apply.dispatch
    fdos_genesis.Reducer.Invocations.check_attribution fdos_genesis.Reducer.Store.update_task
    fdos_genesis.Reducer.Store.update_run fdos_genesis.Reducer.Store.update_approval
    fdos_genesis.Reducer.Store.update_delivery fdos_genesis.Reducer.Store.require_run
    fdos_genesis.Reducer.Store.require_task fdos_genesis.Domain.Catalog.get
    fdos_genesis.Domain.Roles.get fdos_genesis.Domain.Roles.has_capability
    fdos_genesis.Domain.Roles.assert_capability fdos_genesis.Domain.Intent.verify_action_intent
    fdos_genesis.Domain.Intent.execution_mode_for fdos_genesis.Runtime.Handoffs.handoff_task
    fdos_genesis.Runtime.Handoffs.check_delegation fdos_genesis.Runtime.Handoffs.check_budget
    fdos_genesis.Runtime.Handoffs.handoff_intent fdos_genesis.Runtime.Handoffs.sort_texts
    fdos_genesis.Domain.Intent.create_action_intent fdos_genesis.Kernel.Validation.unique_strings
    fdos_genesis.Kernel.Validation.required_strings fdos_genesis.Reducer.Workflow.create_handoff
handoff_returns = refl

handoff_task-IsDelegated_example :
    IsDelegated delegating_office before_completion "task_000001" agent_actor handoff handed_task
handoff_task-IsDelegated_example =
    handoff_task-IsDelegated delegating_office "task_000001" agent_actor handoff before_completion
      handoff_returns
