-- ===== src/Tests/Commands.antt =====
-- Claims and completions of a task.
use fdos_genesis.Prelude.{◌≡◌, refl, none, some}
use fdos_genesis.Kernel.Result.{ok}
use fdos_genesis.Kernel.Text.{
  text_length, trim_start, trim_end, trim, starts_with, skip, every_char, cut,
}
use fdos_genesis.Kernel.Validation.{iso, required_string, is_id, assert_id}
use fdos_genesis.Kernel.Json.{Json, Fields}
use fdos_genesis.Kernel.Json
use fdos_genesis.Domain.Catalog.{Risk, Sensitivity}
use fdos_genesis.Domain.Intent.{ExecutionMode}
use fdos_genesis.Domain.Roles.{Roles}
use fdos_genesis.Domain.Agents.{Agent, InstanceStatus}
use fdos_genesis.Model.{Task, TaskStatus}
use fdos_genesis.Runtime.{Environment, Runtime}
use fdos_genesis.Runtime.Tasks.{claim_task}
use fdos_genesis.Runtime.Completion.{complete_task}
use fdos_genesis.Runtime.Guards.Claims.{IsGranted, claim_task-IsGranted}
use fdos_genesis.Runtime.Guards.Completions.{IsCompletable, complete_task-IsCompletable}
use fdos_genesis.Tests.Samples.{a_digest, agent_actor}
use fdos_genesis.Tests.Office.{office, before_claim, claimed_task, reading_task, before_completion}

claim_returns : (claim_task office "task_000001" agent_actor before_claim).0 ≡ ok claimed_task
unfolding fdos_genesis.Runtime.mutate fdos_genesis.Runtime.assert_open
    fdos_genesis.Runtime.find_task fdos_genesis.Runtime.find_run fdos_genesis.Runtime.now
    fdos_genesis.Runtime.append fdos_genesis.Runtime.new_id fdos_genesis.Runtime.find_delivery
    fdos_genesis.Runtime.Events.event_type fdos_genesis.Runtime.Actors.normalize_actor
    fdos_genesis.Domain.Agents.resolve_agent fdos_genesis.Domain.Agents.get_agent
    fdos_genesis.Kernel.JsMap.get fdos_genesis.Kernel.JsMap.set fdos_genesis.Kernel.Store.read_clock
    fdos_genesis.Kernel.Store.make_id fdos_genesis.Kernel.Store.append
    fdos_genesis.Kernel.Store.append_now fdos_genesis.Kernel.Store.assert_writable
    fdos_genesis.Kernel.Store.assert_open fdos_genesis.Kernel.EventLog.create_audit_event
    fdos_genesis.Kernel.EventLog.validate_actor
    fdos_genesis.Kernel.EventLog.normalize_transaction_id fdos_genesis.Kernel.EventLog.is_actor_id
    fdos_genesis.Kernel.EventLog.is_role_id fdos_genesis.Kernel.EventLog.is_event_type
    fdos_genesis.Kernel.Validation.required_string fdos_genesis.Kernel.Validation.assert_id
    fdos_genesis.Kernel.Validation.is_id fdos_genesis.Kernel.Validation.is_connector_id
    fdos_genesis.Kernel.Text.trim fdos_genesis.Kernel.Text.trim_start
    fdos_genesis.Kernel.Text.trim_end fdos_genesis.Kernel.Text.text_length
    fdos_genesis.Kernel.Text.starts_with fdos_genesis.Kernel.Text.skip
    fdos_genesis.Kernel.Text.every_char fdos_genesis.Kernel.Text.cut
    fdos_genesis.Kernel.Text.is_digest fdos_genesis.Reducer.Apply.apply_runtime_event
    fdos_genesis.Reducer.Apply.attribution fdos_genesis.Reducer.Apply.dispatch
    fdos_genesis.Reducer.Invocations.check_attribution fdos_genesis.Reducer.Store.update_task
    fdos_genesis.Reducer.Store.update_run fdos_genesis.Reducer.Store.update_approval
    fdos_genesis.Reducer.Store.update_delivery fdos_genesis.Reducer.Store.require_run
    fdos_genesis.Reducer.Store.require_task fdos_genesis.Domain.Catalog.get
    fdos_genesis.Domain.Roles.get fdos_genesis.Domain.Roles.has_capability
    fdos_genesis.Domain.Roles.assert_capability fdos_genesis.Domain.Intent.verify_action_intent
    fdos_genesis.Domain.Intent.execution_mode_for fdos_genesis.Runtime.Tasks.claim_task
    fdos_genesis.Runtime.Tasks.check_claimable fdos_genesis.Runtime.Tasks.every_completed
    fdos_genesis.Runtime.Tasks.decide_claim fdos_genesis.Runtime.Tasks.consume
    fdos_genesis.Domain.Policy.evaluate_task_execution fdos_genesis.Domain.Policy.evaluate_approval
    fdos_genesis.Reducer.Workflow.claim_task fdos_genesis.Reducer.Approvals.consume_approval
claim_returns = refl

claim_task-IsGranted_example : IsGranted office before_claim "task_000001" agent_actor
claim_task-IsGranted_example =
    claim_task-IsGranted office "task_000001" agent_actor before_claim claim_returns

abbrev completed_task : Task
completed_task = record reading_task {
  status = TaskStatus.completed;
  claimed_by = none;
  result = some Json.end;
  result_digest = some a_digest;
  completed_at = some (iso 50);
  updated_at = iso 50;
}

completion_returns :
    (complete_task office "task_000001" agent_actor Json.end before_completion).0
    ≡ ok completed_task
unfolding fdos_genesis.Runtime.mutate fdos_genesis.Runtime.assert_open
    fdos_genesis.Runtime.find_task fdos_genesis.Runtime.find_run fdos_genesis.Runtime.now
    fdos_genesis.Runtime.append fdos_genesis.Runtime.new_id fdos_genesis.Runtime.find_delivery
    fdos_genesis.Runtime.Events.event_type fdos_genesis.Runtime.Actors.normalize_actor
    fdos_genesis.Domain.Agents.resolve_agent fdos_genesis.Domain.Agents.get_agent
    fdos_genesis.Kernel.JsMap.get fdos_genesis.Kernel.JsMap.set fdos_genesis.Kernel.Store.read_clock
    fdos_genesis.Kernel.Store.make_id fdos_genesis.Kernel.Store.append
    fdos_genesis.Kernel.Store.append_now fdos_genesis.Kernel.Store.assert_writable
    fdos_genesis.Kernel.Store.assert_open fdos_genesis.Kernel.EventLog.create_audit_event
    fdos_genesis.Kernel.EventLog.validate_actor
    fdos_genesis.Kernel.EventLog.normalize_transaction_id fdos_genesis.Kernel.EventLog.is_actor_id
    fdos_genesis.Kernel.EventLog.is_role_id fdos_genesis.Kernel.EventLog.is_event_type
    fdos_genesis.Kernel.Validation.required_string fdos_genesis.Kernel.Validation.assert_id
    fdos_genesis.Kernel.Validation.is_id fdos_genesis.Kernel.Validation.is_connector_id
    fdos_genesis.Kernel.Text.trim fdos_genesis.Kernel.Text.trim_start
    fdos_genesis.Kernel.Text.trim_end fdos_genesis.Kernel.Text.text_length
    fdos_genesis.Kernel.Text.starts_with fdos_genesis.Kernel.Text.skip
    fdos_genesis.Kernel.Text.every_char fdos_genesis.Kernel.Text.cut
    fdos_genesis.Kernel.Text.is_digest fdos_genesis.Reducer.Apply.apply_runtime_event
    fdos_genesis.Reducer.Apply.attribution fdos_genesis.Reducer.Apply.dispatch
    fdos_genesis.Reducer.Invocations.check_attribution fdos_genesis.Reducer.Store.update_task
    fdos_genesis.Reducer.Store.update_run fdos_genesis.Reducer.Store.update_approval
    fdos_genesis.Reducer.Store.update_delivery fdos_genesis.Reducer.Store.require_run
    fdos_genesis.Reducer.Store.require_task fdos_genesis.Domain.Catalog.get
    fdos_genesis.Domain.Roles.get fdos_genesis.Domain.Roles.has_capability
    fdos_genesis.Domain.Roles.assert_capability fdos_genesis.Domain.Intent.verify_action_intent
    fdos_genesis.Domain.Intent.execution_mode_for fdos_genesis.Runtime.Completion.complete_task
    fdos_genesis.Runtime.Completion.assert_delivered
    fdos_genesis.Runtime.Completion.assert_result_contract
    fdos_genesis.Runtime.Completion.release_handoff_parents
    fdos_genesis.Runtime.Completion.return_parent
    fdos_genesis.Runtime.Completion.release_workflow_dependencies
    fdos_genesis.Runtime.Completion.ready_task
    fdos_genesis.Runtime.Completion.finalize_run_if_complete
    fdos_genesis.Runtime.Completion.complete_run fdos_genesis.Runtime.Completion.evidence_of
    fdos_genesis.Runtime.Completion.filter_tasks fdos_genesis.Runtime.Completion.is_returned
    fdos_genesis.Runtime.Completion.is_released fdos_genesis.Runtime.Completion.tasks_of
    fdos_genesis.Runtime.Tasks.every_completed
    fdos_genesis.Domain.Connectors.Registry.has_action_type fdos_genesis.Kernel.Exec.for_each
    fdos_genesis.Runtime.Actors.attributed_system_actor fdos_genesis.Kernel.Store.last_event_hash
    fdos_genesis.Reducer.Workflow.complete_task fdos_genesis.Reducer.Workflow.complete_run
completion_returns = refl

complete_task-IsCompletable_example :
    IsCompletable office before_completion "task_000001" agent_actor Json.end
complete_task-IsCompletable_example =
    complete_task-IsCompletable office "task_000001" agent_actor Json.end before_completion
      completion_returns
