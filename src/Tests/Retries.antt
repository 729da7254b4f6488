-- ===== src/Tests/Retries.antt =====
-- A retry of a task that failed.
use fdos_genesis.Prelude.{◌≡◌, refl, none, some, true, [], ◌∷◌}
use fdos_genesis.Kernel.Result.{ok}
use fdos_genesis.Kernel.Validation.{iso}
use fdos_genesis.Model.{Task, TaskStatus, DeliveryStatus, empty_state}
use fdos_genesis.Runtime.{Runtime}
use fdos_genesis.Runtime.Tasks.{retry_task}
use fdos_genesis.Runtime.Guards.Retries.{IsRetryable, retry_task-IsRetryable}
use fdos_genesis.Tests.Samples.{human_actor, delivery, delivery_id}
use fdos_genesis.Tests.Tables.{Tables}
use fdos_genesis.Tests.Office.{office, run, ready_task, before_claim}

abbrev failed_task : Task
failed_task = record ready_task {
  status = TaskStatus.failed;
  failure = some (record { reason = "No answer"; retryable = true; failed_at = iso 40 });
}

abbrev before_retry : Runtime Tables
before_retry = record before_claim {
  state = record empty_state {
    runs = ("run_000001", run) ∷ [];
    tasks = ("task_000001", failed_task) ∷ [];
    outbox = (delivery_id, record delivery { status = DeliveryStatus.cancelled }) ∷ [];
  };
}

abbrev retried_task : Task
retried_task = record failed_task {
  status = TaskStatus.ready;
  attempt = 2;
  failure = none;
  updated_at = iso 50;
}

retry_returns : (retry_task office "task_000001" human_actor before_retry).0 ≡ ok retried_task
unfolding fdos_genesis.Runtime.mutate fdos_genesis.Runtime.assert_open
    fdos_genesis.Runtime.find_task fdos_genesis.Runtime.find_run fdos_genesis.Runtime.now
    fdos_genesis.Runtime.append fdos_genesis.Runtime.new_id fdos_genesis.Runtime.find_delivery
    fdos_genesis.Runtime.Events.event_type fdos_genesis.Runtime.Actors.normalize_actor
    fdos_genesis.Domain.Agents.resolve_agent fdos_genesis.Domain.Agents.get_agent
    fdos_genesis.Kernel.JsMap.get fdos_genesis.Kernel.JsMap.set fdos_genesis.Kernel.Store.read_clock
    fdos_genesis.Kernel.Store.make_id fdos_genesis.Kernel.Store.append
    fdos_genesis.Kernel.Store.append_now fdos_genesis.Kernel.Store.assert_writable
    fdos_genesis.Kernel.Store.assert_open fdos_genesis.Kernel.EventLog.create_audit_event
    fdos_genesis.Kernel.EventLog.validate_actor
    fdos_genesis.Kernel.EventLog.normalize_transaction_id fdos_genesis.Kernel.EventLog.is_actor_id
    fdos_genesis.Kernel.EventLog.is_role_id fdos_genesis.Kernel.EventLog.is_event_type
    fdos_genesis.Kernel.Validation.required_string fdos_genesis.Kernel.Validation.assert_id
    fdos_genesis.Kernel.Validation.is_id fdos_genesis.Kernel.Validation.is_connector_id
    fdos_genesis.Kernel.Text.trim fdos_genesis.Kernel.Text.trim_start
    fdos_genesis.Kernel.Text.trim_end fdos_genesis.Kernel.Text.text_length
    fdos_genesis.Kernel.Text.starts_with fdos_genesis.Kernel.Text.skip
    fdos_genesis.Kernel.Text.every_char fdos_genesis.Kernel.Text.cut
    fdos_genesis.Kernel.Text.is_digest fdos_genesis.Reducer.Apply.apply_runtime_event
    fdos_genesis.Reducer.Apply.attribution fdos_genesis.Reducer.Apply.dispatch
    fdos_genesis.Reducer.Invocations.check_attribution fdos_genesis.Reducer.Store.update_task
    fdos_genesis.Reducer.Store.update_run fdos_genesis.Reducer.Store.update_approval
    fdos_genesis.Reducer.Store.update_delivery fdos_genesis.Reducer.Store.require_run
    fdos_genesis.Reducer.Store.require_task fdos_genesis.Domain.Catalog.get
    fdos_genesis.Domain.Roles.get fdos_genesis.Domain.Roles.has_capability
    fdos_genesis.Domain.Roles.assert_capability fdos_genesis.Domain.Intent.verify_action_intent
    fdos_genesis.Domain.Intent.execution_mode_for fdos_genesis.Runtime.Tasks.retry_task
    fdos_genesis.Runtime.Tasks.check_retryable fdos_genesis.Runtime.Actors.require_human
    fdos_genesis.Runtime.Actors.is_human_id fdos_genesis.Reducer.Workflow.retry_task
    fdos_genesis.Reducer.Workflow.other_failed
retry_returns = refl

retry_task-IsRetryable_example : IsRetryable office before_retry "task_000001" human_actor
retry_task-IsRetryable_example =
    retry_task-IsRetryable office "task_000001" human_actor before_retry retry_returns
