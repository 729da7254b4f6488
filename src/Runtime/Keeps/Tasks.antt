-- ===== src/Runtime/Keeps/Tasks.antt =====
-- The commands on tasks.
use fdos_genesis.Prelude.{ℕ, Bool, String, Option, none, some, List}
use fdos_genesis.Kernel.Exec.Holds.{Holds}
use fdos_genesis.Kernel.Json.{Fields}
use fdos_genesis.Kernel.EventLog.{Actor}
use fdos_genesis.Model.{Run, Task}
use fdos_genesis.Runtime.{Environment, Live}
use fdos_genesis.Runtime.Tasks.{consume, claim_task, fail_task, retry_task, cancel_task}
use fdos_genesis.Runtime.Completion.{
  return_parent, release_handoff_parents, ready_task, release_workflow_dependencies, complete_run,
  finalize_run_if_complete, complete_task,
}
use fdos_genesis.Runtime.Keeps.{Kept, command_rules}
use fdos_genesis.Runtime.Handoffs.{Handoff, handoff_task}

module _ (env : Environment) {P E : Live env → Type 0} (k : Kept env P E) where
  consume-Holds :
      (actor : Actor) (task : Task) (id : Option String) (at : ℕ)
      → Holds P E (consume env actor task id at)
  unfolding consume
  consume-Holds actor task none at = search command_rules
  consume-Holds actor task (some id) at = search command_rules

  pub claim_task-Holds : (id : String) (actor : Actor) → Holds P E (claim_task env id actor)
  unfolding claim_task
  claim_task-Holds id actor = search (command_rules, consume-Holds) depth 60 fits 3000

  pub fail_task-Holds :
      (id : String) (actor : Actor) (reason : String) (retryable : Bool)
      → Holds P E (fail_task env id actor reason retryable)
  unfolding fail_task
  fail_task-Holds id actor reason retryable = search command_rules depth 60 fits 3000

  pub retry_task-Holds : (id : String) (actor : Actor) → Holds P E (retry_task env id actor)
  unfolding retry_task
  retry_task-Holds id actor = search command_rules depth 60 fits 3000

  pub cancel_task-Holds :
      (id : String) (actor : Actor) (reason : String) → Holds P E (cancel_task env id actor reason)
  unfolding cancel_task
  cancel_task-Holds id actor reason = search command_rules depth 60 fits 3000

  return_parent-Holds : (trigger : Actor) (t : Task) → Holds P E (return_parent env trigger t)
  unfolding return_parent
  return_parent-Holds trigger t = search command_rules

  ready_task-Holds : (trigger : Actor) (t : Task) → Holds P E (ready_task env trigger t)
  unfolding ready_task
  ready_task-Holds trigger t = search command_rules

  release_handoff_parents-Holds :
      (run_id : String) (trigger : Actor) → Holds P E (release_handoff_parents env run_id trigger)
  unfolding release_handoff_parents
  release_handoff_parents-Holds run_id trigger = search (command_rules, return_parent-Holds)

  release_workflow_dependencies-Holds :
      (run_id : String) (trigger : Actor)
      → Holds P E (release_workflow_dependencies env run_id trigger)
  unfolding release_workflow_dependencies
  release_workflow_dependencies-Holds run_id trigger =
      search (command_rules, ready_task-Holds) depth 20

  complete_run-Holds :
      (run : Run) (tasks : List Task) (trigger : Actor)
      → Holds P E (complete_run env run tasks trigger)
  unfolding complete_run
  complete_run-Holds run tasks trigger = search command_rules depth 20

  finalize_run_if_complete-Holds :
      (run_id : String) (trigger : Actor) → Holds P E (finalize_run_if_complete env run_id trigger)
  unfolding finalize_run_if_complete
  finalize_run_if_complete-Holds run_id trigger =
      search (command_rules, complete_run-Holds) depth 30 fits 3000

  pub complete_task-Holds :
      (id : String) (actor : Actor) (result : Fields)
      → Holds P E (complete_task env id actor result)
  unfolding complete_task
  complete_task-Holds id actor result =
      search
        (
          command_rules, release_handoff_parents-Holds, release_workflow_dependencies-Holds,
          finalize_run_if_complete-Holds,
        )
        depth 60 fits 3000

  pub handoff_task-Holds :
      (id : String) (actor : Actor) (h : Handoff) → Holds P E (handoff_task env id actor h)
  unfolding handoff_task
  handoff_task-Holds id actor h = search command_rules depth 60 fits 3000
