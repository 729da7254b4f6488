-- ===== src/Reducer/Workflow.antt =====
-- runtime/state.js: the events of runs, tasks and handoffs.
use fdos_genesis.Prelude.{
  ℕ, ◌+◌, Bool, true, false, not, ◌||◌, String, Option, none, some, List, [], ◌∷◌, ◌++◌, ◌is◌,
  if◌then◌else◌,
}
use fdos_genesis.Kernel.Result.{Result, ok, err, integrity, or_throw}
use fdos_genesis.Kernel.Result
use fdos_genesis.Kernel.Exec.{Exec, pure, reading, modify, throw_if, ◌>>=◌, ◌>>◌}
use fdos_genesis.Kernel.Validation.{Stamp}
use fdos_genesis.Kernel.Json.{Fields}
use fdos_genesis.Kernel.JsMap.{JsMap}
use fdos_genesis.Kernel.JsMap
use fdos_genesis.Model.{State, Run, RunStatus, Task, TaskStatus, UnsignedDefinition}
use fdos_genesis.Reducer.Store.{require_run, require_task, update_run, update_task}

abbrev pub set_run : String → Run → State → State
set_run id r s = record s { runs = JsMap.set id r s.runs }

abbrev pub set_task : String → Task → State → State
set_task id t s = record s { tasks = JsMap.set id t s.tasks }

-- The loop over the tasks of a new run: a duplicate, or a task of another run, ends it.
unfoldable pub add_tasks : (run_id : String) → List Task → Exec State (Unit {0})
add_tasks run_id [] s = (ok tt, s)
add_tasks run_id (t ∷ ts) s =
    let rest = add_tasks run_id ts (set_task t.id t s) in
    if JsMap.has t.id s.tasks || not (t.run_id is run_id) then (err integrity, s) else rest

unfoldable pub start_run : (UnsignedDefinition → String) → Run → List Task → Exec State (Unit {0})
start_run digest_of run tasks s =
    if JsMap.has run.id s.runs
      || not (digest_of run.definition_snapshot.unsigned is run.definition_snapshot.digest)
    then (err integrity, s)
    else add_tasks run.id tasks (set_run run.id run s)

unfoldable pub ready_task : (task_id : String) → Stamp → Exec State (Unit {0})
ready_task task_id at = do
  update_task task_id
      (λ t. record t { status = TaskStatus.ready; waiting_reason = none; updated_at = at })
  pure tt

unfoldable pub claim_task : (task_id claimed_by : String) → Stamp → Exec State (Unit {0})
claim_task task_id claimed_by at = do
  update_task task_id (λ t. record t {
    status = TaskStatus.in_progress;
    claimed_by = some claimed_by;
    claimed_at = some at;
    updated_at = at;
  })
  pure tt

unfoldable pub complete_task :
    (task_id : String) → Fields → (result_digest : String) → Stamp → Exec State (Unit {0})
complete_task task_id result result_digest at = do
  update_task task_id (λ t. record t {
    status = TaskStatus.completed;
    result = some result;
    result_digest = some result_digest;
    completed_at = some at;
    updated_at = at;
    claimed_by = none;
  })
  pure tt

unfoldable pub fail_task : (task_id reason : String) → Bool → Stamp → Exec State (Unit {0})
fail_task task_id reason retryable at = do
  task ← update_task task_id (λ t. record t {
    status = TaskStatus.failed;
    failure = some (record { reason = reason; retryable = retryable; failed_at = at });
    claimed_by = none;
    updated_at = at;
  })
  update_run task.run_id (λ r. record r { status = RunStatus.failed; updated_at = at })
  pure tt

abbrev pub is_failed : TaskStatus → Bool
is_failed TaskStatus.failed = true
is_failed _ = false

-- `run.taskIds.some(…)`: whether another task of the run has failed.
unfoldable pub other_failed : (task_id : String) → JsMap Task → List String → Result Bool
other_failed task_id tasks [] = ok false
other_failed task_id tasks (id ∷ ids) =
    let rest = other_failed task_id tasks ids in
    if id is task_id
    then rest
    else Result.◌>>=◌ (or_throw (JsMap.get id tasks) integrity)
        (λ t. if is_failed t.status then ok true else rest)

unfoldable pub retry_task : (task_id : String) → (attempt : ℕ) → Stamp → Exec State (Unit {0})
retry_task task_id attempt at = do
  task ← update_task task_id (λ t. record t {
    status = TaskStatus.ready;
    attempt = attempt;
    failure = none;
    claimed_by = none;
    claimed_at = none;
    updated_at = at;
  })
  run ← require_run task.run_id
  still ← reading (λ s. other_failed task.id s.tasks run.task_ids)
  update_run task.run_id (λ r. record r {
    status = if still then RunStatus.failed else RunStatus.active;
    updated_at = at;
  })
  pure tt

unfoldable pub cancel_task : (task_id : String) → Stamp → Exec State (Unit {0})
cancel_task task_id at = do
  task ←
      update_task task_id
        (λ t. record t { status = TaskStatus.cancelled; claimed_by = none; updated_at = at })
  update_run task.run_id (λ r. record r { status = RunStatus.cancelled; updated_at = at })
  pure tt

abbrev pub wait_for : String → Stamp → Task → Task
wait_for child_id at t = record t {
  status = TaskStatus.waiting_handoff;
  claimed_by = none;
  updated_at = at;
  child_task_ids = t.child_task_ids ++ child_id ∷ [];
}

abbrev pub add_handoff : String → Stamp → Run → Run
add_handoff child_id at r = record r {
  task_ids = r.task_ids ++ child_id ∷ [];
  handoff_count = r.handoff_count + 1;
  updated_at = at;
}

unfoldable pub create_handoff : (parent_task_id : String) → Task → Stamp → Exec State (Unit {0})
create_handoff parent_task_id child at = do
  require_task parent_task_id
  throw_if (λ s. JsMap.has child.id s.tasks) integrity
  parent ← update_task parent_task_id (wait_for child.id at)
  modify (set_task child.id child)
  update_run parent.run_id (add_handoff child.id at)
  pure tt

unfoldable pub complete_run :
    (run_id evidence_digest : String) → Option String → Stamp → Exec State (Unit {0})
complete_run run_id evidence_digest head at = do
  update_run run_id (λ r. record r {
    status = RunStatus.completed;
    evidence_digest = some evidence_digest;
    evidence_base_head_hash = head;
    completed_at = some at;
    updated_at = at;
  })
  pure tt
