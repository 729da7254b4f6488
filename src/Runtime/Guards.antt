-- ===== src/Runtime/Guards.antt =====
-- What holds of the runtime before a command that returns: the guards of the commands.
pub mod Claims
pub mod Completions
pub mod Delegations
pub mod Deliveries
pub mod Retries
use fdos_genesis.Prelude.{
  ◌≡◌, refl, Bool-cases, inl, inr, String, Option, some, List, [], ◌∷◌, All, arith, subst,
  if◌then◌else◌, true,
}
use fdos_genesis.Kernel.Result.{Result, ok, not_found, or_throw, >>=-eq-ok, or_throw-eq-ok}
use fdos_genesis.Kernel.JsMap.{JsMap}
use fdos_genesis.Kernel.JsMap
use fdos_genesis.Model.{Task, TaskStatus}
use fdos_genesis.Model.{Run}
use fdos_genesis.Runtime.{Environment, Live, find_task, find_run}
use fdos_genesis.Runtime.Tasks.{is_completed, every_completed}

-- The task with this identifier is there and completed.
pub record IsFinished (tasks : JsMap Task) (id : String) : Type 0 where
  pub task : Task
  pub found : JsMap.get id tasks ≡ some task
  pub finished : task.status ≡ TaskStatus.completed

is_completed-eq-true : (s : TaskStatus) → is_completed s ≡ true → s ≡ TaskStatus.completed
is_completed-eq-true s h = ground arith

pub every_completed-IsFinished :
    (tasks : JsMap Task) (ids : List String)
    → every_completed tasks ids ≡ ok true
    → All (IsFinished tasks) ids
unfolding every_completed
every_completed-IsFinished tasks [] h = tt
every_completed-IsFinished tasks (id ∷ ids) h =
    let (t, p, rest) = >>=-eq-ok (or_throw (JsMap.get id tasks) not_found) _ h in
    elim (Bool-cases (is_completed t.status)) [
      | inl done ↦ (
        record {
          task = t;
          found = or_throw-eq-ok (JsMap.get id tasks) not_found p;
          finished = is_completed-eq-true t.status done;
        },
        every_completed-IsFinished tasks ids (rw done at rest),
      )
      | inr open_ ↦ let wrong = rw open_ at rest in ground arith
    ]

module _ (env : Environment) where
  pub find_task-eq-ok :
      (id : String) (r : Live env) {task : Task}
      → find_task env id r ≡ ok task
      → JsMap.get id r.state.tasks ≡ some task
  unfolding find_task
  find_task-eq-ok id r h = or_throw-eq-ok (JsMap.get id r.state.tasks) not_found h

  pub find_run-eq-ok :
      (id : String) (r : Live env) {run : Run}
      → find_run env id r ≡ ok run
      → JsMap.get id r.state.runs ≡ some run
  unfolding find_run
  find_run-eq-ok id r h = or_throw-eq-ok (JsMap.get id r.state.runs) not_found h
