-- ===== src/Runtime/Keeps.antt =====
-- runtime/fdos-runtime.js: conditions on a runtime under `append`, `now` and new identifiers, and so
-- under the commands, which change it by nothing else.
pub mod Tasks
pub mod Outbox
pub mod Others
pub mod Gateway
use fdos_genesis.Prelude.{
  ℕ, Bool, true, false, Bool-cases, inl, inr, String, Option, none, some, List, [], ◌∷◌,
  if◌then◌else◌,
}
use fdos_genesis.Kernel.Exec.{Exec, ◌>>=◌, ◌>>◌, reading}
use fdos_genesis.Kernel.Exec.Holds.{
  Holds, Weakens, Holds-pure, Holds-lift, Holds-reading, Holds-bind, Holds-throw_if, Holds-if,
  for_each-Holds,
}
use fdos_genesis.Kernel.Json.{Fields}
use fdos_genesis.Kernel.EventLog.{Actor}
use fdos_genesis.Model.{Run, Task}
use fdos_genesis.Reducer.Payload.{Payload}
use fdos_genesis.Runtime.{Environment, Live, now, new_id, append, mutate, assert_open}
use fdos_genesis.Runtime.Tasks.{consume, claim_task, fail_task, retry_task, cancel_task}
use fdos_genesis.Runtime.Completion.{
  return_parent, release_handoff_parents, ready_task, release_workflow_dependencies, complete_run,
  finalize_run_if_complete, complete_task,
}

module _ (env : Environment) where
  -- The condition `P` is kept, and `E` is what is left of it when the event is refused.
  pub record Kept (P E : Live env → Type 0) : Type 0 where
    pub weakens : Weakens P E
    pub appends :
        (actor : Actor) (subject : String) (payload : Payload)
        → Holds P E (append env actor subject payload)
    pub reads_clock : Holds P E (now env)
    pub makes_ids : (prefix : String) → Holds P E (new_id env prefix)

  module _ {P E : Live env → Type 0} (k : Kept P E) where
    pub Kept-Weakens : Weakens P E
    Kept-Weakens = k.weakens

    pub mutate-Holds : {A : Type 0} (m : Exec (Live env) A) → Holds P E m → Holds P E (mutate env m)
    unfolding mutate
    mutate-Holds m h =
        Holds-bind (reading (assert_open env)) (λ _. m) (Holds-reading _ k.weakens) (λ _. h)

    pub append-Holds :
        (actor : Actor) (subject : String) (payload : Payload)
        → Holds P E (append env actor subject payload)
    append-Holds = k.appends

    pub now-Holds : Holds P E (now env)
    now-Holds = k.reads_clock

    pub new_id-Holds : (prefix : String) → Holds P E (new_id env prefix)
    new_id-Holds = k.makes_ids

pub ruleset command_rules = (
  mutate-Holds, append-Holds, now-Holds, new_id-Holds, Kept-Weakens, Holds-bind, Holds-pure,
  Holds-lift, Holds-reading, Holds-throw_if, Holds-if, for_each-Holds,
)
