-- ===== src/Runtime.antt =====
-- runtime/fdos-runtime.js: `FdosRuntime`, its event log and its state, and what all its commands use:
-- `now`, `append`, `rehydrate`, `mutate` and the lookups. One command runs at a time.
pub mod Events
pub mod Actors
pub mod Tasks
pub mod Completion
pub mod Approvals
pub mod Outbox
pub mod Reports
pub mod Review
pub mod Memories
pub mod Handoffs
pub mod Authenticated
pub mod Gateway
pub mod Faithful
pub mod Exact
pub mod Saved
pub mod Atomic
pub mod Keeps
pub mod Guards
use fdos_genesis.Prelude.{
  ℕ, Bool, true, false, String, Option, none, some, List, if◌then◌else◌, ◌∷◌, [], ◌&&◌,
}
use fdos_genesis.Kernel.Result.{FdosError, Result, ok, err, conflict, not_found, or_throw}
use fdos_genesis.Kernel.Result
use fdos_genesis.Kernel.Exec.{Exec, pure, lift, reading, modify, zoom, ◌>>=◌, ◌>>◌}
use fdos_genesis.Kernel.Validation.{Stamp, assert_id}
use fdos_genesis.Kernel.Json.{Json, Fields}
use fdos_genesis.Kernel.JsMap.{JsMap}
use fdos_genesis.Kernel.JsMap
use fdos_genesis.Kernel.EventLog.{Actor, Event}
use fdos_genesis.Kernel.Store.{Sqlite, Outside, Store, read_clock, make_id}
use fdos_genesis.Kernel.Store
use fdos_genesis.Domain.Catalog.{Catalog}
use fdos_genesis.Domain.Intent.{UnsignedIntent}
use fdos_genesis.Domain.Roles.{Roles}
use fdos_genesis.Domain.Agents.{Agent}
use fdos_genesis.Domain.Connectors.Registry.{Registry}
use fdos_genesis.Domain.Connectors.Parameters.{Measures}
use fdos_genesis.Model.{
  State, empty_state, Run, Task, Approval, Memory, Delivery, Receipt, AcceptedInvocation,
}
use fdos_genesis.Reducer.Seals.{Seals}
use fdos_genesis.Reducer.Payload.{Payload, RuntimeEvent}
use fdos_genesis.Reducer.Apply.{apply_runtime_event, replay}
use fdos_genesis.Runtime.Events.{event_type}

-- What the evidence of a run says of a task and of a delivery.
pub record TaskEvidence : Type 0 where
  pub task_id : String
  pub step_id : String
  pub owner_role_id : String
  pub parent_task_id : Option String
  pub attempt : ℕ
  pub action_intent_digest : String
  pub result_digest : Option String

-- A command: its type and the rest of it.
pub record Command : Type 0 where
  pub type : String
  pub content : Json

-- The digests of the runtime (SHA-256 of canonical texts) and the other functions that it calls and
-- that are no part of this library: lengths in bytes, the order of texts by `localeCompare`, the
-- verification of a piece of source evidence, which gives its reference and its digest, and the
-- verification of a signed invocation, with the subject of its command.
pub record Calls : Type 0 where
  pub intent_digest : UnsignedIntent → String
  pub result_digest : Fields → String
  pub text_digest : String → String
  pub handoff_digest : (parent_id context_digest : String) → Fields → String
  pub expiry_digest : (delivery_id claim_id : String) → (expired_at detected_at : Stamp) → String
  pub evidence_digest :
      Run → List TaskEvidence → List Delivery → JsMap AcceptedInvocation → Option String → String
  pub failure_digest : FdosError → String
  pub byte_length : Fields → ℕ
  pub text_byte_length : String → ℕ
  pub list_byte_length : List Json → ℕ
  pub measures : Measures
  pub collates_after : Option Stamp → Option Stamp → Bool
  pub source_binding : Json → Result (String × String)
  pub verify_invocation : Option (Json → Command → Result Receipt)
  pub invocation_subject : Command → String → String

-- What a runtime is opened with.
pub record Environment : Type 1 where
  pub sqlite : Sqlite
  pub outside : Outside Payload
  pub seals : Seals
  pub catalog : Catalog
  pub roles : Roles
  pub agents : JsMap Agent
  pub connectors : Registry
  pub calls : Calls

pub record Runtime (D : Type 0) : Type 0 where
  pub store : Store D Payload
  pub state : State
  pub closed : Bool

module _ (env : Environment) where
  abbrev pub Live : Type 0
  Live = Runtime env.sqlite.Database

  abbrev pub store_of : Live → Store env.sqlite.Database Payload
  store_of r = r.store

  abbrev pub put_store : Store env.sqlite.Database Payload → Live → Live
  put_store st r = record r { store = st }

  abbrev pub state_of : Live → State
  state_of r = r.state

  abbrev pub put_state : State → Live → Live
  put_state s r = record r { state = s }

  unfoldable pub now : Exec Live ℕ
  now = zoom store_of put_store (read_clock env.outside)

  unfoldable pub new_id : String → Exec Live String
  new_id prefix = zoom store_of put_store (make_id env.outside prefix)

  -- The event is written to the log and then applied to the state in memory.
  unfoldable pub append : Actor → (subject : String) → Payload → Exec Live (Unit {0})
  append actor subject payload = do
    event ←
        zoom store_of put_store
          (Store.append env.sqlite env.outside (event_type payload) actor subject payload)
    zoom state_of put_state (apply_runtime_event env.seals event)

  -- The state is made again from the log.
  unfoldable pub rehydrate : Exec Live (Unit {0})
  rehydrate = do
    modify (put_state empty_state)
    events ← reading (λ r. Store.all env.sqlite env.outside r.store)
    zoom state_of put_state (replay env.seals events)

  unfoldable pub assert_open : Live → Result (Unit {0})
  assert_open r = if r.closed then err conflict else ok tt

  unfoldable pub mutate : {A : Type 0} → Exec Live A → Exec Live A
  mutate operation = do reading assert_open; operation

  unfoldable pub find_run : String → Live → Result Run
  find_run id r = or_throw (JsMap.get id r.state.runs) not_found

  unfoldable pub find_task : String → Live → Result Task
  find_task id r = or_throw (JsMap.get id r.state.tasks) not_found

  unfoldable pub find_approval : String → Live → Result Approval
  find_approval id r = or_throw (JsMap.get id r.state.approvals) not_found

  unfoldable pub find_delivery : String → Live → Result Delivery
  find_delivery id r =
      Result.◌>>=◌ (assert_id id) (λ known. or_throw (JsMap.get known r.state.outbox) not_found)
