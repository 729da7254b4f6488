-- ===== src/Runtime/Guards/Completions.antt =====
-- What the completion of a task takes.
use fdos_genesis.Prelude.{
  ◌≡◌, refl, true, false, ◌&&◌, String, some, List, [], ◌∷◌, all, leb, arith, ◌is◌,
}
use fdos_genesis.Kernel.Result.{ok, conflict, validation, policy, guard, >>-eq-ok, guard-eq-ok}
use fdos_genesis.Kernel.Exec.{lift, reading}
use fdos_genesis.Kernel.Exec.Inversion.{bind_returned}
use fdos_genesis.Kernel.Json.{Fields, has_value}
use fdos_genesis.Kernel.JsMap
use fdos_genesis.Kernel.EventLog.{Actor}
use fdos_genesis.Domain.Intent.{verify_action_intent}
use fdos_genesis.Domain.Connectors.Registry.{has_action_type}
use fdos_genesis.Model.{Run, Task, Delivery, simulated}
use fdos_genesis.Reducer.Checks.{same_status}
use fdos_genesis.Runtime.{Environment, Live, find_task, find_run, mutate, assert_open}
use fdos_genesis.Runtime.Actors.{normalize_actor}
use fdos_genesis.Runtime.Tasks.{is_run_active, held_by}
use fdos_genesis.Runtime.Completion.{
  is_for, filter_values, is_delivered, assert_delivered, assert_result_contract, complete_task,
}
use fdos_genesis.Runtime.Guards.{find_task-eq-ok, find_run-eq-ok}

-- The only delivery of a list was simulated, and asked for by the actor.
abbrev pub IsOnlyDelivery : Actor → List Delivery → Type 0
IsOnlyDelivery actor ds =
    (d : Delivery) × (ds ≡ d ∷ [])
    × (same_status d.status simulated ≡ true)
    × ((d.intent.requested_by is actor.id) ≡ true)

is_delivered-eq-ok :
    (actor : Actor) (ds : List Delivery) → is_delivered actor ds ≡ ok tt → IsOnlyDelivery actor ds
is_delivered-eq-ok actor [] h = cc
is_delivered-eq-ok actor (d ∷ []) h =
    let both =
      guard-eq-ok (same_status d.status simulated && d.intent.requested_by is actor.id) policy h in
    (d, refl, ground arith, ground arith)
is_delivered-eq-ok actor (d ∷ e ∷ ds) h = cc

module _ (env : Environment) where
  pub record IsCompletable (r : Live env) (task_id : String) (actor : Actor) (result : Fields)
      : Type 0 where
    pub task : Task
    pub run : Run
    pub known : Actor
    pub by_actor : normalize_actor env.agents false true actor ≡ ok known
    pub found : JsMap.get task_id r.state.tasks ≡ some task
    pub in_run : JsMap.get task.run_id r.state.runs ≡ some run
    pub run_active : is_run_active run.status ≡ true
    pub held : held_by task known ≡ true
    pub verified :
        verify_action_intent env.calls.intent_digest task.action_intent env.catalog ≡ ok tt
    pub delivered :
        has_action_type env.connectors task.action_intent.action_type ≡ true
        → IsOnlyDelivery known (filter_values (is_for task) r.state.outbox)
    pub fields_given : all (λ name. has_value name result) task.required_fields ≡ true

  assert_delivered-eq-ok :
      (known : Actor) (task : Task) (r : Live env)
      → assert_delivered env known task r ≡ ok tt
      → has_action_type env.connectors task.action_intent.action_type ≡ true
      → IsOnlyDelivery known (filter_values (is_for task) r.state.outbox)
  unfolding assert_delivered
  assert_delivered-eq-ok known task r h contracted =
      is_delivered-eq-ok known (filter_values (is_for task) r.state.outbox) (rw contracted at h)

  assert_result_contract-eq-ok :
      (task : Task) (result : Fields)
      → assert_result_contract env task result ≡ ok tt
      → all (λ name. has_value name result) task.required_fields ≡ true
  unfolding assert_result_contract
  assert_result_contract-eq-ok task result h =
      let ((u, p), rest) =
        >>-eq-ok (guard (leb (env.calls.byte_length result) 131072) validation) _ h in
      guard-eq-ok (all (λ name. has_value name result) task.required_fields) validation rest

  -- A completion of a task that returns was made by an actor that the runtime takes for the holder of
  -- the task, in an active
  -- run, with a verified intent and a result that has every required field; and if the action is a
  -- connector's, there was exactly one delivery for this attempt of the task and its intent, which
  -- was simulated and which the same actor had asked for.
  pub complete_task-IsCompletable :
      (task_id : String) (actor : Actor) (result : Fields) (r : Live env) {t : Task}
      → (complete_task env task_id actor result r).0 ≡ ok t
      → IsCompletable r task_id actor result
  unfolding complete_task mutate
  complete_task-IsCompletable task_id actor result r h =
      let (u, p₀, h₀) = bind_returned (reading (assert_open env)) _ r h in
      let (known, p₁, h₁) =
        bind_returned (lift (normalize_actor env.agents false true actor)) _ r h₀ in
      let (task, p₂, h₂) = bind_returned (reading (find_task env task_id)) _ r h₁ in
      let (run, p₃, h₃) = bind_returned (reading (find_run env task.run_id)) _ r h₂ in
      let (v, p₄, h₄) = bind_returned (lift (guard (is_run_active run.status) conflict)) _ r h₃ in
      let (w, p₅, h₅) = bind_returned (lift (guard (held_by task known) conflict)) _ r h₄ in
      let (x, p₆, h₆) =
        bind_returned
          (lift (verify_action_intent env.calls.intent_digest task.action_intent env.catalog)) _ r
          h₅ in
      let (y, p₇, h₇) = bind_returned (reading (assert_delivered env known task)) _ r h₆ in
      let (z, p₈, h₈) = bind_returned (lift (assert_result_contract env task result)) _ r h₇ in
      record {
        task = task;
        run = run;
        known = known;
        by_actor = p₁;
        found = find_task-eq-ok env task_id r p₂;
        in_run = find_run-eq-ok env task.run_id r p₃;
        run_active = guard-eq-ok (is_run_active run.status) conflict p₄;
        held = guard-eq-ok (held_by task known) conflict p₅;
        verified = p₆;
        delivered = assert_delivered-eq-ok known task r p₇;
        fields_given = assert_result_contract-eq-ok task result p₈;
      }
