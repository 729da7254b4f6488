-- ===== src/Runtime/Guards/Delegations.antt =====
-- What a handoff takes, and what the handed-off task is.
use fdos_genesis.Prelude.{
  ◌+◌, ◌≤◌, ◌<◌, ◌≡◌, refl, subst, true, false, not, String, some, arith, leb,
}
use fdos_genesis.Kernel.Result.{
  ok, authorization, conflict, policy, guard, or_throw, >>-eq-ok, >>=-eq-ok, guard-eq-ok,
  or_throw-eq-ok,
}
use fdos_genesis.Kernel.Exec.{lift, reading}
use fdos_genesis.Kernel.Exec.Inversion.{bind_returned, ok-injective}
use fdos_genesis.Kernel.Validation.{required_string, unique_strings, anything, iso}
use fdos_genesis.Kernel.JsMap
use fdos_genesis.Kernel.EventLog.{Actor}
use fdos_genesis.Domain.Catalog.{a3, risk_rank, risk_at_least}
use fdos_genesis.Domain.Intent.{ActionIntent, create_action_intent}
use fdos_genesis.Domain.Roles.{assert_capability}
use fdos_genesis.Domain.Connectors.{is_field_name}
use fdos_genesis.Model.{Run, Task}
use fdos_genesis.Reducer.Payload.{Payload}
use fdos_genesis.Runtime.{
  Environment, Live, now, new_id, append, find_task, find_run, mutate, assert_open,
}
use fdos_genesis.Runtime.Actors.{normalize_actor}
use fdos_genesis.Runtime.Tasks.{is_run_active, held_by}
use fdos_genesis.Runtime.Handoffs.{
  Handoff, child_task, sort_texts, check_budget, check_delegation, handoff_intent, handoff_task,
}
use fdos_genesis.Runtime.Guards.{find_task-eq-ok, find_run-eq-ok}

module _ (env : Environment) where
  -- A handoff within the budgets of a run.
  pub record IsWithin (run : Run) (parent : Task) : Type 0 where
    pub run_active : is_run_active run.status ≡ true
    pub count_left : run.handoff_count < run.definition_snapshot.max_handoffs_per_run
    pub depth_left : parent.handoff_depth + 1 ≤ run.definition_snapshot.max_handoff_depth

  check_budget-IsWithin :
      (run : Run) (parent : Task) → check_budget env run parent ≡ ok tt → IsWithin run parent
  unfolding check_budget
  check_budget-IsWithin run parent h =
      let ((u₀, p₀), h₀) = >>-eq-ok (guard (is_run_active run.status) conflict) _ h in
      let ((u₁, p₁), h₁) =
        >>-eq-ok
          (guard (not (leb run.definition_snapshot.max_handoffs_per_run run.handoff_count)) policy)
          _ h₀ in
      record {
        run_active = guard-eq-ok (is_run_active run.status) conflict p₀;
        count_left = ground (arith, p₁);
        depth_left = ground (arith, h₁);
      }

  abbrev MayDelegate : Actor → Task → Type 0
  MayDelegate actor parent =
      (held_by parent actor ≡ true)
      × ((role : String) × (actor.role_id ≡ some role)
          × (assert_capability env.roles role "task:delegate" ≡ ok tt))

  check_delegation-eq-ok :
      (actor : Actor) (parent : Task) (target_role_id : String)
      → check_delegation env actor parent target_role_id ≡ ok tt
      → MayDelegate actor parent
  unfolding check_delegation
  check_delegation-eq-ok actor parent target_role_id h =
      let ((u₀, p₀), h₀) = >>-eq-ok (guard (held_by parent actor) conflict) _ h in
      let (role, p₁, h₁) = >>=-eq-ok (or_throw actor.role_id authorization) _ h₀ in
      let ((u₂, p₂), h₂) = >>-eq-ok (assert_capability env.roles role "task:delegate") _ h₁ in
      (
        guard-eq-ok (held_by parent actor) conflict p₀,
        (role, or_throw-eq-ok actor.role_id authorization p₁, p₂),
      )

  abbrev IsDelegable : Handoff → ActionIntent → Type 0
  IsDelegable handoff intent =
      (risk_rank intent.risk_class < 3)
      × (assert_capability env.roles handoff.target_role_id intent.capability ≡ ok tt)

  handoff_intent-IsDelegable :
      (parent : Task) (handoff : Handoff) (context : String) {intent : ActionIntent}
      → handoff_intent env parent handoff context ≡ ok intent
      → IsDelegable handoff intent
  unfolding handoff_intent
  handoff_intent-IsDelegable parent handoff context {intent} h =
      let (made, p₀, h₀) =
        >>=-eq-ok (create_action_intent env.calls.intent_digest env.catalog _ _ _ _ _) _ h in
      let ((u₁, p₁), h₁) = >>-eq-ok (guard (not (risk_at_least made.risk_class a3)) policy) _ h₀ in
      let ((u₂, p₂), h₂) =
        >>-eq-ok (assert_capability env.roles handoff.target_role_id made.capability) _ h₁ in
      let same : made ≡ intent = ground (arith, h₂) in
      subst (IsDelegable handoff) same (ground (arith, p₁), p₂)

  -- The parent, the run and the handed-off task.
  pub record IsDelegated (r : Live env) (task_id : String) (actor : Actor) (handoff : Handoff)
      (child : Task) : Type 0 where
    pub parent : Task
    pub run : Run
    pub known : Actor
    pub by_actor : normalize_actor env.agents false true actor ≡ ok known
    pub found : JsMap.get task_id r.state.tasks ≡ some parent
    pub in_run : JsMap.get parent.run_id r.state.runs ≡ some run
    pub entitled : MayDelegate known parent
    pub within : IsWithin run parent
    pub harmless : IsDelegable handoff child.action_intent
    pub one_deeper : child.handoff_depth ≡ parent.handoff_depth + 1
    pub same_root : child.root_task_id ≡ parent.root_task_id
    pub owned : child.owner_role_id ≡ handoff.target_role_id

  -- A handoff that returns a task was made by an actor that the runtime takes for the holder of the
  -- parent task, in a role that may
  -- delegate, in an active run whose count of handoffs was below the limit; the returned task is one
  -- handoff deeper than its parent and not deeper than the limit, has the root task of its parent,
  -- belongs to the target role, and its intent has a risk below A3 and a capability of that role.
  pub handoff_task-IsDelegated :
      (task_id : String) (actor : Actor) (handoff : Handoff) (r : Live env) {t : Task}
      → (handoff_task env task_id actor handoff r).0 ≡ ok t
      → IsDelegated r task_id actor handoff t
  unfolding handoff_task mutate
  handoff_task-IsDelegated task_id actor handoff r {t} h =
      let (u, p₀, h₀) = bind_returned (reading (assert_open env)) _ r h in
      let (known, p₁, h₁) =
        bind_returned (lift (normalize_actor env.agents false true actor)) _ r h₀ in
      let (parent, p₂, h₂) = bind_returned (reading (find_task env task_id)) _ r h₁ in
      let (v, p₃, h₃) =
        bind_returned (lift (check_delegation env known parent handoff.target_role_id)) _ r h₂ in
      let (run, p₄, h₄) = bind_returned (reading (find_run env parent.run_id)) _ r h₃ in
      let (w, p₅, h₅) = bind_returned (lift (check_budget env run parent)) _ r h₄ in
      let (context, p₆, h₆) =
        bind_returned (lift (required_string 1 8000 anything handoff.context)) _ r h₅ in
      let (id, p₇, h₇) = bind_returned (new_id env "task") _ r h₆ in
      let r₁ = (new_id env "task" r).1 in
      let (intent, p₈, h₈) =
        bind_returned (lift (handoff_intent env parent handoff context)) _ r₁ h₇ in
      let (at, p₉, h₉) = bind_returned (now env) _ r₁ h₈ in
      let r₂ = (now env r₁).1 in
      let (title, q₀, g₀) =
        bind_returned (lift (required_string 1 200 anything handoff.title)) _ r₂ h₉ in
      let (desired, q₁, g₁) =
        bind_returned (lift (required_string 1 1000 anything handoff.desired_outcome)) _ r₂ g₀ in
      let (fields, q₂, g₂) =
        bind_returned (lift (unique_strings 32 is_field_name handoff.required_output_fields)) _ r₂
          g₁ in
      let child =
        child_task parent run handoff known intent id title context desired (sort_texts fields)
          at in
      let (x, q₃, g₃) =
        bind_returned
          (append env known parent.id (Payload.handoff_created parent.id child (iso at))) _ r₂ g₂ in
      let same : child ≡ t = ok-injective g₃ in
      subst (IsDelegated r task_id actor handoff) same (record {
        parent = parent;
        run = run;
        known = known;
        by_actor = p₁;
        found = find_task-eq-ok env task_id r p₂;
        in_run = find_run-eq-ok env parent.run_id r p₄;
        entitled = check_delegation-eq-ok known parent handoff.target_role_id p₃;
        within = check_budget-IsWithin run parent p₅;
        harmless = handoff_intent-IsDelegable parent handoff context p₈;
        one_deeper = refl;
        same_root = refl;
        owned = refl;
      })
