-- ===== src/Runtime/Guards/Claims.antt =====
-- What a claim of a task takes.
use fdos_genesis.Prelude.{sym, ◌≡◌, ℕ, true, String, Option, none, some, All, arith, ap, ◌∙◌, false}
use fdos_genesis.Kernel.Result.{ok, conflict, guard, >>=-eq-ok, >>-eq-ok, guard-eq-ok}
use fdos_genesis.Kernel.Exec.{lift, reading}
use fdos_genesis.Kernel.Exec.Inversion.{bind_returned, ok-injective}
use fdos_genesis.Kernel.JsMap
use fdos_genesis.Kernel.Store.{read_clock}
use fdos_genesis.Kernel.EventLog.{Actor}
use fdos_genesis.Domain.Policy.{
  PolicyDecision, human_approval_required, allowed, evaluate_task_execution,
}
use fdos_genesis.Domain.Policy.Allowed.{Authorized, evaluate_task_execution-Authorized}
use fdos_genesis.Model.{Run, Task}
use fdos_genesis.Runtime.{Environment, Live, now, find_task, find_run, mutate, assert_open}
use fdos_genesis.Runtime.Actors.{normalize_actor}
use fdos_genesis.Runtime.Tasks.{
  is_run_active, is_ready, every_completed, check_claimable, decide_claim, consumed, approves,
  latest_approval, claim_task,
}
use fdos_genesis.Runtime.Guards.{
  IsFinished, every_completed-IsFinished, find_task-eq-ok, find_run-eq-ok,
}

module _ (env : Environment) where
  -- A task that may be claimed in a state, with its run.
  pub record IsClaimable (r : Live env) (task : Task) (run : Run) : Type 0 where
    pub run_active : is_run_active run.status ≡ true
    pub ready : is_ready task.status ≡ true
    pub dependencies : All (IsFinished r.state.tasks) task.dependencies
    pub children : All (IsFinished r.state.tasks) task.child_task_ids

  check_claimable-IsClaimable :
      (run : Run) (task : Task) (r : Live env)
      → check_claimable env run task r ≡ ok tt
      → IsClaimable r task run
  unfolding check_claimable
  check_claimable-IsClaimable run task r h =
      let ((u₀, p₀), h₀) = >>-eq-ok (guard (is_run_active run.status) conflict) _ h in
      let ((u₁, p₁), h₁) = >>-eq-ok (guard (is_ready task.status) conflict) _ h₀ in
      let (d, p₂, h₂) = >>=-eq-ok (every_completed r.state.tasks task.dependencies) _ h₁ in
      let ((u₃, p₃), h₃) = >>-eq-ok (guard d conflict) _ h₂ in
      let (c, p₄, h₄) = >>=-eq-ok (every_completed r.state.tasks task.child_task_ids) _ h₃ in
      let d_holds : d ≡ true = guard-eq-ok d conflict p₃ in
      let c_holds : c ≡ true = guard-eq-ok c conflict h₄ in
      record {
        run_active = guard-eq-ok (is_run_active run.status) conflict p₀;
        ready = guard-eq-ok (is_ready task.status) conflict p₁;
        dependencies =
            every_completed-IsFinished r.state.tasks task.dependencies (p₂ ∙ ap ok d_holds);
        children =
            every_completed-IsFinished r.state.tasks task.child_task_ids (p₄ ∙ ap ok c_holds);
      }

  consumed-eq-ok :
      (d : PolicyDecision) {used : Option String} → consumed env d ≡ ok used → d ≡ allowed used
  consumed-eq-ok human_approval_required h = cc
  consumed-eq-ok (allowed id) h = ground arith

  now-eq-ok :
      (r : Live env) {at : ℕ} → (now env r).0 ≡ ok at → at ≡ env.outside.clock r.store.readings
  unfolding now read_clock
  now-eq-ok r h = sym (ok-injective h)

  -- What a claim that returns was given: `known` is what the runtime takes the actor for, and `at`
  -- what the clock says when it is first read.
  pub record IsGranted (r : Live env) (task_id : String) (actor : Actor) : Type 0 where
    pub task : Task
    pub run : Run
    pub known : Actor
    pub at : ℕ
    pub used : Option String
    pub by_actor : normalize_actor env.agents false true actor ≡ ok known
    pub at_clock : at ≡ env.outside.clock r.store.readings
    pub found : JsMap.get task_id r.state.tasks ≡ some task
    pub in_run : JsMap.get task.run_id r.state.runs ≡ some run
    pub claimable : IsClaimable r task run
    pub authorized :
        Authorized env.calls.intent_digest env.catalog env.roles known task
          (latest_approval env (approves task at) none r.state.approvals)
          at
          used

  decide_claim-Authorized :
      (known : Actor) (task : Task) (at : ℕ) (r : Live env) {used : Option String}
      → decide_claim env known task at r ≡ ok used
      → Authorized env.calls.intent_digest env.catalog env.roles known task
          (latest_approval env (approves task at) none r.state.approvals)
          at
          used
  unfolding decide_claim
  decide_claim-Authorized known task at r {used} h =
      let approval = latest_approval env (approves task at) none r.state.approvals in
      let (d, p, rest) =
        >>=-eq-ok
          (evaluate_task_execution env.calls.intent_digest env.catalog env.roles known task approval
            at)
          _ h in
      evaluate_task_execution-Authorized env.calls.intent_digest env.catalog env.roles known task
        approval at (p ∙ ap ok (consumed-eq-ok d rest))

  -- A claim of a task that returns was made on a ready task of an active run, all of whose
  -- dependencies and handed-off children are completed, and the policy allows its execution by what
  -- the runtime takes the calling actor for, at the time that the clock gives to the claim, with the
  -- approval that was decided last.
  pub claim_task-IsGranted :
      (task_id : String) (actor : Actor) (r : Live env) {t : Task}
      → (claim_task env task_id actor r).0 ≡ ok t
      → IsGranted r task_id actor
  unfolding claim_task mutate now
  claim_task-IsGranted task_id actor r h =
      let (u, p₀, h₀) = bind_returned (reading (assert_open env)) _ r h in
      let (known, p₁, h₁) =
        bind_returned (lift (normalize_actor env.agents false true actor)) _ r h₀ in
      let (task, p₂, h₂) = bind_returned (reading (find_task env task_id)) _ r h₁ in
      let (run, p₃, h₃) = bind_returned (reading (find_run env task.run_id)) _ r h₂ in
      let (v, p₄, h₄) = bind_returned (reading (check_claimable env run task)) _ r h₃ in
      let (at, p₅, h₅) = bind_returned (now env) _ r h₄ in
      let (used, p₆, h₆) =
        bind_returned (reading (decide_claim env known task at)) _ (now env r).1 h₅ in
      record {
        task = task;
        run = run;
        known = known;
        at = at;
        used = used;
        by_actor = p₁;
        at_clock = now-eq-ok r p₅;
        found = find_task-eq-ok env task_id r p₂;
        in_run = find_run-eq-ok env task.run_id r p₃;
        claimable = check_claimable-IsClaimable run task r p₄;
        authorized = decide_claim-Authorized known task at (now env r).1 p₆;
      }
