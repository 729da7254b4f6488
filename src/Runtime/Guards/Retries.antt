-- ===== src/Runtime/Guards/Retries.antt =====
-- What another attempt of a task takes.
use fdos_genesis.Prelude.{
  ℕ, ◌<◌, ◌≡◌, true, false, Bool, not, ◌&&◌, String, some, [], ◌∷◌, arith, leb,
}
use fdos_genesis.Kernel.Result.{ok, conflict, policy, guard, >>-eq-ok, guard-eq-ok}
use fdos_genesis.Kernel.Exec.{lift, reading}
use fdos_genesis.Kernel.Exec.Inversion.{bind_returned}
use fdos_genesis.Kernel.JsMap.{JsMap, AllValues}
use fdos_genesis.Kernel.JsMap
use fdos_genesis.Kernel.EventLog.{Actor}
use fdos_genesis.Model.{Task}
use fdos_genesis.Runtime.{Environment, Live, find_task, mutate, assert_open}
use fdos_genesis.Runtime.Actors.{require_human}
use fdos_genesis.Runtime.Tasks.{
  is_task_failed, is_retryable, blocks, any_value, check_retryable, retry_task,
}
use fdos_genesis.Runtime.Guards.{find_task-eq-ok}

any_value-eq-false :
    {V : Type 0} (p : V → Bool) (m : JsMap V)
    → any_value p m ≡ false
    → AllValues (λ v. p v ≡ false) m
any_value-eq-false p [] h = tt
any_value-eq-false p ((k, v) ∷ m) h =
    let first : p v ≡ false = ground arith in
    let others : any_value p m ≡ false = ground arith in (first, any_value-eq-false p m others)

and_first : (a b : Bool) → (a && b) ≡ true → a ≡ true
and_first a b h = ground arith

and_second : (a b : Bool) → (a && b) ≡ true → b ≡ true
and_second a b h = ground arith

not-eq-true : (b : Bool) → not b ≡ true → b ≡ false
not-eq-true b h = ground arith

below : (m n : ℕ) → not (leb m n) ≡ true → n < m
below m n h = ground arith

module _ (env : Environment) where
  pub record IsRetryable (r : Live env) (task_id : String) (actor : Actor) : Type 0 where
    pub task : Task
    pub known : Actor
    pub by_human : require_human env.agents actor ≡ ok known
    pub found : JsMap.get task_id r.state.tasks ≡ some task
    pub failed : is_task_failed task.status ≡ true
    pub retryable : is_retryable task.failure ≡ true
    pub nothing_pending : AllValues (λ d. blocks task d ≡ false) r.state.outbox
    pub attempts_left : task.attempt < task.max_attempts

  -- Another attempt that is authorized is authorized by a human, and is one of a task that failed in a retryable way, with an
  -- attempt left, and of whose last attempt no delivery is prepared, claimed or uncertain.
  pub retry_task-IsRetryable :
      (task_id : String) (actor : Actor) (r : Live env) {t : Task}
      → (retry_task env task_id actor r).0 ≡ ok t
      → IsRetryable r task_id actor
  unfolding retry_task mutate check_retryable
  retry_task-IsRetryable task_id actor r h =
      let (u, p₀, h₀) = bind_returned (reading (assert_open env)) _ r h in
      let (known, p₁, h₁) = bind_returned (lift (require_human env.agents actor)) _ r h₀ in
      let (task, p₂, h₂) = bind_returned (reading (find_task env task_id)) _ r h₁ in
      let (v, p₃, h₃) = bind_returned (reading (check_retryable env task)) _ r h₂ in
      let ((w₀, q₀), g₀) =
        >>-eq-ok (guard (is_task_failed task.status && is_retryable task.failure) conflict) _ p₃ in
      let ((w₁, q₁), g₁) =
        >>-eq-ok (guard (not (any_value (blocks task) r.state.outbox)) policy) _ g₀ in
      let both =
        guard-eq-ok (is_task_failed task.status && is_retryable task.failure) conflict q₀ in
      let none_pending = guard-eq-ok (not (any_value (blocks task) r.state.outbox)) policy q₁ in
      let left = guard-eq-ok (not (leb task.max_attempts task.attempt)) policy g₁ in
      record {
        task = task;
        known = known;
        by_human = p₁;
        found = find_task-eq-ok env task_id r p₂;
        failed = and_first (is_task_failed task.status) (is_retryable task.failure) both;
        retryable = and_second (is_task_failed task.status) (is_retryable task.failure) both;
        nothing_pending =
            any_value-eq-false (blocks task) r.state.outbox
              (not-eq-true (any_value (blocks task) r.state.outbox) none_pending);
        attempts_left = below task.max_attempts task.attempt left;
      }
