-- ===== src/Runtime/Guards/Deliveries.antt =====
-- What the claim of a delivery takes.
use fdos_genesis.Prelude.{
  ℕ, ◌≤◌, ◌<◌, ◌≡◌, Bool, true, false, ◌&&◌, String, some, arith, leb, Nothing, if◌then◌else◌, ◌is◌,
  ◌==◌, same_option,
}
use fdos_genesis.Kernel.Result.{
  FdosError, ok, err, authorization, conflict, policy, validation, type_error, guard, or_throw,
  >>-eq-ok, >>=-eq-ok, guard-eq-ok,
}
use fdos_genesis.Kernel.Exec.{lift, reading, pure}
use fdos_genesis.Kernel.Exec.Inversion.{bind_returned}
use fdos_genesis.Kernel.EventLog.{Actor}
use fdos_genesis.Domain.Connectors.Registry.{Resolved, resolve_operation}
use fdos_genesis.Model.{State, Run, Task, Delivery, prepared, claimed}
use fdos_genesis.Kernel.JsMap
use fdos_genesis.Runtime.Guards.{find_task-eq-ok, find_run-eq-ok}
use fdos_genesis.Reducer.Checks.{same_status}
use fdos_genesis.Runtime.{
  Environment, Live, now, find_task, find_run, find_delivery, mutate, assert_open,
}
use fdos_genesis.Runtime.Actors.{authenticated_connector_actor}
use fdos_genesis.Runtime.Tasks.{is_run_active, is_in_progress}
use fdos_genesis.Runtime.Outbox.{
  assert_current_connector_binding, assert_delivery_task_active, check_claimable, claim_prepared,
  refuse_claimed, has_expired, claim_delivery, expire_claim,
}

ok_is_no_error : {A : Type 0} {e : FdosError} {a : A} → err e ≡ ok a → Nothing {0}
ok_is_no_error h = cc

within_lease :
    (lease_seconds : ℕ)
    → guard (leb 5 lease_seconds && leb lease_seconds 300) validation ≡ ok tt
    → (5 ≤ lease_seconds) × (lease_seconds ≤ 300)
within_lease lease_seconds h = (ground (arith, h), ground (arith, h))

module _ (env : Environment) where
  -- What the registry has now of the operation of a delivery is what the delivery was made for.
  abbrev IsCurrent : Delivery → Type 0
  IsCurrent d =
      (resolved : Resolved) × (resolve_operation env.connectors d.intent.connector.id
          d.intent.operation.id
        ≡ ok resolved)
      × ((resolved.contract.digest is d.intent.connector.contract_digest) ≡ true)
      × ((resolved.operation.digest is d.intent.operation.digest) ≡ true)

  assert_current_connector_binding-IsCurrent :
      (d : Delivery) {resolved : Resolved}
      → assert_current_connector_binding env d ≡ ok resolved
      → IsCurrent d
  unfolding assert_current_connector_binding
  assert_current_connector_binding-IsCurrent d h =
      let (found, p₀, h₀) =
        >>=-eq-ok (resolve_operation env.connectors d.intent.connector.id d.intent.operation.id) _
          h in
      let ((u₁, p₁), h₁) =
        >>-eq-ok
          (guard
            (found.contract.digest is d.intent.connector.contract_digest
              && found.operation.digest is d.intent.operation.digest)
            policy)
          _ h₀ in
      (found, p₀, ground (arith, p₁), ground (arith, p₁))

  -- The task of a delivery, in an active run and held by the actor that asked for the delivery, in
  -- the attempt and with the intent that the delivery was made for.
  pub record IsWanted (s : State) (d : Delivery) : Type 0 where
    pub task : Task
    pub run : Run
    pub of_task : JsMap.get d.intent.task.id s.tasks ≡ some task
    pub in_run : JsMap.get task.run_id s.runs ≡ some run
    pub run_active : is_run_active run.status ≡ true
    pub in_progress : is_in_progress task.status ≡ true
    pub held : same_option task.claimed_by (some d.intent.requested_by) ≡ true
    pub same_attempt : (task.attempt == d.intent.task.attempt) ≡ true
    pub same_intent : (task.action_intent.digest is d.intent.task.action_intent_digest) ≡ true

  assert_delivery_task_active-IsWanted :
      (d : Delivery) (r : Live env) {task : Task}
      → assert_delivery_task_active env d r ≡ ok task
      → IsWanted r.state d
  unfolding assert_delivery_task_active
  assert_delivery_task_active-IsWanted d r h =
      let (task, p₀, h₀) = >>=-eq-ok (find_task env d.intent.task.id r) _ h in
      let (run, p₁, h₁) = >>=-eq-ok (find_run env task.run_id r) _ h₀ in
      let ((u₂, p₂), h₂) =
        >>-eq-ok
          (guard
            (is_run_active run.status
              && is_in_progress task.status
              && same_option task.claimed_by (some d.intent.requested_by)
              && task.attempt == d.intent.task.attempt
              && task.action_intent.digest is d.intent.task.action_intent_digest)
            policy)
          _ h₁ in
      record {
        task = task;
        run = run;
        of_task = find_task-eq-ok env d.intent.task.id r p₀;
        in_run = find_run-eq-ok env task.run_id r p₁;
        run_active = ground (arith, p₂);
        in_progress = ground (arith, p₂);
        held = ground (arith, p₂);
        same_attempt = ground (arith, p₂);
        same_intent = ground (arith, p₂);
      }

  pub record IsOpen (s : State) (d : Delivery) : Type 0 where
    pub is_prepared : same_status d.status prepared ≡ true
    pub wanted : IsWanted s d
    pub attempts_left : d.attempt < d.max_attempts

  check_claimable-IsOpen :
      (d : Delivery) (r : Live env) → check_claimable env d r ≡ ok tt → IsOpen r.state d
  unfolding check_claimable
  check_claimable-IsOpen d r h =
      let ((u₀, p₀), h₀) = >>-eq-ok (guard (same_status d.status prepared) conflict) _ h in
      let ((task, p₁), h₁) = >>-eq-ok (assert_delivery_task_active env d r) _ h₀ in
      record {
        is_prepared = guard-eq-ok (same_status d.status prepared) conflict p₀;
        wanted = assert_delivery_task_active-IsWanted d r p₁;
        attempts_left = ground (arith, h₁);
      }

  claim_prepared-IsOpen :
      (known : Actor) (d : Delivery) (lease at : ℕ) (r : Live env) {e : Delivery}
      → (claim_prepared env known d lease at r).0 ≡ ok e
      → IsOpen r.state d
  unfolding claim_prepared
  claim_prepared-IsOpen known d lease at r h =
      let (u, p, rest) = bind_returned (reading (check_claimable env d)) _ r h in
      check_claimable-IsOpen d r p

  -- A delivery with a claim is never claimed again.
  refuse_claimed-throws :
      (known : Actor) (d : Delivery) (at : ℕ) (r : Live env) {e : Delivery}
      → (refuse_claimed env known d at r).0 ≡ ok e
      → Nothing {0}
  unfolding refuse_claimed
  refuse_claimed-throws known d at r h =
      let (claim, p, h₀) = bind_returned (lift (or_throw d.claim type_error)) _ r h in
      let (u, q, h₁) =
        bind_returned
          (if has_expired env claim at
            then expire_claim env "CLAIM_LEASE_EXPIRED" known d claim known.id at
            else pure tt)
          _ r h₀ in
      ok_is_no_error (h₁)

  branch-IsOpen :
      (taken : Bool) (known : Actor) (d : Delivery) (lease at : ℕ) (r : Live env) {e : Delivery}
      → ((if taken then refuse_claimed env known d at else claim_prepared env known d lease at) r).0
        ≡ ok e
      → IsOpen r.state d
  branch-IsOpen true known d lease at r h = elim (refuse_claimed-throws known d at r h) [ ]
  branch-IsOpen false known d lease at r h = claim_prepared-IsOpen known d lease at r h

  -- What a claim of a delivery that returns was made on.
  pub record IsClaimable (r : Live env) (actor : Actor) (delivery_id : String) (lease_seconds : ℕ)
      : Type 0 where
    pub delivery : Delivery
    pub known : Actor
    pub by_actor : authenticated_connector_actor env actor "outbox.claim" r ≡ ok known
    pub found : find_delivery env delivery_id r ≡ ok delivery
    pub own : (delivery.intent.connector.id is known.id) ≡ true
    pub current : IsCurrent delivery
    pub opened : IsOpen r.state delivery
    pub lease : (5 ≤ lease_seconds) × (lease_seconds ≤ 300)

  -- A claim of a delivery that returns was made by an actor that the runtime authenticates as the
  -- connector that the delivery is for, on a
  -- prepared delivery with an attempt left whose contract and operation are the registered ones, for
  -- a task in progress in an active run, held by the actor that asked for the delivery, in the same
  -- attempt and with the same intent; and its lease is between 5 and 300 seconds.
  pub claim_delivery-IsClaimable :
      (actor : Actor) (delivery_id : String) (lease_seconds : ℕ) (r : Live env) {d : Delivery}
      → (claim_delivery env actor delivery_id lease_seconds r).0 ≡ ok d
      → IsClaimable r actor delivery_id lease_seconds
  unfolding claim_delivery mutate now
  claim_delivery-IsClaimable actor delivery_id lease_seconds r {d = e} h =
      let (u, p₀, h₀) = bind_returned (reading (assert_open env)) _ r h in
      let (known, p₁, h₁) =
        bind_returned (reading (authenticated_connector_actor env actor "outbox.claim")) _ r h₀ in
      let (v, p₂, h₂) =
        bind_returned (lift (guard (leb 5 lease_seconds && leb lease_seconds 300) validation)) _ r
          h₁ in
      let (d, p₃, h₃) = bind_returned (reading (find_delivery env delivery_id)) _ r h₂ in
      let (w, p₄, h₄) =
        bind_returned (lift (guard (d.intent.connector.id is known.id) authorization)) _ r h₃ in
      let (x, p₅, h₅) = bind_returned (lift (assert_current_connector_binding env d)) _ r h₄ in
      let (at, p₆, h₆) = bind_returned (now env) _ r h₅ in
      record {
        delivery = d;
        known = known;
        by_actor = p₁;
        found = p₃;
        own = guard-eq-ok (d.intent.connector.id is known.id) authorization p₄;
        current = assert_current_connector_binding-IsCurrent d p₅;
        opened =
            branch-IsOpen (same_status d.status claimed) known d lease_seconds at (now env r).1 h₆;
        lease = within_lease lease_seconds p₂;
      }
