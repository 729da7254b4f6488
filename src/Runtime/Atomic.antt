-- ===== src/Runtime/Atomic.antt =====
-- `executeAuthenticatedCommand` of runtime/fdos-runtime.js: the log after a command whose failure is
-- not recorded.
use fdos_genesis.Prelude.{
  ◌≡◌, refl, ◌⊎◌, inl, inr, Bool, true, false, Bool-cases, Option, List, if◌then◌else◌,
}
use fdos_genesis.Kernel.Result.{FdosError, Result, ok, err, conflict}
use fdos_genesis.Kernel.Exec.{Exec, pure, lift, reading, attempt, zoom, continue, ◌>>=◌}
use fdos_genesis.Kernel.Exec.Meets.{
  After, Meets, Keeps, Keeps-from, Meets_weaken, Meets-bind, Meets-attempt, Meets_threw, Meets_also,
}
use fdos_genesis.Kernel.Json.{Json}
use fdos_genesis.Kernel.EventLog.{Actor}
use fdos_genesis.Kernel.Store.{
  Store, Statement, EventRow, savepoint, release, rollback_to, insert_event, append_now, created,
  inserted, row_of,
}
use fdos_genesis.Kernel.Store
use fdos_genesis.Kernel.Store.Laws.{Transactional, read_log, IsSynced}
use fdos_genesis.Kernel.Store.Atomic.{transaction-Meets}
use fdos_genesis.Kernel.Store.Transactions.{transaction}
use fdos_genesis.Reducer.Payload.{RuntimeEvent}
use fdos_genesis.Model.{empty_state}
use fdos_genesis.Reducer.Apply.{replay}
use fdos_genesis.Runtime.{
  Environment, Live, Command, store_of, put_store, state_of, put_state, rehydrate, mutate,
  assert_open,
}
use fdos_genesis.Runtime.Keeps.Gateway.{dispatch-Holds}
use fdos_genesis.Runtime.Authenticated.{
  Accepted, accept_authenticated_invocation, record_failure, run_executor, settle, as_outcome,
  accept_and_run, recover, execute_authenticated_command, is_recordable,
}
use fdos_genesis.Runtime.Gateway.{Request, dispatch, execute as execute_request}
use fdos_genesis.Kernel.Store.Ends.{Ready}
use fdos_genesis.Kernel.Store.Undo.{Undone}
use fdos_genesis.Runtime.Saved.{
  IsSaved, kept-IsSaved, with_savepoint-IsSaved, accept-IsSaved, record_failure-IsSaved,
}

-- An outcome that is a failure is one that may be recorded.
abbrev pub IsRecorded : {A : Type 0} → Result A → Type 0
IsRecorded (ok a) = Unit
IsRecorded (err e) = is_recordable e ≡ true

module _ (env : Environment) (laws : Transactional env.sqlite) where
  module _ (rows : Option (List EventRow)) {A : Type 0} (executor : Actor → Exec (Live env) A)
      (keeps : (actor : Actor) → Keeps (IsSaved env laws rows) (executor actor)) where
    abbrev Held : Live env → Type 0
    Held = IsSaved env laws rows

    -- A return value of the operation, with what is known of it.
    abbrev Returns : Result A → Live env → Type 0
    Returns outcome r = Held r × IsRecorded outcome

    as_outcome-Returns : (e : FdosError) → Meets Held (as_outcome env {A = A} e) Returns (λ _. Held)
    as_outcome-Returns e = elim (Bool-cases (is_recordable e)) [
      | inl fits ↦ rw fits (record { at = λ r h. (h, fits) })
      | inr fatal ↦ rw fatal (record { at = λ r h. h })
    ]

    run_executor-Returns :
        (accepted : Accepted) → Meets Held (run_executor env accepted executor) Returns (λ _. Held)
    unfolding run_executor
    run_executor-Returns accepted = with_savepoint-IsSaved env laws rows IsRecorded _ (
        Meets-attempt (do value ← executor accepted.actor; pure (ok value)) (as_outcome env)
          (Meets-bind (executor accepted.actor) (λ value. pure (ok value)) (keeps accepted.actor)
            (λ value. record { at = λ r h. (h, tt) }))
          as_outcome-Returns)

    settle-Returns :
        (command : Command) (accepted : Accepted) (outcome : Result A)
        → Meets (Returns outcome) (settle env command accepted outcome) Returns (λ _. Held)
    unfolding settle
    settle-Returns command accepted (ok a) = record { at = λ r h. h }
    settle-Returns command accepted (err e) =
        Meets-bind (record_failure env command accepted e) (λ _. pure (err e))
          (Meets_also (is_recordable e ≡ true) _
            (record_failure-IsSaved env laws rows command accepted e))
          (λ _. record { at = λ r h. h })

    accept_and_run-Returns :
        (invocation : Json) (command : Command)
        → Meets Held (accept_and_run env invocation command executor) Returns (λ _. Held)
    unfolding accept_and_run
    accept_and_run-Returns invocation command =
        Meets-bind (accept_authenticated_invocation env invocation command) _
          (accept-IsSaved env laws rows invocation command)
          (λ accepted.
            Meets-bind (run_executor env accepted executor) _ (run_executor-Returns accepted)
              (settle-Returns command accepted))

    module _ (es : List RuntimeEvent) (reads : read_log env.sqlite env.outside rows ≡ ok es) where
      abbrev IsUndone : Live env → Type 0
      IsUndone r = Undone env.sqlite env.outside rows es reads r.store

      abbrev Ends : FdosError → Live env → Type 0
      Ends e r = (is_recordable e ≡ true) ⊎ IsUndone r

      -- What is read from the log changes the state in memory, never the store.
      replay-IsUndone :
          (read : Result (List RuntimeEvent)) (r : Live env)
          → IsUndone r
          → IsUndone
              (continue read
                (λ events. zoom (state_of env) (put_state env) (replay env.seals events))
                r).1
      replay-IsUndone (ok events) r h = h
      replay-IsUndone (err e) r h = h

      rehydrate-IsUndone : Meets IsUndone (rehydrate env) (λ _. IsUndone) Ends
      unfolding rehydrate
      rehydrate-IsUndone =
          Meets_weaken (rehydrate env)
            (Keeps-from (rehydrate env) (λ r h.
              replay-IsUndone (Store.all env.sqlite env.outside r.store)
                (put_state env empty_state r) h))
            (λ _ r h. h) (λ e r h. inr h)

      recover-Undone :
          (e : FdosError) → Meets IsUndone (recover env {A = A} e) (λ o _. IsRecorded o) Ends
      unfolding recover
      recover-Undone e =
          Meets-bind (rehydrate env) _ (rehydrate-IsUndone) (λ _. record { at = λ r h. inr h })

      abbrev Begins : Live env → Type 0
      Begins r = Ready env.sqlite env.outside rows es r.store

      -- A closed runtime is a failure that may be recorded.
      closed_test :
          (closed : Bool) (r : Live env)
          → Begins r
          → After (λ (a : Unit {0}). Begins) Ends (if closed then err conflict else ok tt) r
      unfolding is_recordable
      closed_test true r h = inl refl
      closed_test false r h = h

      assert_open-Ends : Meets Begins (reading (assert_open env)) (λ _. Begins) Ends
      unfolding assert_open
      assert_open-Ends = record { at = λ r h. closed_test r.closed r h }

      outcome-Ends :
          (outcome : Result A)
          → Meets (λ (r : Live env). IsRecorded outcome) (lift outcome) (λ _ _. Unit) Ends
      outcome-Ends (ok a) = record { at = λ r h. tt }
      outcome-Ends (err e) = record { at = λ r h. inl h }

      execute_authenticated_command-Ends :
          (invocation : Json) (command : Command)
          → Meets
              (λ (r : Live env). Ready env.sqlite env.outside rows es r.store)
              (execute_authenticated_command env invocation command executor)
              (λ _ _. Unit)
              Ends
      unfolding execute_authenticated_command mutate
      execute_authenticated_command-Ends invocation command =
          let whole : Exec (Live env) (Result A) =
            transaction env.sqlite env.outside (store_of env) (put_store env)
              (accept_and_run env invocation command executor) in
          Meets-bind (mutate env (attempt whole (recover env {A = A}))) lift
            (Meets-bind (reading (assert_open env)) (λ _. attempt whole (recover env {A = A}))
              assert_open-Ends
              (λ _.
                Meets-attempt whole (recover env {A = A})
                  (transaction-Meets env.sqlite env.outside (store_of env) (put_store env)
                    (λ st r. refl) rows es reads laws
                    (accept_and_run env invocation command executor) IsRecorded
                    (accept_and_run-Returns invocation command))
                  recover-Undone))
            outcome-Ends

module _ (env : Environment) where
  -- A command that fails with an error that cannot be recorded, one of integrity or of persistence
  -- for instance, leaves the log of the runtime as it was before the command, the acceptance of its
  -- invocation and what was appended up to the failure included, or the store is marked for
  -- recovery, if the database keeps the promises of transactions and the log in memory was the one
  -- in the database.
  pub execute_fatal_unchanged :
      (laws : Transactional env.sqlite) (invocation : Json) (command : Command) (request : Request)
      (r : Live env) {e : FdosError}
      → IsSynced env.sqlite env.outside r.store
      → is_recordable e ≡ false
      → (execute_request env invocation command request r).0 ≡ err e
      → ((execute_request env invocation command request r).1.store.events ≡ r.store.events)
        ⊎ ((execute_request env invocation command request r).1.store.recovery_required ≡ true)
  unfolding execute_request
  execute_fatal_unchanged laws invocation command request r synced fatal threw =
      let rows : Option (List EventRow) = env.sqlite.event_rows r.store.database in
      elim (Meets_threw
        (execute_authenticated_command env invocation command (dispatch env request))
        (execute_authenticated_command-Ends env laws rows (dispatch env request)
          (dispatch-Holds env (kept-IsSaved env laws rows) request) r.store.events synced invocation
          command)
        r (refl, refl) threw) [ inl recorded ↦ cc | inr undone ↦ undone ]
