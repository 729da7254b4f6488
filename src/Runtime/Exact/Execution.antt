-- ===== src/Runtime/Exact/Execution.antt =====
-- `executeAuthenticatedCommand` of runtime/fdos-runtime.js: the log and the state in memory after a
-- command that succeeds, and after one that fails.
use fdos_genesis.Prelude.{
  ◌≡◌, refl, ap, ◌∙◌, Bool, Bool-cases, if◌then◌else◌, true, false, inl, inr, ◌⊎◌, Nothing,
}
use fdos_genesis.Kernel.Result.{FdosError, Result, ok, err, conflict}
use fdos_genesis.Kernel.Exec.{Exec, pure, lift, reading, attempt, ◌>>=◌}
use fdos_genesis.Kernel.Exec.Meets.{
  After, Meets, Meets_before, Meets-bind, Meets-attempt, Meets_returned,
}
use fdos_genesis.Kernel.Exec.Holds.{Holds}
use fdos_genesis.Kernel.Json.{Json}
use fdos_genesis.Kernel.EventLog.{Actor}
use fdos_genesis.Kernel.Store.Transactions.{transaction}
use fdos_genesis.Model.{State, empty_state}
use fdos_genesis.Reducer.Apply.{replay}
use fdos_genesis.Runtime.{
  Environment, Live, Command, store_of, put_store, mutate, assert_open, rehydrate,
}
use fdos_genesis.Runtime.Keeps.{command_rules}
use fdos_genesis.Runtime.Keeps.Gateway.{dispatch-Holds}
use fdos_genesis.Runtime.Authenticated.{
  Accepted, accept_authenticated_invocation, record_failure, run_executor, settle, as_outcome,
  accept_and_run, recover, execute_authenticated_command, is_recordable,
}
use fdos_genesis.Runtime.Gateway.{Request, Reply, dispatch, execute as execute_request}
use fdos_genesis.Runtime.Faithful.{IsFaithful}
use fdos_genesis.Runtime.Faithful.Transactions.{IsOpen}
use fdos_genesis.Runtime.Faithful.Execution.{execute-IsFaithful}
use fdos_genesis.Runtime.Exact.Transactions.{
  Given, Gives, given, transaction-Gives, with_savepoint-Gives,
}
use fdos_genesis.Runtime.Exact.{IsExact, IsExact-IsFaithful, kept-IsExact, kept-IsOpen}

abbrev IsOk : {A : Type 0} → Result A → Type 0
IsOk (ok a) = Unit
IsOk (err e) = Nothing

module _ (env : Environment) where
  accept-IsExact :
      (invocation : Json) (command : Command)
      → Holds (IsExact env) (IsOpen env) (accept_authenticated_invocation env invocation command)
  unfolding accept_authenticated_invocation
  accept-IsExact invocation command = search (command_rules, kept-IsExact) depth 40 fits 3000

  record_failure-IsOpen :
      (command : Command) (accepted : Accepted) (e : FdosError)
      → Holds (IsOpen env) (IsOpen env) (record_failure env command accepted e)
  unfolding record_failure
  record_failure-IsOpen command accepted e = search (command_rules, kept-IsOpen) depth 10

  module _ {A : Type 0} (executor : Actor → Exec (Live env) A)
      (holds : (actor : Actor) → Holds (IsExact env) (IsOpen env) (executor actor)) where
    as_outcome-Gives : (e : FdosError) → Gives env (IsOpen env) IsOk (as_outcome env {A = A} e)
    as_outcome-Gives e = elim (Bool-cases (is_recordable e)) [
      | inl fits ↦ rw fits (record { at = λ r o. (o, λ c. elim c [ ]) })
      | inr fatal ↦ rw fatal (record { at = λ r o. o })
    ]

    run_executor-Gives :
        (accepted : Accepted) → Gives env (IsExact env) IsOk (run_executor env accepted executor)
    unfolding run_executor
    run_executor-Gives accepted = with_savepoint-Gives env IsOk _ (
        Meets-attempt (do value ← executor accepted.actor; pure (ok value)) (as_outcome env)
          (Meets-bind (executor accepted.actor) (λ value. pure (ok value)) (holds accepted.actor)
            (λ value. record { at = λ r x. given env Unit r x }))
          as_outcome-Gives)

    settle-Gives :
        (command : Command) (accepted : Accepted) (outcome : Result A)
        → Gives env (Given env (IsOk outcome)) IsOk (settle env command accepted outcome)
    unfolding settle
    settle-Gives command accepted (ok a) = record { at = λ r g. g }
    settle-Gives command accepted (err e) =
        Meets-bind (record_failure env command accepted e) (λ _. pure (err e))
          (Meets_before _ (λ r g. g.0) (record_failure-IsOpen command accepted e))
          (λ _. record { at = λ r o. (o, λ c. elim c [ ]) })

    accept_and_run-Gives :
        (invocation : Json) (command : Command)
        → Gives env (IsExact env) IsOk (accept_and_run env invocation command executor)
    unfolding accept_and_run
    accept_and_run-Gives invocation command =
        Meets-bind (accept_authenticated_invocation env invocation command) _
          (accept-IsExact invocation command)
          (λ accepted.
            Meets-bind (run_executor env accepted executor) _ (run_executor-Gives accepted)
              (settle-Gives command accepted))

    abbrev Anywhere : FdosError → Live env → Type 0
    Anywhere e r = Unit

    nothing_asked : {B : Type 0} (o : Result B) (r : Live env) → After (λ _ _. Unit) Anywhere o r
    nothing_asked (ok a) r = tt
    nothing_asked (err e) r = tt

    -- The handler of a transaction that threw does not return.
    recover-Gives :
        (e : FdosError)
        → Meets (IsOpen env) (recover env {A = A} e) (λ o. Given env (IsOk o)) Anywhere
    unfolding recover
    recover-Gives e =
        Meets-bind (rehydrate env) _
          (record { at = λ r o. nothing_asked (rehydrate env r).0 (rehydrate env r).1 })
          (λ _. record { at = λ r u. tt })

    lifted :
        (outcome : Result A)
        → Meets (Given env (IsOk outcome)) (lift outcome) (λ _. IsExact env) Anywhere
    lifted (ok a) = record { at = λ r g. g.1 tt }
    lifted (err e) = record { at = λ r g. tt }

    tested :
        (closed : Bool) (r : Live env)
        → IsExact env r
        → After (λ (u : Unit {0}). IsExact env) Anywhere (if closed then err conflict else ok tt) r
    tested true r x = tt
    tested false r x = x

    execute_authenticated_command-Returns :
        (invocation : Json) (command : Command)
        → Meets
            (IsExact env)
            (execute_authenticated_command env invocation command executor)
            (λ _. IsExact env)
            Anywhere
    unfolding execute_authenticated_command mutate assert_open
    execute_authenticated_command-Returns invocation command =
        let whole : Exec (Live env) (Result A) =
          transaction env.sqlite env.outside (store_of env) (put_store env)
            (accept_and_run env invocation command executor) in
        Meets-bind (mutate env (attempt whole (recover env {A = A}))) lift
          (Meets-bind (reading (assert_open env)) (λ _. attempt whole (recover env {A = A}))
            (record { at = λ r x. tested r.closed r x })
            (λ _.
              Meets-attempt whole (recover env {A = A})
                (transaction-Gives env IsOk _ (accept_and_run-Gives invocation command))
                recover-Gives))
          lifted

  -- The replay of the log is refused.
  abbrev pub IsRefused : Live env → Type 0
  IsRefused r = (f : FdosError) × ((replay env.seals r.store.events empty_state).0 ≡ err f)

  replay_ended :
      (r : Live env) (o : Result (Unit {0})) (t : State)
      → replay env.seals r.store.events empty_state ≡ (o, t)
      → IsFaithful env r
      → IsExact env r ⊎ IsRefused r
  replay_ended r (ok u) t h f =
      inl (record { opened = f.opened; exact = h ∙ ap (λ s. (ok tt, s)) (f.agrees t h) })
  replay_ended r (err e) t h f = inr (e, ap (λ x. x.0) h)

  either_end :
      (result : Result Reply) (r : Live env)
      → ((reply : Reply) → result ≡ ok reply → IsExact env r)
      → IsFaithful env r
      → After (λ _. IsExact env) (λ _ r. IsExact env r ⊎ IsRefused r) result r
  either_end (ok reply) r returns f = returns reply refl
  either_end (err e) r returns f = replay_ended r _ _ refl f

  execute-IsExact_returned :
      (invocation : Json) (command : Command) (request : Request) (r : Live env) {reply : Reply}
      → IsExact env r
      → (execute_request env invocation command request r).0 ≡ ok reply
      → IsExact env (execute_request env invocation command request r).1
  unfolding execute_request
  execute-IsExact_returned invocation command request r x h =
      Meets_returned (execute_authenticated_command env invocation command (dispatch env request))
        (execute_authenticated_command-Returns (dispatch env request)
          (dispatch-Holds env (kept-IsExact env) request) invocation command)
        r x h

  -- If the store is open and the replay of the whole log succeeds and ends in the state in memory,
  -- then that is so again when a request of one of the modelled gateway commands, of which
  -- `workflow.start` is none, is executed with its invocation and returns a reply, whatever the
  -- database does; if the request fails instead, recorded as failed or with its transaction rolled
  -- back, it is so again, or the reducer refuses an event of the log.
  pub execute-IsExact :
      (invocation : Json) (command : Command) (request : Request) (r : Live env)
      → IsExact env r
      → After
          (λ _. IsExact env)
          (λ _ after. IsExact env after ⊎ IsRefused after)
          (execute_request env invocation command request r).0
          (execute_request env invocation command request r).1
  execute-IsExact invocation command request r x =
      either_end _ _ (λ reply h. execute-IsExact_returned invocation command request r x h)
        (execute-IsFaithful env invocation command request r (IsExact-IsFaithful env r x))
