-- ===== src/Runtime/Faithful/Execution.antt =====
-- `executeAuthenticatedCommand`: the state in memory against a replay of the log.
use fdos_genesis.Kernel.Result.{FdosError, Result, ok, err}
use fdos_genesis.Kernel.Exec.{Exec, pure, attempt, ◌>>=◌}
use fdos_genesis.Kernel.Exec.Meets.{
  Keeps, Keeps_at, Keeps-pure, Keeps-lift, Keeps-bind, Meets-bind, Meets-attempt,
}
use fdos_genesis.Kernel.Json.{Json}
use fdos_genesis.Kernel.EventLog.{Actor}
use fdos_genesis.Kernel.Store.Transactions.{transaction}
use fdos_genesis.Runtime.{Environment, Live, Command, store_of, put_store, mutate}
use fdos_genesis.Kernel.Exec.Holds.{Holds-if}
use fdos_genesis.Runtime.Keeps.{mutate-Holds, command_rules}
use fdos_genesis.Runtime.Keeps.Gateway.{dispatch-Holds}
use fdos_genesis.Runtime.Authenticated.{
  Accepted, accept_authenticated_invocation, record_failure, run_executor, settle, as_outcome,
  accept_and_run, recover, execute_authenticated_command, is_recordable,
}
use fdos_genesis.Runtime.Gateway.{Request, dispatch, execute as execute_request}
use fdos_genesis.Runtime.Faithful.{IsFaithful, kept-IsFaithful}
use fdos_genesis.Runtime.Faithful.Transactions.{
  Settles, kept-Settles, transaction-Settles, with_savepoint-Settles, recover-Settles,
}

module _ (env : Environment) where
  accept-IsFaithful :
      (invocation : Json) (command : Command)
      → Keeps (IsFaithful env) (accept_authenticated_invocation env invocation command)
  unfolding accept_authenticated_invocation
  accept-IsFaithful invocation command = search (command_rules, kept-IsFaithful) depth 40 fits 3000

  record_failure-IsFaithful :
      (command : Command) (accepted : Accepted) (e : FdosError)
      → Keeps (IsFaithful env) (record_failure env command accepted e)
  unfolding record_failure
  record_failure-IsFaithful command accepted e = search (command_rules, kept-IsFaithful) depth 10

  settle-IsFaithful :
      {A : Type 0} (command : Command) (accepted : Accepted) (r : Result A)
      → Keeps (IsFaithful env) (settle env command accepted r)
  unfolding settle
  settle-IsFaithful command accepted (ok a) = Keeps-pure (ok a)
  settle-IsFaithful command accepted (err e) =
      Keeps-bind (record_failure env command accepted e) (λ _. pure (err e))
        (record_failure-IsFaithful command accepted e) (λ _. Keeps-pure (err e))

  as_outcome-IsFaithful :
      {A : Type 0} (e : FdosError) → Keeps (IsFaithful env) (as_outcome env {A = A} e)
  as_outcome-IsFaithful e = Holds-if (is_recordable e) _ _ (Keeps-pure (err e)) (Keeps-lift (err e))

  module _ {A : Type 0} (executor : Actor → Exec (Live env) A)
      (keeps : (actor : Actor) → Keeps (IsFaithful env) (executor actor)) where
    run_executor-Settles :
        (accepted : Accepted) → Settles env (IsFaithful env) (run_executor env accepted executor)
    unfolding run_executor
    run_executor-Settles accepted = with_savepoint-Settles env _ (
        kept-Settles env (
          Meets-attempt (do value ← executor accepted.actor; pure (ok value)) (as_outcome env)
            (Keeps-bind (executor accepted.actor) (λ value. pure (ok value)) (keeps accepted.actor)
              (λ value. Keeps-pure (ok value)))
            as_outcome-IsFaithful))

    accept_and_run-Settles :
        (invocation : Json) (command : Command)
        → Settles env (IsFaithful env) (accept_and_run env invocation command executor)
    unfolding accept_and_run
    accept_and_run-Settles invocation command =
        Meets-bind (accept_authenticated_invocation env invocation command) _
          (kept-Settles env (accept-IsFaithful invocation command))
          (λ accepted.
            Meets-bind (run_executor env accepted executor) _ (run_executor-Settles accepted)
              (λ outcome. kept-Settles env (settle-IsFaithful command accepted outcome)))

    execute_authenticated_command-IsFaithful :
        (invocation : Json) (command : Command)
        → Keeps (IsFaithful env) (execute_authenticated_command env invocation command executor)
    unfolding execute_authenticated_command
    execute_authenticated_command-IsFaithful invocation command =
        Keeps-bind
          (mutate env (
            attempt
              (transaction env.sqlite env.outside (store_of env) (put_store env)
                (accept_and_run env invocation command executor))
              (recover env)))
          _
          (mutate-Holds env (kept-IsFaithful env) _ (
            Meets-attempt _ _
              (transaction-Settles env _ (accept_and_run-Settles invocation command))
              (recover-Settles env)))
          Keeps-lift

  -- Executing a request of the gateway, with its invocation, in a transaction of the store, leaves
  -- the store open and a state in memory that is the one a replay of the log ends in, if the log can
  -- be replayed: whether the request succeeds, fails and is recorded as failed, or fails in a way
  -- that rolls the transaction back, and whatever the database does.
  pub execute-IsFaithful :
      (invocation : Json) (command : Command) (request : Request) (r : Live env)
      → IsFaithful env r
      → IsFaithful env (execute_request env invocation command request r).1
  unfolding execute_request
  execute-IsFaithful invocation command request r f =
      Keeps_at (execute_authenticated_command env invocation command (dispatch env request))
        (execute_authenticated_command-IsFaithful (dispatch env request)
          (dispatch-Holds env (kept-IsFaithful env) request) invocation command)
        r f
