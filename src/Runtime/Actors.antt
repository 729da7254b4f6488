-- ===== src/Runtime/Actors.antt =====
-- Who acts: `normalizeActor`, `requireHuman`, `attributedSystemActor`, and the checks of a guarded
-- command.
use fdos_genesis.Prelude.{
  Bool, true, false, ◌&&◌, ◌||◌, ◌==◌, String, Option, none, some, ◌is◌, same_option,
}
use fdos_genesis.Kernel.Result.{
  Result, ok, err, authorization, policy, validation, guard, or_throw, ◌>>=◌, ◌>>◌,
}
use fdos_genesis.Kernel.Text.{starts_with, skip, is_alnum, head_and_tail, every_char, text_length}
use fdos_genesis.Kernel.Validation.{required_string, assert_id}
use fdos_genesis.Kernel.JsMap.{JsMap}
use fdos_genesis.Kernel.JsMap
use fdos_genesis.Kernel.EventLog.{Actor, ActorType, human, agent, system, both_or_none}
use fdos_genesis.Domain.Agents.{Agent, resolve_agent}
use fdos_genesis.Domain.Connectors.Registry.{resolve_connector}
use fdos_genesis.Model.{AcceptedInvocation}
use fdos_genesis.Reducer.Invocations.{same_type}
use fdos_genesis.Kernel.Store
use fdos_genesis.Runtime.{Environment, Live}

-- /^human:[a-zA-Z0-9][a-zA-Z0-9._-]+$/
unfoldable pub is_human_id : String → Bool
unfolding starts_with skip every_char text_length
is_human_id s =
    starts_with s "human:"
    && head_and_tail is_alnum (λ n. is_alnum n || n == b'.' || n == b'_' || n == b'-') 1 120
        (skip 6 s)

abbrev pub attribution : Option String → Result (Option String)
attribution none = ok none
attribution (some id) = do known ← assert_id id; ok (some known)

-- The identity of an actor that is not yet attributed.
abbrev pub identify :
    JsMap Agent → (human_allowed agent_allowed : Bool) → Actor → ActorType → Result Actor
identify agents true agent_allowed actor human = do
  id ← required_string 1 120 is_human_id actor.id
  ok (record { type = human; id = id; role_id = none; invocation_id = none; correlation_id = none })
identify agents human_allowed true actor agent = resolve_agent agents actor
identify agents human_allowed agent_allowed actor _ = err authorization

unfoldable pub normalize_actor :
    JsMap Agent → (human_allowed agent_allowed : Bool) → Actor → Result Actor
normalize_actor agents human_allowed agent_allowed actor = do
  guard (both_or_none actor.invocation_id actor.correlation_id) authorization
  invocation_id ← attribution actor.invocation_id
  correlation_id ← attribution actor.correlation_id
  known ← identify agents human_allowed agent_allowed actor actor.type
  ok (record known { invocation_id = invocation_id; correlation_id = correlation_id })

unfoldable pub require_human : JsMap Agent → Actor → Result Actor
unfolding normalize_actor
require_human agents actor = normalize_actor agents true false actor

abbrev pub system_actor : Actor
system_actor = record {
  type = system;
  id = "fdos-runtime";
  role_id = none;
  invocation_id = none;
  correlation_id = none;
}

-- The system, on behalf of the invocation of the actor that caused the event.
unfoldable pub attributed_system_actor : Actor → Actor
attributed_system_actor trigger = attributed trigger.invocation_id trigger.correlation_id
  where
    attributed : Option String → Option String → Actor
    attributed (some invocation) (some correlation) = record system_actor {
      invocation_id = some invocation;
      correlation_id = some correlation;
    }
    attributed _ _ = system_actor

module _ (env : Environment) where
  abbrev pub matches_actor : AcceptedInvocation → (operation : String) → Actor → Bool
  matches_actor accepted operation actor =
      accepted.operation is operation
      && same_option (some accepted.correlation_id) actor.correlation_id
      && same_type accepted.principal_type actor.type
      && accepted.principal_id is actor.id

  -- A store of SQLite is transactional.
  unfoldable pub assert_authenticated_operation :
      Actor → (operation : String) → Live env → Result AcceptedInvocation
  unfolding Store.in_transaction
  assert_authenticated_operation actor operation r = do
    guard (Store.in_transaction r.store) policy
    invocation_id ← or_throw actor.invocation_id authorization
    or_throw actor.correlation_id authorization
    accepted ← or_throw (JsMap.get invocation_id r.state.accepted_invocations) authorization
    guard (matches_actor accepted operation actor) authorization
    ok accepted

  unfoldable pub authenticated_connector_actor :
      Actor → (operation : String) → Live env → Result Actor
  unfolding assert_authenticated_operation
  authenticated_connector_actor actor operation r = do
    known ← resolve_connector env.connectors actor
    given_invocation ← or_throw actor.invocation_id validation
    invocation_id ← assert_id given_invocation
    given_correlation ← or_throw actor.correlation_id validation
    correlation_id ← assert_id given_correlation
    let normalized : Actor = record known {
      invocation_id = some invocation_id;
      correlation_id = some correlation_id;
    }
    assert_authenticated_operation normalized operation r
    ok normalized
