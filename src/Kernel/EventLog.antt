-- ===== src/Kernel/EventLog.antt =====
-- kernel/event-log.js: the audit events, the verification of their hash chain, the creation of
-- the next event, and the operations of the log. `digestObject` of an event without its hash is
-- SHA-256 (node:crypto) of its canonical text: a parameter of the functions that call it. The type
-- of the payloads is a parameter too.
pub mod Actors
pub mod Events
pub mod Create
pub mod Head
pub mod Contiguous
use fdos_genesis.Prelude.{
  ℕ, zero, suc, ◌+◌, ◌≡◌, Bool, true, false, ◌&&◌, ◌||◌, not, String, Option, none, some, List, [],
  ◌∷◌, ◌++◌, leb, ltb, ◌==◌, ◌is◌, if◌then◌else◌, length, get_last?, drop, contains, same_option,
  is_some,
}
use fdos_genesis.Kernel.Result.{Result, ok, err, validation, integrity, guard, ◌>>=◌, ◌>>◌}
use fdos_genesis.Kernel.Text.{
  is_lower, is_digit, is_alnum, head_and_tail, starts_with, every_char, text_length,
}
use fdos_genesis.Kernel.Validation.{
  required_string, anything, assert_id, Stamp, iso, iso_date, is_prefix_tail,
}

pub data ActorType : Type 0 where
  human agent connector system : ActorType

pub record Actor : Type 0 where
  pub type : ActorType
  pub id : String
  pub role_id : Option String
  pub invocation_id : Option String
  pub correlation_id : Option String

pub record Unsigned (P : Type 0) : Type 0 where
  pub schema_version : String
  pub sequence : ℕ
  pub id : String
  pub type : String
  pub timestamp : Stamp
  pub actor : Actor
  pub subject : String
  pub payload : P
  pub transaction_id : Option String
  pub previous_hash : Option String

pub record Event (P : Type 0) : Type 0 where
  pub unsigned : Unsigned P
  pub open unsigned use *
  pub hash : String

abbrev pub event_schema_version : String
event_schema_version = "1.0"

-- /^[a-zA-Z0-9][a-zA-Z0-9:._-]+$/
unfoldable pub is_actor_id : String → Bool
unfolding every_char text_length
is_actor_id s =
    head_and_tail is_alnum (λ n. is_alnum n || n == b':' || n == b'.' || n == b'_' || n == b'-') 1
      160 s

-- /^[a-z][a-z0-9-]{1,63}$/
unfoldable pub is_role_id : String → Bool
unfolding every_char text_length
is_role_id s = head_and_tail is_lower is_prefix_tail 1 63 s

-- /^[a-z][a-z0-9.-]+$/
unfoldable pub is_event_type : String → Bool
unfolding every_char text_length
is_event_type s =
    head_and_tail is_lower (λ n. is_lower n || is_digit n || n == b'.' || n == b'-') 1 120 s

abbrev assert_optional_id : Option String → Result (Option String)
assert_optional_id none = ok none
assert_optional_id (some s) = do t ← assert_id s; ok (some t)

-- The role of an agent is required; any other actor has none.
abbrev role_of : ActorType → Option String → Result (Option String)
role_of agent none = err validation
role_of agent (some r) = do role ← required_string 1 64 is_role_id r; ok (some role)
role_of _ none = ok none
role_of _ (some r) = err integrity

abbrev pub both_or_none : Option String → Option String → Bool
both_or_none none none = true
both_or_none (some a) (some b) = true
both_or_none none (some b) = false
both_or_none (some a) none = false

unfoldable pub validate_actor : Actor → Result Actor
validate_actor actor = do
  id ← required_string 1 160 is_actor_id actor.id
  guard (both_or_none actor.invocation_id actor.correlation_id) integrity
  invocation_id ← assert_optional_id actor.invocation_id
  correlation_id ← assert_optional_id actor.correlation_id
  role_id ← role_of actor.type actor.role_id
  ok (record {
    type = actor.type;
    id = id;
    role_id = role_id;
    invocation_id = invocation_id;
    correlation_id = correlation_id;
  })

unfoldable pub normalize_transaction_id : String → Result String
normalize_transaction_id value = do
  id ← assert_id value
  guard (starts_with id "transaction_") integrity
  ok id

abbrev optional_transaction_id : Option String → Result (Option String)
optional_transaction_id none = ok none
optional_transaction_id (some t) = do u ← normalize_transaction_id t; ok (some u)

-- The transactions that have ended when the loop reaches an event of another one.
abbrev pub completed_after : Option String → List String → List String
completed_after none done = done
completed_after (some t) done = t ∷ done

abbrev pub is_done : Option String → List String → Bool
is_done none done = false
is_done (some t) done = contains t done

-- `completedTransactions` after a round of the loop.
abbrev pub done_then : Option String → Option String → List String → List String
done_then t active done = if same_option t active then done else completed_after active done

-- The tests of the loop: the event's transaction is the active one, or has not ended.
abbrev pub joins : Option String → Option String → List String → Bool
joins t active done = same_option t active || not (is_done t (done_then t active done))

module _ {P : Type 0} (digest : Unsigned P → String) where
  -- One event against its place in the list and the hash of the event before it.
  unfoldable pub validate_event : Event P → ℕ → Option String → Result String
  validate_event event index expected_previous_hash = do
    guard (event.schema_version is event_schema_version) integrity
    guard (event.sequence == index + 1) integrity
    required_string 1 128 anything event.id
    required_string 1 120 is_event_type event.type
    iso_date event.timestamp
    validate_actor event.actor
    required_string 1 160 anything event.subject
    optional_transaction_id event.transaction_id
    guard (same_option event.previous_hash expected_previous_hash) integrity
    guard (event.hash is digest event.unsigned) integrity
    ok event.hash

  -- The loop of `verifyAuditEventChain` over its variables.
  unfoldable pub verify_from :
      ℕ → Option String → Option String → List String → List (Event P) → Result (Option String)
  verify_from index previous active done [] = ok previous
  verify_from index previous active done (event ∷ events) =
      validate_event event index previous >>= λ hash.
      guard (joins event.transaction_id active done) integrity
      >> verify_from (index + 1) (some hash) event.transaction_id
          (done_then event.transaction_id active done) events

  unfoldable pub verify_audit_event_chain : List (Event P) → Result (Option String)
  unfolding verify_from
  verify_audit_event_chain events = verify_from 0 none none [] events

  abbrev pub last_hash : List (Event P) → Option String
  last_hash [] = none
  last_hash (e ∷ []) = some e.hash
  last_hash (e ∷ f ∷ events) = last_hash (f ∷ events)

  -- `clock()` gives the instant, `idFactory("event")` the identifier.
  unfoldable pub create_audit_event :
      List (Event P) → ℕ → String → String → Actor → String → P → Option String → Result (Event P)
  create_audit_event current now id type actor subject payload transaction_id = do
    normalized_transaction_id ← optional_transaction_id transaction_id
    normalized_type ← required_string 1 120 is_event_type type
    normalized_actor ← validate_actor actor
    normalized_subject ← required_string 1 160 anything subject
    let unsigned : Unsigned P = record {
      schema_version = event_schema_version;
      sequence = length current + 1;
      id = id;
      type = normalized_type;
      timestamp = iso now;
      actor = normalized_actor;
      subject = normalized_subject;
      payload = payload;
      transaction_id = normalized_transaction_id;
      previous_hash = last_hash current;
    }
    ok (record { unsigned = unsigned; hash = digest unsigned })

  -- `EventLog.append` once the event is written to the file: the list in memory grows by it.
  unfoldable pub append :
      List (Event P) → ℕ → String → String → Actor → String → P → Result (Event P × List (Event P))
  unfolding create_audit_event
  append events now id type actor subject payload = do
    event ← create_audit_event events now id type actor subject payload none
    ok (event, events ++ event ∷ [])

  -- `EventLog.since`: the events behind the first `sequence` ones.
  abbrev pub since : ℕ → List (Event P) → List (Event P)
  since = drop
