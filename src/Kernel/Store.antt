-- ===== src/Kernel/Store.antt =====
-- kernel/sqlite-event-store.js: the store of the audit events. The database (node:sqlite), the clock,
-- the factory of identifiers, SHA-256 of an event and the text of an event (`canonicalJson`, with
-- `JSON.parse`) are parameters. A clock always gives a valid date. The calls come from one
-- asynchronous context, so a call inside a transaction is in the context of that transaction.
pub mod Rows
pub mod Transactions
pub mod Laws
pub mod Undo
pub mod Ends
pub mod Atomic
pub mod Quiet
pub mod Free
use fdos_genesis.Prelude.{
  ℕ, ◌+◌, ◌==◌, ◌≡◌, Bool, true, false, String, Option, none, some, List, [], ◌∷◌, ◌++◌, length,
  is_some, if◌then◌else◌,
}
use fdos_genesis.Kernel.Result.{
  FdosError, Result, ok, err, conflict, integrity, persistence, database_error, guard,
}
use fdos_genesis.Kernel.Result
use fdos_genesis.Kernel.Exec.{Exec, pure, reading, ◌>>=◌, ◌>>◌}
use fdos_genesis.Kernel.Text.{starts_with}
use fdos_genesis.Kernel.Validation.{Stamp, iso, assert_id}
use fdos_genesis.Kernel.EventLog.{Actor, Event, Unsigned, create_audit_event, last_hash}

-- A row of `fdos_events` and one of `fdos_transactions`.
pub record EventRow : Type 0 where
  pub sequence : ℕ
  pub id : String
  pub transaction_id : Option String
  pub event_json : String
  pub hash : String
  pub previous_hash : Option String

pub record TransactionRow : Type 0 where
  pub id : String
  pub started_at : Stamp
  pub committed_at : Option Stamp
  pub event_count : ℕ
  pub first_sequence : Option ℕ
  pub last_sequence : Option ℕ
  pub head_hash : Option String

-- The arguments of the prepared `UPDATE fdos_transactions`.
pub record Commit : Type 0 where
  pub committed_at : Stamp
  pub event_count : ℕ
  pub first_sequence : ℕ
  pub last_sequence : ℕ
  pub head_hash : Option String
  pub id : String

-- The statements that the store runs. The last one is `ROLLBACK TO` with the `RELEASE` behind it.
pub data Statement : Type 0 where
  begin_immediate commit rollback savepoint release rollback_to : Statement
  insert_event : EventRow → Statement
  insert_transaction : (id : String) (started_at : Stamp) → Statement
  commit_transaction : Commit → Statement

-- node:sqlite, as the store calls it. A statement throws (`none`) or returns the number of its
-- changes; a query throws or returns its rows; `quick_check` says whether its only row is `ok`.
pub record Sqlite : Type 1 where
  pub Database : Type 0
  pub run : Statement → Database → Option ℕ × Database
  pub quick_check : Database → Option Bool
  pub event_rows : Database → Option (List EventRow)
  pub transaction_rows : Database → Option (List TransactionRow)

-- What else the store is given.
pub record Outside (P : Type 0) : Type 0 where
  pub clock : ℕ → ℕ
  pub id_factory : String → ℕ → String
  pub digest : Unsigned P → String
  pub canonical_json : Event P → String
  pub json_parse : String → Option (Event P)

-- `activeTransaction`
pub record Transaction : Type 0 where
  pub id : String
  pub started_at : Stamp
  pub base_length : ℕ
  pub failure : Option FdosError
  pub savepoint_active : Bool

-- The fields of `SqliteEventStore`, and how often the clock and the factory have been called.
pub record Store (D P : Type 0) : Type 0 where
  pub database : D
  pub events : List (Event P)
  pub active : Option Transaction
  pub recovery_required : Bool
  pub closed : Bool
  pub readings : ℕ
  pub made_ids : ℕ

unfoldable pub transaction_id : String → Result String
transaction_id value =
    Result.◌>>=◌ (assert_id value)
      (λ id. if starts_with id "transaction_" then ok id else err integrity)

-- `operation.catch(…)`: the first and any later failure of a write is noted in its transaction.
abbrev pub note_failure : FdosError → Option Transaction → Option Transaction
note_failure e none = none
note_failure e (some t) = some (record t { failure = some e })

abbrev pub active_id : Option Transaction → Option String
active_id none = none
active_id (some t) = some t.id

module _ {D P : Type 0} where
  abbrev pub failing : FdosError → Store D P → Store D P
  failing e st = record st { active = note_failure e st.active }

  unfoldable pub assert_open : Store D P → Result (Unit {0})
  assert_open st = if st.closed then err conflict else ok tt

  unfoldable pub assert_writable : Store D P → Result (Unit {0})
  unfolding assert_open
  assert_writable st =
      Result.◌>>◌ (assert_open st) (if st.recovery_required then err persistence else ok tt)

  unfoldable pub in_transaction : Store D P → Bool
  in_transaction st = is_some st.active

module _ {P : Type 0} (outside : Outside P) where
  abbrev pub row_of : Event P → EventRow
  row_of event = record {
    sequence = event.sequence;
    id = event.id;
    transaction_id = event.transaction_id;
    event_json = outside.canonical_json event;
    hash = event.hash;
    previous_hash = event.previous_hash;
  }

  module _ {D : Type 0} where
    -- `clock()` and `idFactory(prefix)`
    unfoldable pub read_clock : Exec (Store D P) ℕ
    read_clock st = (ok (outside.clock st.readings), record st { readings = st.readings + 1 })

    unfoldable pub make_id : String → Exec (Store D P) String
    make_id prefix st =
        (ok (outside.id_factory prefix st.made_ids), record st { made_ids = st.made_ids + 1 })

module _ (sqlite : Sqlite) {P : Type 0} (outside : Outside P) where
  -- The insertion of a created event.
  abbrev pub inserted :
      Event P
      → Store sqlite.Database P
      → Option ℕ × sqlite.Database
      → Result (Event P) × Store sqlite.Database P
  inserted event st (none, db) =
      (err persistence, failing persistence (record st { database = db }))
  inserted event st (some n, db) =
      (ok event, record st { database = db; events = st.events ++ event ∷ [] })

  abbrev pub created :
      Store sqlite.Database P → Result (Event P) → Result (Event P) × Store sqlite.Database P
  created st (err e) = (err e, failing e st)
  created st (ok event) =
      inserted event st (sqlite.run (insert_event (row_of outside event)) st.database)

  -- `append` once the store is writable.
  unfoldable pub append_now :
      (type : String) → Actor → (subject : String) → P → Exec (Store sqlite.Database P) (Event P)
  append_now type actor subject payload st =
      created (record st { readings = st.readings + 1; made_ids = st.made_ids + 1 })
        (create_audit_event outside.digest st.events (outside.clock st.readings)
          (outside.id_factory "event" st.made_ids) type actor subject payload (active_id st.active))

  unfoldable pub append :
      (type : String) → Actor → (subject : String) → P → Exec (Store sqlite.Database P) (Event P)
  unfolding append_now
  append type actor subject payload = do
    reading assert_writable
    append_now type actor subject payload

  -- `all`, `lastHash`, `since`
  unfoldable pub all : Store sqlite.Database P → Result (List (Event P))
  unfolding assert_open
  all st = Result.◌>>◌ (assert_open st) (ok st.events)

  unfoldable pub last_event_hash : Store sqlite.Database P → Result (Option String)
  unfolding assert_open
  last_event_hash st = Result.◌>>◌ (assert_open st) (ok (last_hash outside.digest st.events))

  -- `close`: outside a transaction, once.
  unfoldable pub close : (closes : sqlite.Database → Bool) → Exec (Store sqlite.Database P) Bool
  close closes st =
      if is_some st.active
      then (err conflict, st)
      else if st.closed
      then (ok false, st)
      else if closes st.database
      then (ok true, record st { closed = true })
      else (err persistence, st)
