-- ===== src/Tests/Store.antt =====
-- A store with an empty log on a small database.
use fdos_genesis.Prelude.{
  ℕ, ◌≡◌, refl, true, false, String, none, some, [], ◌⊎◌, ◌is◌, if◌then◌else◌,
}
use fdos_genesis.Kernel.Result.{Result, integrity}
use fdos_genesis.Kernel.Text.{
  text_length, trim_start, trim_end, trim, starts_with, skip, every_char, cut,
}
use fdos_genesis.Kernel.Exec.{Exec}
use fdos_genesis.Kernel.Exec.Meets.{Keeps-from}
use fdos_genesis.Kernel.Validation.{required_string, is_id, assert_id}
use fdos_genesis.Kernel.EventLog.{verify_from, verify_audit_event_chain}
use fdos_genesis.Kernel.Store.{
  Outside, Store, row_of, insert_event, append, assert_open, assert_writable, transaction_id,
  read_clock, make_id,
}
use fdos_genesis.Kernel.Store.Rows.{
  parse_rows, parse_event_rows, verify_transaction_rows, verify_rows, event_groups,
}
use fdos_genesis.Kernel.Store.Laws.{IsSynced}
use fdos_genesis.Kernel.Store.Transactions.{
  execute, transaction, begin, conclude, finalize, abort, begin_database, activate, throw_failure,
  roll_back, reload,
}
use fdos_genesis.Kernel.Store.Atomic.{transaction_atomic, RunsInside}
use fdos_genesis.Kernel.Store.Free.{transaction_ends_free}
use fdos_genesis.Tests.Samples.{agent_actor}
use fdos_genesis.Tests.Log.{first_entry, digest}
use fdos_genesis.Tests.Tables.{Tables, sqlite, no_rows, sqlite-Transactional}

abbrev outside : Outside String
outside = record {
  clock = λ n. 1;
  id_factory = λ prefix n. if prefix is "event" then "event_000001" else "transaction_000001";
  digest = digest;
  canonical_json = λ e. "{}";
  json_parse = λ text. some first_entry;
}

abbrev new_store : Store Tables String
new_store = record {
  database = no_rows;
  events = [];
  active = none;
  recovery_required = false;
  closed = false;
  readings = 0;
  made_ids = 0;
}

new_store-IsSynced : IsSynced (sqlite true) outside new_store
unfolding parse_event_rows parse_rows verify_audit_event_chain verify_from
new_store-IsSynced = refl

-- An operation that writes a row of an event that is not in the log in memory.
abbrev insert_alone : Exec (Store Tables String) ℕ
insert_alone = execute (sqlite true) outside (insert_event (row_of outside first_entry))

insert_alone-RunsInside :
    RunsInside
      (sqlite true)
      outside
      (λ s. s)
      (λ st s. st)
      (λ st s. refl)
      (sqlite-Transactional true)
      insert_alone
unfolding execute
insert_alone-RunsInside = record {
  keeps = λ rows. Keeps-from insert_alone (λ s h.
      (sqlite-Transactional true).inside (insert_event (row_of outside first_entry)) s.database refl
        h);
}

abbrev run_alone : Result ℕ × Store Tables String
run_alone = transaction (sqlite true) outside (λ s. s) (λ st s. st) insert_alone new_store

-- The row is there when the transaction ends, the event is not: the transaction is rolled back.
transaction_atomic_example : (run_alone.1.events ≡ []) ⊎ (run_alone.1.recovery_required ≡ true)
unfolding transaction begin conclude finalize abort begin_database activate throw_failure roll_back
    reload execute assert_writable assert_open transaction_id read_clock make_id assert_id is_id
    required_string starts_with skip cut trim trim_start trim_end text_length every_char
    parse_event_rows parse_rows verify_audit_event_chain verify_from verify_transaction_rows
    verify_rows event_groups
transaction_atomic_example =
    transaction_atomic (sqlite true) outside (λ s. s) (λ st s. st) (λ st s. refl)
      (sqlite-Transactional true) insert_alone insert_alone-RunsInside new_store {e = integrity}
      new_store-IsSynced refl

-- A COMMIT that fails: the event of the operation is rolled back, and the store is in no transaction.
transaction_ends_free_example :
    (transaction
      (sqlite false)
      outside
      (λ s. s)
      (λ st s. st)
      (append (sqlite false) outside "task.claimed" agent_actor "task_000001" "claimed")
      new_store).1.active
    ≡ none
transaction_ends_free_example =
    transaction_ends_free (sqlite false) outside (λ s. s) (λ st s. st) (λ st s. refl)
      (append (sqlite false) outside "task.claimed" agent_actor "task_000001" "claimed") new_store
      refl
