-- ===== src/Kernel/Store/Transactions.antt =====
-- `transaction` and `#savepoint`, around an operation on a state of which the store is a part, and
-- `#reload`, `verify`, `status`.
use fdos_genesis.Prelude.{
  ℕ, ◌+◌, ◌-◌, ◌==◌, Bool, true, false, not, ◌&&◌, String, Option, none, some, List, length, take,
  is_some, if◌then◌else◌,
}
use fdos_genesis.Kernel.Result.{
  FdosError, Result, ok, err, conflict, integrity, persistence, validation, database_error, guard,
  or_throw,
}
use fdos_genesis.Kernel.Result
use fdos_genesis.Kernel.Exec.{
  Exec, pure, lift, reading, modify, throw_if, attempt, zoom, ◌>>=◌, ◌>>◌,
}
use fdos_genesis.Kernel.Validation.{Stamp, iso}
use fdos_genesis.Kernel.EventLog.{Event, last_hash, verify_audit_event_chain}
use fdos_genesis.Kernel.Store.{
  Sqlite, Outside, Store, Transaction, Statement, begin_immediate, commit, rollback, savepoint,
  release, rollback_to, insert_transaction, commit_transaction, Commit, EventRow, TransactionRow,
  transaction_id, assert_open, assert_writable, read_clock, make_id, last_event_hash,
}
use fdos_genesis.Kernel.Store.Rows.{parse_event_rows, verify_transaction_rows}

abbrev pub is_integrity_or_persistence : FdosError → Bool
is_integrity_or_persistence integrity = true
is_integrity_or_persistence persistence = true
is_integrity_or_persistence _ = false

-- What leaves a transaction that was rolled back for `error`.
abbrev pub rolled_back_error : (finalizing : Bool) → FdosError → FdosError
rolled_back_error finalizing error =
    if finalizing && not (is_integrity_or_persistence error) then persistence else error

abbrev pub failure_of : Option Transaction → Option FdosError
failure_of none = none
failure_of (some t) = t.failure

abbrev pub update_active : (Transaction → Transaction) → Option Transaction → Option Transaction
update_active f none = none
update_active f (some t) = some (f t)

abbrev pub or_error : Option FdosError → FdosError → FdosError
or_error none e = e
or_error (some f) e = f

module _ (sqlite : Sqlite) {P : Type 0} (outside : Outside P) where
  abbrev Held : Type 0
  Held = Store sqlite.Database P

  -- A statement whose exception is not wrapped.
  unfoldable pub execute : Statement → Exec Held ℕ
  execute statement st =
      let (changes, db) = sqlite.run statement st.database in
      (or_throw changes database_error, record st { database = db })

  unfoldable pub quick_check : Held → Result (Unit {0})
  quick_check st =
      Result.◌>>=◌ (or_throw (sqlite.quick_check st.database) persistence)
        (λ fine. guard fine integrity)

  -- `#eventRows` and `#transactionRows`
  unfoldable pub event_rows : Held → Result (List EventRow)
  event_rows st = or_throw (sqlite.event_rows st.database) database_error

  unfoldable pub transaction_rows : Held → Result (List TransactionRow)
  transaction_rows st = or_throw (sqlite.transaction_rows st.database) database_error

  unfoldable pub set_events : List (Event P) → Exec Held (Unit {0})
  set_events events = modify (λ st. record st { events = events })

  unfoldable pub reload : Exec Held (Unit {0})
  unfolding quick_check event_rows set_events transaction_rows
  reload = do
    reading quick_check
    rows ← reading event_rows
    events ← lift (parse_event_rows outside rows)
    set_events events
    transactions ← reading transaction_rows
    lift (verify_transaction_rows events transactions none)

  -- `BEGIN IMMEDIATE` and the row of the transaction; what fails is rolled back.
  unfoldable pub begin_database : (id : String) → (started_at : Stamp) → Exec Held ℕ
  unfolding execute
  begin_database id started_at =
      attempt (do execute begin_immediate; execute (insert_transaction id started_at))
        (λ cause. do attempt (execute rollback) (λ e. pure 0); lift (err persistence))

  unfoldable pub activate :
      (id : String) → (started_at : Stamp) → (base_length : ℕ) → Exec Held (Unit {0})
  activate id started_at base_length = modify (λ st. record st {
    active = some (record {
      id = id;
      started_at = started_at;
      base_length = base_length;
      failure = none;
      savepoint_active = false;
    });
  })

  -- Up to the call of the operation; the length of the log is returned.
  unfoldable pub begin : Exec Held ℕ
  unfolding make_id read_clock begin_database activate
  begin = do
    reading assert_writable
    throw_if (λ st. is_some st.active) conflict
    made ← make_id outside "transaction"
    id ← lift (transaction_id made)
    now ← read_clock outside
    base ← reading (λ st. ok (length st.events))
    begin_database id (iso now)
    activate id (iso now) base
    pure base

  unfoldable pub throw_failure : Held → Result (Unit {0})
  throw_failure st = elim (failure_of st.active) [ none ↦ ok tt | some e ↦ err e ]

  -- Behind the operation, while a failure is thrown as it is.
  unfoldable pub conclude : (base : ℕ) → Exec Held (Unit {0})
  unfolding throw_failure
  conclude base = do reading throw_failure; throw_if (λ st. length st.events - base == 0) integrity

  -- What `UPDATE fdos_transactions` says of the active transaction.
  unfoldable pub commit_of : (base : ℕ) → (committed_at : Stamp) → Held → Result Commit
  commit_of base committed_at st = elim st.active [
    | none ↦ err integrity
    | some t ↦ ok (record {
      committed_at = committed_at;
      event_count = length st.events - base;
      first_sequence = base + 1;
      last_sequence = length st.events;
      head_hash = last_hash outside.digest st.events;
      id = t.id;
    })
  ]

  unfoldable pub deactivate : Exec Held (Unit {0})
  deactivate = modify (λ st. record st { active = none })

  unfoldable pub finalize : (base : ℕ) → Exec Held (Unit {0})
  unfolding read_clock execute commit_of deactivate
  finalize base = do
    now ← read_clock outside
    row ← reading (commit_of base (iso now))
    changes ← execute (commit_transaction row)
    lift (guard (changes == 1) integrity)
    execute commit
    deactivate

  -- The `ROLLBACK` of the `catch`, and whether it went through.
  unfoldable pub roll_back : Exec Held Bool
  roll_back st =
      let (changes, db) = sqlite.run rollback st.database in
      (ok (is_some changes), record st { database = db; active = none })

  unfoldable pub require_recovery : {A : Type 0} → Exec Held A
  require_recovery st = (err persistence, record st { recovery_required = true })

  -- The `catch` of `transaction`: it rolls back, reloads the log and throws.
  unfoldable pub abort : {A : Type 0} → (finalizing : Bool) → FdosError → Exec Held A
  unfolding roll_back reload require_recovery
  abort finalizing error = do
    completed ← roll_back
    attempt reload (λ e. require_recovery)
    (if completed then lift (err (rolled_back_error finalizing error)) else require_recovery)

  -- `#savepoint` up to the call of the operation, which is in the `try`.
  unfoldable pub enter_savepoint : Exec Held ℕ
  enter_savepoint = do
    throw_if (λ st. not (is_some st.active)) conflict
    throw_if (λ st. elim st.active [ none ↦ false | some t ↦ t.savepoint_active ]) conflict
    modify (λ st. record st {
      active = update_active (λ t. record t { savepoint_active = true }) st.active;
    })
    reading (λ st. ok (length st.events))

  abbrev pub leave_savepoint : Held → Held
  leave_savepoint st = record st {
    active = update_active (λ t. record t { savepoint_active = false }) st.active;
  }

  -- The `catch` and `finally` of `#savepoint`.
  unfoldable pub undo_savepoint : {A : Type 0} → (base : ℕ) → FdosError → Exec Held A
  undo_savepoint base error st =
      let (changes, db) = sqlite.run rollback_to st.database in
      let failed = if is_some changes then failure_of st.active else some persistence in
      (
        err (or_error failed error),
        leave_savepoint (record st {
          database = db;
          events = take base st.events;
          active = update_active (λ t. record t { failure = failed }) st.active;
        }),
      )

  module _ {S A : Type 0} (store : S → Held) (put : Held → S → S) where
    -- `transaction`
    unfoldable pub transaction : Exec S A → Exec S A
    unfolding begin conclude finalize abort
    transaction operation = do
      base ← zoom store put begin
      result ←
          attempt (do a ← operation; zoom store put (conclude base); pure a)
            (λ e. zoom store put (abort false e))
      attempt (zoom store put (finalize base)) (λ e. zoom store put (abort true e))
      pure result

    -- `#savepoint`
    unfoldable pub with_savepoint : Exec S A → Exec S A
    unfolding enter_savepoint undo_savepoint execute throw_failure
    with_savepoint operation = do
      base ← zoom store put enter_savepoint
      result ←
          attempt
            (do
              zoom store put (execute savepoint)
              a ← operation
              zoom store put (reading throw_failure)
              zoom store put (execute release)
              pure a)
            (λ e. zoom store put (undo_savepoint base e))
      zoom store put (modify leave_savepoint)
      pure result

  -- `verify`: the number of events and the hash of the last one.
  unfoldable pub verify : Held → Result (ℕ × Option String)
  unfolding assert_open quick_check transaction_rows last_event_hash
  verify st = Result.◌>>◌ (assert_open st) (
      Result.◌>>◌ (quick_check st) (
        Result.◌>>=◌ (verify_audit_event_chain outside.digest st.events) (λ head.
          Result.◌>>=◌ (transaction_rows st) (λ rows.
            Result.◌>>◌
              (verify_transaction_rows st.events rows
                (elim st.active [ none ↦ none | some t ↦ some t.id ]))
              (Result.◌>>=◌ (last_event_hash sqlite outside st)
                (λ hash. ok (length st.events, hash)))))))
