-- ===== src/Kernel/Store/Free.antt =====
-- `transaction` of kernel/sqlite-event-store.js: whether a transaction is active after it.
use fdos_genesis.Prelude.{
  ℕ, ◌≡◌, refl, Bool, true, false, String, none, List, if◌then◌else◌, is_some, length, ◌==◌,
}
use fdos_genesis.Kernel.Result.{FdosError, Result, ok, err, conflict, persistence, integrity, guard}
use fdos_genesis.Kernel.Exec.{Exec, pure, lift, reading, attempt, zoom, throw_if, ◌>>=◌, ◌>>◌}
use fdos_genesis.Kernel.Exec.Meets.{
  After, Meets, Keeps, Keeps-from, Keeps_at, Keeps-pure, Keeps-lift, Keeps-reading, Keeps-throw_if,
  Keeps-bind, Meets-bind, Meets-attempt, Meets-zoom, Meets_weaken,
}
use fdos_genesis.Kernel.Validation.{Stamp, iso}
use fdos_genesis.Kernel.EventLog.{Event}
use fdos_genesis.Kernel.Store.{
  Sqlite, Outside, Store, Statement, begin_immediate, insert_transaction, rollback,
  commit_transaction, commit, make_id, read_clock, assert_writable, transaction_id,
}
use fdos_genesis.Kernel.Store.Transactions.{
  begin, begin_database, activate, conclude, finalize, deactivate, abort, reload, set_events,
  roll_back, require_recovery, execute, commit_of, transaction, rolled_back_error,
}

-- Nothing is known of the states of a computation.
After-anything : {S A : Type 0} (r : Result A) (s : S) → After (λ _ _. Unit {0}) (λ _ _. Unit) r s
After-anything (ok a) s = tt
After-anything (err e) s = tt

Meets-anything :
    {S A : Type 0} (m : Exec S A) → Meets (λ (s : S). Unit {0}) m (λ _ _. Unit) (λ _ _. Unit)
Meets-anything m = record { at = λ s h. After-anything (m s).0 (m s).1 }

module _ (sqlite : Sqlite) {P : Type 0} (outside : Outside P) where
  abbrev Held : Type 0
  Held = Store sqlite.Database P

  abbrev pub IsFree : Held → Type 0
  IsFree st = st.active ≡ none

  make_id-IsFree : (prefix : String) → Keeps IsFree (make_id outside prefix)
  unfolding make_id
  make_id-IsFree prefix = record { at = λ st h. h }

  read_clock-IsFree : Keeps IsFree (read_clock outside)
  unfolding read_clock
  read_clock-IsFree = record { at = λ st h. h }

  execute-IsFree : (statement : Statement) → Keeps IsFree (execute sqlite outside statement)
  unfolding execute
  execute-IsFree statement = Keeps-from (execute sqlite outside statement) (λ st h. h)

  set_events-IsFree : (es : List (Event P)) → Keeps IsFree (set_events sqlite outside es)
  unfolding set_events
  set_events-IsFree es = record { at = λ st h. h }

  begin_database-IsFree :
      (id : String) (at : Stamp) → Keeps IsFree (begin_database sqlite outside id at)
  unfolding begin_database
  begin_database-IsFree id at =
      Meets-attempt
        (do
          execute sqlite outside begin_immediate
          execute sqlite outside (insert_transaction id at))
        (λ cause. do
          attempt (execute sqlite outside rollback) (λ e. pure 0)
          lift (err persistence))
        (Keeps-bind (execute sqlite outside begin_immediate) _ (execute-IsFree begin_immediate)
          (λ _. execute-IsFree (insert_transaction id at)))
        (λ cause.
          Keeps-bind (attempt (execute sqlite outside rollback) (λ e. pure 0)) _
            (Meets-attempt (execute sqlite outside rollback) (λ e. pure 0) (execute-IsFree rollback)
              (λ e. Keeps-pure 0))
            (λ _. Keeps-lift (err persistence)))

  reload-IsFree : Keeps IsFree (reload sqlite outside)
  unfolding reload
  reload-IsFree = search (Keeps-bind, Keeps-lift, Keeps-reading, set_events-IsFree) depth 20

  activate-anything :
      (id : String) (at : Stamp) (base : ℕ)
      → Meets IsFree (activate sqlite outside id at base) (λ _ _. Unit {0}) (λ _. IsFree)
  unfolding activate
  activate-anything id at base = record { at = λ st h. tt }

  -- What throws before the transaction is active leaves the store free.
  begin-IsFree : Meets IsFree (begin sqlite outside) (λ _ _. Unit) (λ _. IsFree)
  unfolding begin
  begin-IsFree = Meets-bind (reading assert_writable) _ (Keeps-reading assert_writable) (λ _.
      Meets-bind (throw_if (λ st. is_some st.active) conflict) _ (Keeps-throw_if _ conflict) (λ _.
        Meets-bind (make_id outside "transaction") _ (make_id-IsFree "transaction") (λ made.
          Meets-bind (lift (transaction_id made)) _ (Keeps-lift _) (λ id.
            Meets-bind (read_clock outside) _ read_clock-IsFree (λ now.
              Meets-bind (reading (λ st. ok (length st.events))) _ (Keeps-reading _) (λ base.
                Meets-bind (begin_database sqlite outside id (iso now)) _
                  (begin_database-IsFree id (iso now))
                  (λ _.
                    Meets-bind (activate sqlite outside id (iso now) base) (λ _. pure base)
                      (activate-anything id (iso now) base) (λ _. record { at = λ st h. tt }))))))))

  module _ {A : Type 0} where
    throws-IsFree :
        (b : Bool) (e : FdosError)
        → Keeps IsFree (if b then lift (err e) else require_recovery sqlite outside {A = A})
    unfolding require_recovery
    throws-IsFree true e = record { at = λ st h. h }
    throws-IsFree false e = record { at = λ st h. h }

    abort-IsFree :
        (finalizing : Bool) (e : FdosError)
        → Meets
            (λ _. Unit {0})
            (abort sqlite outside {A = A} finalizing e)
            (λ _. IsFree)
            (λ _. IsFree)
    unfolding abort roll_back require_recovery
    abort-IsFree finalizing e =
        Meets-bind (roll_back sqlite outside) _ (record { at = λ st h. refl })
          (λ completed.
            Keeps-bind (attempt (reload sqlite outside) (λ _. require_recovery sqlite outside)) _
              (Meets-attempt (reload sqlite outside) (λ _. require_recovery sqlite outside)
                reload-IsFree (λ f. record { at = λ st h. h }))
              (λ _. throws-IsFree completed (rolled_back_error finalizing e)))

  deactivate-IsFree : Meets (λ _. Unit {0}) (deactivate sqlite outside) (λ _. IsFree) (λ _ _. Unit)
  unfolding deactivate
  deactivate-IsFree = record { at = λ st h. refl }

  finalize-IsFree :
      (base : ℕ) → Meets (λ _. Unit {0}) (finalize sqlite outside base) (λ _. IsFree) (λ _ _. Unit)
  unfolding finalize
  finalize-IsFree base =
      Meets-bind (read_clock outside) _ (Meets-anything (read_clock outside)) (λ now.
        Meets-bind (reading (commit_of sqlite outside base (iso now))) _ (Meets-anything _) (λ row.
          Meets-bind (execute sqlite outside (commit_transaction row)) _ (Meets-anything _)
            (λ changes.
              Meets-bind (lift (guard (changes == 1) integrity)) _ (Meets-anything _) (λ _.
                Meets-bind (execute sqlite outside commit) (λ _. deactivate sqlite outside)
                  (Meets-anything (execute sqlite outside commit)) (λ _. deactivate-IsFree)))))

  module _ {S A : Type 0} (store : S → Held) (put : Held → S → S)
      (law : (st : Held) (s : S) → store (put st s) ≡ st) where
    transaction-IsFree :
        (operation : Exec S A)
        → Keeps (λ s. IsFree (store s)) (transaction sqlite outside store put operation)
    unfolding transaction
    transaction-IsFree operation =
        Meets-bind (zoom store put (begin sqlite outside)) _
          (Meets-zoom store put (begin sqlite outside) law begin-IsFree)
          (λ base.
            Meets-bind
              (attempt (do a ← operation; zoom store put (conclude sqlite outside base); pure a)
                (λ e. zoom store put (abort sqlite outside false e)))
              _
              (Meets-attempt _ _ (Meets-anything _) (λ e.
                Meets_weaken _
                  (Meets-zoom store put (abort sqlite outside false e) law (abort-IsFree false e))
                  (λ a s h. tt) (λ f s h. h)))
              (λ result.
                Meets-bind
                  (attempt (zoom store put (finalize sqlite outside base))
                    (λ e. zoom store put (abort sqlite outside true e)))
                  _
                  (Meets-attempt (zoom store put (finalize sqlite outside base)) _
                    (Meets-zoom store put (finalize sqlite outside base) law (finalize-IsFree base))
                    (λ e.
                      Meets-zoom store put (abort sqlite outside true e) law (abort-IsFree true e)))
                  (λ _. record { at = λ s h. h })))

    -- A store that is in no transaction is in none after a transaction, whatever its operation did
    -- and whatever the database does: whether it commits, rolls back, or cannot even do that, the
    -- next transaction does not find one that is active.
    pub transaction_ends_free :
        (operation : Exec S A) (s : S)
        → (store s).active ≡ none
        → (store (transaction sqlite outside store put operation s).1).active ≡ none
    transaction_ends_free operation s free =
        Keeps_at (transaction sqlite outside store put operation) (transaction-IsFree operation) s
          free
