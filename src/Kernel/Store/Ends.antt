-- ===== src/Kernel/Store/Ends.antt =====
-- The begin and the end of a transaction.
use fdos_genesis.Prelude.{
  ap, some, ℕ, ◌==◌, ◌≡◌, refl, ◌∙◌, true, Option, String, List, length, is_some,
}
use fdos_genesis.Kernel.Result.{ok, err, conflict, integrity, persistence, database_error, guard}
use fdos_genesis.Kernel.Exec.{Exec, pure, lift, reading, throw_if, attempt, ◌>>◌}
use fdos_genesis.Kernel.Exec.Meets.{
  Meets, Keeps, Keeps-pure, Keeps-lift, Keeps-reading, Keeps-throw_if, Keeps-from, Meets_weaken,
  Meets-bind, Meets-attempt, Meets-throw, Keeps-bind, Meets_step, After-or_throw,
}
use fdos_genesis.Kernel.Validation.{Stamp, iso}
use fdos_genesis.Kernel.EventLog.{Event}
use fdos_genesis.Kernel.Store.{
  Sqlite, Outside, Store, Statement, begin_immediate, commit, rollback, insert_transaction,
  commit_transaction, EventRow, assert_writable, make_id, read_clock, transaction_id,
}
use fdos_genesis.Kernel.Store.Transactions.{
  begin, conclude, finalize, execute, throw_failure, commit_of, deactivate, activate,
  begin_database,
}
use fdos_genesis.Kernel.Store.Laws.{is_inner, Transactional}

module _ (sqlite : Sqlite) {P : Type 0} (outside : Outside P) where
  abbrev Held : Type 0
  Held = Store sqlite.Database P

  module _ (rows : Option (List EventRow)) (es : List (Event P)) where
    -- The end of a transaction.
    pub execute-saved :
        (laws : Transactional sqlite) (statement : Statement)
        → is_inner statement ≡ true
        → Keeps
            (λ (st : Held). laws.saved st.database ≡ some rows)
            (execute sqlite outside statement)
    unfolding execute
    execute-saved laws statement inner =
        Keeps-from _ (λ st h. laws.inside statement st.database inner h)

    pub conclude-saved :
        (laws : Transactional sqlite) (base : ℕ)
        → Keeps (λ (st : Held). laws.saved st.database ≡ some rows) (conclude sqlite outside base)
    unfolding conclude
    conclude-saved laws base =
        Keeps-bind (reading (throw_failure sqlite outside)) _ (Keeps-reading _)
          (λ _. Keeps-throw_if _ integrity)

    read_clock-saved :
        (saved : sqlite.Database → Option (Option (List EventRow)))
        → Keeps (λ (st : Held). saved st.database ≡ some rows) (read_clock outside)
    unfolding read_clock
    read_clock-saved saved = Keeps-from _ (λ st h. h)

    -- A commit that succeeds ends the transaction; nothing is asked of it.
    commit-Meets :
        (laws : Transactional sqlite)
        → Meets
            (λ (st : Held). laws.saved st.database ≡ some rows)
            (execute sqlite outside commit)
            (λ _ _. Unit)
            (λ _ st. laws.saved st.database ≡ some rows)
    unfolding execute
    commit-Meets laws = record {
      at = λ st h.
          After-or_throw (λ _. Unit) (λ st. laws.saved st.database ≡ some rows)
            (record st { database = (sqlite.run commit st.database).1 })
            (sqlite.run commit st.database).0 database_error (λ n e. tt)
            (λ e. laws.commit_fails st.database e h);
    }

    pub finalize-Meets :
        (laws : Transactional sqlite) (base : ℕ)
        → Meets
            (λ (st : Held). laws.saved st.database ≡ some rows)
            (finalize sqlite outside base)
            (λ _ _. Unit)
            (λ _ st. laws.saved st.database ≡ some rows)
    unfolding finalize
    finalize-Meets laws base =
        Meets-bind (read_clock outside) _ (read_clock-saved laws.saved) (λ now.
          Meets-bind (reading (commit_of sqlite outside base (iso now))) _ (Keeps-reading _) (λ row.
            Meets-bind (execute sqlite outside (commit_transaction row)) _
              (execute-saved laws (commit_transaction row) refl)
              (λ changes. Meets-bind (lift (guard (changes == 1) integrity)) _ (Keeps-lift _) (λ _.
                Meets-bind (execute sqlite outside commit) _ (commit-Meets laws)
                  (λ _. Meets_step (deactivate sqlite outside) (λ s h. tt))))))

    -- The begin of a transaction, of a log that the database has too.
    abbrev pub Ready : Held → Type 0
    Ready st = (sqlite.event_rows st.database ≡ rows) × (st.events ≡ es)

    execute-events :
        (statement : Statement)
        → Keeps (λ (st : Held). st.events ≡ es) (execute sqlite outside statement)
    unfolding execute
    execute-events statement = Keeps-from _ (λ st h. h)

    abbrev Begun : Transactional sqlite → Held → Type 0
    Begun laws st = (laws.saved st.database ≡ some rows) × (st.events ≡ es)

    begin_immediate-Meets :
        (laws : Transactional sqlite)
        → Meets Ready
            (execute sqlite outside begin_immediate)
            (λ _. Begun laws)
            (λ _ st. st.events ≡ es)
    unfolding execute
    begin_immediate-Meets laws = record {
      at = λ st h.
          After-or_throw (Begun laws) (λ st. st.events ≡ es)
            (record st { database = (sqlite.run begin_immediate st.database).1 })
            (sqlite.run begin_immediate st.database).0 database_error
            (λ n e. (laws.begins st.database e ∙ ap some h.0, h.1)) (λ e. h.1);
    }

    insert_transaction-Begun :
        (laws : Transactional sqlite) (id : String) (at : Stamp)
        → Keeps (Begun laws) (execute sqlite outside (insert_transaction id at))
    unfolding execute
    insert_transaction-Begun laws id at =
        Keeps-from _ (λ st h. (laws.inside (insert_transaction id at) st.database refl h.0, h.1))

    begin_database-Meets :
        (laws : Transactional sqlite) (id : String) (at : Stamp)
        → Meets Ready
            (begin_database sqlite outside id at)
            (λ _ st. laws.saved st.database ≡ some rows)
            (λ _ st. st.events ≡ es)
    unfolding begin_database execute
    begin_database-Meets laws id at =
        Meets-attempt
          (do
            execute sqlite outside begin_immediate
            execute sqlite outside (insert_transaction id at))
          (λ cause. do
            attempt (execute sqlite outside rollback) (λ e. pure 0)
            lift (err persistence))
          (Meets-bind (execute sqlite outside begin_immediate) _ (begin_immediate-Meets laws) (λ _.
            Meets_weaken _ (insert_transaction-Begun laws id at) (λ a s q. q.0) (λ e s q. q.1)))
          (λ cause.
            Meets-bind (attempt (execute sqlite outside rollback) (λ e. pure 0)) _
              (Meets-attempt _ _ (execute-events rollback) (λ e. Keeps-pure 0))
              (λ _. Meets-throw persistence))

    ready :
        {A : Type 0} {m : Exec Held A}
        → Keeps Ready m
        → Meets Ready m (λ _. Ready) (λ _ st. st.events ≡ es)
    ready h = Meets_weaken _ h (λ a s q. q) (λ e s q. q.1)

    make_id-Ready : Keeps Ready (make_id outside "transaction")
    unfolding make_id
    make_id-Ready = Keeps-from _ (λ st h. h)

    read_clock-Ready : Keeps Ready (read_clock outside)
    unfolding read_clock
    read_clock-Ready = Keeps-from _ (λ st h. h)

    activate-saved :
        (saved : sqlite.Database → Option (Option (List EventRow))) (id : String) (at : Stamp)
        (base : ℕ)
        → Meets
            (λ (st : Held). saved st.database ≡ some rows)
            (activate sqlite outside id at base)
            (λ _ st. saved st.database ≡ some rows)
            (λ _ st. st.events ≡ es)
    unfolding activate
    activate-saved saved id at base = record { at = λ st h. h }

    pub begin-Meets :
        (laws : Transactional sqlite)
        → Meets Ready
            (begin sqlite outside)
            (λ _ st. laws.saved st.database ≡ some rows)
            (λ _ st. st.events ≡ es)
    unfolding begin
    begin-Meets laws = Meets-bind (reading assert_writable) _ (ready (Keeps-reading _)) (λ _.
        Meets-bind (throw_if (λ st. is_some st.active) conflict) _
          (ready (Keeps-throw_if _ conflict))
          (λ _. Meets-bind (make_id outside "transaction") _ (ready make_id-Ready) (λ made.
            Meets-bind (lift (transaction_id made)) _ (ready (Keeps-lift _)) (λ id.
              Meets-bind (read_clock outside) _ (ready read_clock-Ready) (λ now.
                Meets-bind (reading (λ st. ok (length st.events))) _ (ready (Keeps-reading _))
                  (λ base.
                    Meets-bind (begin_database sqlite outside id (iso now)) _
                      (begin_database-Meets laws id (iso now))
                      (λ _.
                        Meets-bind (activate sqlite outside id (iso now) base) (λ _. pure base)
                          (activate-saved laws.saved id (iso now) base)
                          (λ _. record { at = λ s h. h }))))))))
