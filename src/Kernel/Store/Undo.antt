-- ===== src/Kernel/Store/Undo.antt =====
-- The `catch` of a transaction: a rollback, and the log read again.
use fdos_genesis.Prelude.{
  ℕ, ◌≡◌, refl, sym, ◌∙◌, ◌⊎◌, inl, inr, Bool, true, false, Option, none, some, List, Nothing,
  arith, is_some, if◌then◌else◌,
}
use fdos_genesis.Kernel.Result.{FdosError, ok, err, database_error, or_throw, or_throw-eq-ok}
use fdos_genesis.Kernel.Exec.{lift, reading, attempt}
use fdos_genesis.Kernel.Exec.Meets.{
  Meets, Keeps-lift, Keeps-reading, Keeps-from, Meets_weaken, Meets_before, Meets-bind,
  Meets-attempt, Meets-reading, Meets-lift, Meets_drop,
}
use fdos_genesis.Kernel.EventLog.{Event}
use fdos_genesis.Kernel.Store.{Sqlite, Outside, Store, rollback, EventRow}
use fdos_genesis.Kernel.Store.Rows.{parse_event_rows, verify_transaction_rows}
use fdos_genesis.Kernel.Store.Transactions.{
  abort, reload, quick_check, rolled_back_error, event_rows, transaction_rows, set_events,
  roll_back, require_recovery,
}
use fdos_genesis.Kernel.Store.Laws.{Transactional, read_log}

module _ (sqlite : Sqlite) {P : Type 0} (outside : Outside P) where
  abbrev Held : Type 0
  Held = Store sqlite.Database P

  module _ (rows : Option (List EventRow)) (es : List (Event P))
      (reads : read_log sqlite outside rows ≡ ok es) where
    -- After a rollback: the old log, or none that is trusted.
    abbrev pub Undone : Held → Type 0
    Undone st = (st.events ≡ es) ⊎ (st.recovery_required ≡ true)

    read_again :
        {found : List EventRow} {events : List (Event P)}
        → rows ≡ some found
        → parse_event_rows outside found ≡ ok events
        → events ≡ es
    read_again {found} {events} p q = ground (arith, reads)

    some_of :
        (read : Option (List EventRow)) {found : List EventRow}
        → read ≡ rows
        → or_throw read database_error ≡ ok found
        → rows ≡ some found
    some_of read p q = sym p ∙ or_throw-eq-ok read database_error q

    completes :
        {db : sqlite.Database} {saved : Option (List EventRow)} (changes : Option ℕ)
        → ((n : ℕ) → changes ≡ some n → sqlite.event_rows db ≡ saved)
        → is_some changes ≡ true
        → sqlite.event_rows db ≡ saved
    completes (some n) law h = law n refl
    completes none law h = cc

    -- Behind a rollback: the old rows, or a rollback that did not complete.
    abbrev RolledBack : Bool → Held → Type 0
    RolledBack completed st = (completed ≡ true) → sqlite.event_rows st.database ≡ rows

    roll_back-Meets :
        (laws : Transactional sqlite)
        → Meets
            (λ (st : Held). laws.saved st.database ≡ some rows)
            (roll_back sqlite outside)
            RolledBack
            (λ _ _. Nothing)
    unfolding roll_back
    roll_back-Meets laws = record {
      at = λ st h done.
          completes (sqlite.run rollback st.database).0 (λ n e. laws.rolls_back st.database e h)
            done;
    }

    set_events-Meets :
        (found : List EventRow) (events : List (Event P))
        → Meets
            (λ (st : Held).
              ((sqlite.event_rows st.database ≡ rows) × (event_rows sqlite outside st ≡ ok found))
              × (parse_event_rows outside found ≡ ok events))
            (set_events sqlite outside events)
            (λ _ st. st.events ≡ es)
            (λ _ _. Unit)
    unfolding set_events event_rows
    set_events-Meets found events = record {
      at = λ st h. read_again (some_of (sqlite.event_rows st.database) h.0.0 h.0.1) h.1;
    }

    reload-Meets :
        Meets
          (λ (st : Held). sqlite.event_rows st.database ≡ rows)
          (reload sqlite outside)
          (λ _ st. st.events ≡ es)
          (λ _ _. Unit)
    unfolding reload
    reload-Meets =
        Meets-bind (reading (quick_check sqlite outside)) _ (Meets_drop (Keeps-reading _)) (λ _.
          Meets-bind (reading (event_rows sqlite outside)) _ (Meets_drop (Meets-reading _))
            (λ found.
              Meets-bind (lift (parse_event_rows outside found)) _ (Meets_drop (Meets-lift _))
                (λ events.
                  Meets-bind (set_events sqlite outside events) _ (set_events-Meets found events)
                    (λ _.
                      Meets-bind (reading (transaction_rows sqlite outside)) _
                        (Meets_drop (Keeps-reading _))
                        (λ rs. Meets_drop (Keeps-lift (verify_transaction_rows events rs none)))))))

    -- What is there once the log was read again.
    abbrev Reloaded : Bool → Held → Type 0
    Reloaded completed st = (completed ≡ true) → st.events ≡ es

    reload-Reloaded :
        (completed : Bool)
        → Meets
            (RolledBack completed)
            (reload sqlite outside)
            (λ _. Reloaded completed)
            (λ _ _. Unit)
    reload-Reloaded true =
        Meets_weaken _ (Meets_before _ (λ s h. h refl) reload-Meets) (λ a s q done. q) (λ e s u. u)
    reload-Reloaded false =
        Meets_weaken _
          (Meets_before _ (λ s h. tt)
            (Keeps-from {P = λ _. Unit} (reload sqlite outside) (λ s h. tt)))
          (λ a s u done. cc) (λ e s u. tt)

    require_recovery-Meets :
        {A : Type 0} {P' : Held → Type 0} {Q : A → Held → Type 0}
        → Meets P' (require_recovery sqlite outside) Q (λ _. Undone)
    unfolding require_recovery
    require_recovery-Meets = record { at = λ s h. inr refl }

    finish-Meets :
        {A : Type 0} (completed : Bool) (error : FdosError)
        → Meets
            (Reloaded completed)
            (if completed then lift (err error) else require_recovery sqlite outside {A = A})
            (λ _ _. Nothing)
            (λ _. Undone)
    finish-Meets true error = record { at = λ s h. inl (h refl) }
    finish-Meets false error = require_recovery-Meets

    pub abort-Meets :
        {A : Type 0} (laws : Transactional sqlite) (finalizing : Bool) (error : FdosError)
        → Meets
            (λ (st : Held). laws.saved st.database ≡ some rows)
            (abort sqlite outside {A = A} finalizing error)
            (λ _ _. Nothing)
            (λ _. Undone)
    unfolding abort
    abort-Meets laws finalizing error =
        Meets-bind (roll_back sqlite outside) _
          (Meets_weaken _ (roll_back-Meets laws) (λ a s q. q) (λ e s q. elim q [ ]))
          (λ completed.
            Meets-bind (attempt (reload sqlite outside) (λ e. require_recovery sqlite outside)) _
              (Meets-attempt _ _ (reload-Reloaded completed) (λ e. require_recovery-Meets))
              (λ _. finish-Meets completed (rolled_back_error finalizing error)))
