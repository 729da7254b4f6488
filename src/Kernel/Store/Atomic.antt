-- ===== src/Kernel/Store/Atomic.antt =====
-- `transaction` of kernel/sqlite-event-store.js as a whole: the log after a transaction that throws.
use fdos_genesis.Prelude.{some, ◌≡◌, refl, ◌⊎◌, inl, true, false, Option, List}
use fdos_genesis.Kernel.Result.{FdosError, ok, err}
use fdos_genesis.Kernel.Exec.{Exec, pure, attempt, zoom, ◌>>=◌, ◌>>◌}
use fdos_genesis.Kernel.Exec.Meets.{
  Meets, Keeps, Meets_weaken, Meets-bind, Meets-attempt, Meets-zoom, Meets_threw, Meets_also,
}
use fdos_genesis.Kernel.EventLog.{Event}
use fdos_genesis.Kernel.Store.{Sqlite, Outside, Store, EventRow}
use fdos_genesis.Kernel.Store.Transactions.{begin, conclude, finalize, abort, transaction}
use fdos_genesis.Kernel.Store.Laws.{Transactional, read_log, IsSynced}
use fdos_genesis.Kernel.Store.Undo.{Undone, abort-Meets}
use fdos_genesis.Kernel.Store.Ends.{Ready, begin-Meets, conclude-saved, finalize-Meets}

module _ (sqlite : Sqlite) {P : Type 0} (outside : Outside P) where
  abbrev Held : Type 0
  Held = Store sqlite.Database P

  -- The transaction as a whole, on a state of which the store is a part.
  module _ {S A : Type 0} (store : S → Held) (put : Held → S → S)
      (law : (st : Held) (s : S) → store (put st s) ≡ st) where
    pub transaction-Meets :
        (rows : Option (List EventRow)) (es : List (Event P))
        (reads : read_log sqlite outside rows ≡ ok es) (laws : Transactional sqlite)
        (operation : Exec S A) (V : A → Type 0)
        → Meets
            (λ s. laws.saved (store s).database ≡ some rows)
            operation
            (λ a s. (laws.saved (store s).database ≡ some rows) × V a)
            (λ _ s. laws.saved (store s).database ≡ some rows)
        → Meets
            (λ s. Ready sqlite outside rows es (store s))
            (transaction sqlite outside store put operation)
            (λ a _. V a)
            (λ _ s. Undone sqlite outside rows es reads (store s))
    unfolding transaction
    transaction-Meets rows es reads laws operation V keeps =
        Meets-bind (zoom store put (begin sqlite outside)) _
          (Meets_weaken _ (Meets-zoom store put _ law (begin-Meets sqlite outside rows es laws))
            (λ a s q. q) (λ e s q. inl q))
          (λ base.
            Meets-bind
              (attempt (do a ← operation; zoom store put (conclude sqlite outside base); pure a)
                (λ e. zoom store put (abort sqlite outside false e)))
              _
              (Meets-attempt _ _
                (Meets-bind operation _ keeps (λ a.
                  Meets-bind (zoom store put (conclude sqlite outside base)) _
                    (Meets_also (V a) _ (
                      Meets-zoom store put _ law (conclude-saved sqlite outside rows es laws base)))
                    (λ _. record { at = λ s h. h })))
                (λ e.
                  Meets_weaken _
                    (Meets-zoom store put _ law
                      (abort-Meets sqlite outside rows es reads laws false e))
                    (λ a s q. elim q [ ]) (λ f s q. q)))
              (λ result.
                Meets-bind
                  (attempt (zoom store put (finalize sqlite outside base))
                    (λ e. zoom store put (abort sqlite outside true e)))
                  _
                  (Meets_also (V result) _ (
                    Meets-attempt _ _
                      (Meets-zoom store put _ law (finalize-Meets sqlite outside rows es laws base))
                      (λ e.
                        Meets_weaken _
                          (Meets-zoom store put _ law
                            (abort-Meets sqlite outside rows es reads laws true e))
                          (λ a s q. elim q [ ]) (λ f s q. q))))
                  (λ _. record { at = λ s h. h.1 })))

    -- An operation runs inside a transaction if it leaves alone what a rollback returns to: it
    -- neither begins, commits nor rolls back.
    pub record RunsInside (laws : Transactional sqlite) (operation : Exec S A) : Type 0 where
      pub keeps :
          (rows : Option (List EventRow))
          → Keeps (λ s. laws.saved (store s).database ≡ some rows) operation

    -- A transaction of the store that throws, at whichever step, leaves the log as it was before,
    -- or the store is marked for recovery, if the database keeps the promises of transactions, the
    -- log in memory was the one in the database, and the operation runs inside the transaction.
    pub transaction_atomic :
        (laws : Transactional sqlite) (operation : Exec S A)
        → RunsInside laws operation
        → (s : S) {e : FdosError} → IsSynced sqlite outside (store s)
        → (transaction sqlite outside store put operation s).0 ≡ err e
        → ((store (transaction sqlite outside store put operation s).1).events ≡ (store s).events)
          ⊎ ((store (transaction sqlite outside store put operation s).1).recovery_required ≡ true)
    transaction_atomic laws operation inside s synced threw =
        Meets_threw (transaction sqlite outside store put operation)
          (transaction-Meets (sqlite.event_rows (store s).database) (store s).events synced laws
            operation (λ a. Unit)
            (Meets_weaken operation (inside.keeps (sqlite.event_rows (store s).database))
              (λ a t h. (h, tt)) (λ f t h. h)))
          s (refl, refl) threw
