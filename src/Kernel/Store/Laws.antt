-- ===== src/Kernel/Store/Laws.antt =====
-- What SQLite documents of its transactions, and the log that a reader of the database gets.
use fdos_genesis.Prelude.{ℕ, ◌≡◌, Bool, true, false, Option, none, some, List}
use fdos_genesis.Kernel.Result.{
  FdosError, Result, ok, err, conflict, integrity, persistence, database_error, or_throw,
  or_throw-eq-ok, guard,
}
use fdos_genesis.Kernel.Result
use fdos_genesis.Kernel.EventLog.{Event}
use fdos_genesis.Kernel.Store.{
  Sqlite, Outside, Store, Statement, begin_immediate, commit, rollback, EventRow,
}
use fdos_genesis.Kernel.Store.Rows.{parse_event_rows}

-- The statements inside a transaction.
abbrev pub is_inner : Statement → Bool
is_inner begin_immediate = false
is_inner commit = false
is_inner rollback = false
is_inner _ = true

-- What SQLite documents of transactions. `saved` is nothing while no transaction is open, and else
-- what the rows of the events were when the open one began. A statement inside an open transaction
-- leaves that as it is, whether it succeeds or not, and so does a commit that fails, which leaves the
-- transaction open; a rollback that succeeds puts the rows back. An error for which SQLite rolls back
-- on its own is not among those that are covered, and nothing is said of a statement that runs
-- without a transaction.
pub record Transactional (sqlite : Sqlite) : Type 0 where
  pub saved : sqlite.Database → Option (Option (List EventRow))
  pub begins :
      (db : sqlite.Database) {n : ℕ}
      → (sqlite.run begin_immediate db).0 ≡ some n
      → saved (sqlite.run begin_immediate db).1 ≡ some (sqlite.event_rows db)
  pub inside :
      (statement : Statement) (db : sqlite.Database) {rows : Option (List EventRow)}
      → is_inner statement ≡ true
      → saved db ≡ some rows
      → saved (sqlite.run statement db).1 ≡ some rows
  pub commit_fails :
      (db : sqlite.Database) {rows : Option (List EventRow)}
      → (sqlite.run commit db).0 ≡ none
      → saved db ≡ some rows
      → saved (sqlite.run commit db).1 ≡ some rows
  pub rolls_back :
      (db : sqlite.Database) {n : ℕ} {rows : Option (List EventRow)}
      → (sqlite.run rollback db).0 ≡ some n
      → saved db ≡ some rows
      → sqlite.event_rows (sqlite.run rollback db).1 ≡ rows

module _ (sqlite : Sqlite) {P : Type 0} (outside : Outside P) where
  abbrev pub Held : Type 0
  Held = Store sqlite.Database P

  -- The log that a reader of the database gets.
  abbrev pub read_log : Option (List EventRow) → Result (List (Event P))
  read_log rows = Result.◌>>=◌ (or_throw rows database_error) (parse_event_rows outside)

  -- The log in memory is the one in the database.
  abbrev pub IsSynced : Held → Type 0
  IsSynced st = read_log (sqlite.event_rows st.database) ≡ ok st.events
