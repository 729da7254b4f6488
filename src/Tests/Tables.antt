-- ===== src/Tests/Tables.antt =====
-- A small database in place of node:sqlite: the rows of the events now, when the transaction began
-- and when the savepoint was made. Whether a COMMIT goes through is chosen.
use fdos_genesis.Prelude.{
  ℕ, ◌≡◌, refl, Bool, true, false, Option, none, some, List, [], ◌∷◌, ◌++◌, arith,
}
use fdos_genesis.Kernel.Store.{
  Sqlite, Statement, begin_immediate, commit, rollback, savepoint, release, rollback_to,
  insert_event, insert_transaction, commit_transaction, EventRow,
}
use fdos_genesis.Kernel.Store.Laws.{Transactional, is_inner}

pub record Tables : Type 0 where
  pub rows : List EventRow
  pub begun : Option (List EventRow)
  pub marked : List EventRow

-- A COMMIT and a ROLLBACK fail without an open transaction, a BEGIN inside one.
abbrev start_transaction : Option (List EventRow) → Tables → Option ℕ × Tables
start_transaction none db = (some 0, record db { begun = some db.rows })
start_transaction (some rows) db = (none, db)

abbrev end_transaction : (commits : Bool) → Option (List EventRow) → Tables → Option ℕ × Tables
end_transaction commits none db = (none, db)
end_transaction true (some rows) db = (some 0, record db { begun = none })
end_transaction false (some rows) db = (none, db)

abbrev undo_transaction : Option (List EventRow) → Tables → Option ℕ × Tables
undo_transaction none db = (none, db)
undo_transaction (some rows) db = (some 0, record db { rows = rows; begun = none })

-- A savepoint outside a transaction opens one.
abbrev or_now : Option (List EventRow) → List EventRow → Option (List EventRow)
or_now none rows = some rows
or_now (some old) rows = some old

abbrev pub run : (commits : Bool) → Statement → Tables → Option ℕ × Tables
run commits begin_immediate db = start_transaction db.begun db
run commits commit db = end_transaction commits db.begun db
run commits rollback db = undo_transaction db.begun db
run commits savepoint db = (some 0, record db { begun = or_now db.begun db.rows; marked = db.rows })
run commits release db = (some 0, db)
run commits rollback_to db = (some 0, record db { rows = db.marked })
run commits (insert_event row) db = (some 1, record db { rows = db.rows ++ row ∷ [] })
run commits (insert_transaction id at) db = (some 1, db)
run commits (commit_transaction row) db = (some 1, db)

abbrev pub sqlite : (commits : Bool) → Sqlite
sqlite commits = record {
  Database = Tables;
  run = run commits;
  quick_check = λ db. some true;
  event_rows = λ db. some db.rows;
  transaction_rows = λ db. some [];
}

abbrev pub no_rows : Tables
no_rows = record { rows = []; begun = none; marked = [] }

abbrev saved_rows : Option (List EventRow) → Option (Option (List EventRow))
saved_rows none = none
saved_rows (some rows) = some (some rows)

run-saved :
    (commits : Bool) (statement : Statement) (db : Tables) {rows : Option (List EventRow)}
    → is_inner statement ≡ true
    → saved_rows db.begun ≡ some rows
    → saved_rows (run commits statement db).1.begun ≡ some rows
run-saved commits begin_immediate db p h = cc
run-saved commits commit db p h = cc
run-saved commits rollback db p h = cc
run-saved commits savepoint db p h = kept db.begun h
  where
    kept :
        (begun : Option (List EventRow)) {rows : Option (List EventRow)}
        → saved_rows begun ≡ some rows
        → saved_rows (or_now begun db.rows) ≡ some rows
    kept none q = cc
    kept (some old) q = q
run-saved commits release db p h = h
run-saved commits rollback_to db p h = h
run-saved commits (insert_event row) db p h = h
run-saved commits (insert_transaction id at) db p h = h
run-saved commits (commit_transaction row) db p h = h

start_transaction-saved :
    (begun : Option (List EventRow)) (db : Tables) {n : ℕ}
    → (start_transaction begun db).0 ≡ some n
    → saved_rows (start_transaction begun db).1.begun ≡ some (some db.rows)
start_transaction-saved none db h = refl
start_transaction-saved (some rows) db h = cc

end_transaction-saved :
    (commits : Bool) (begun : Option (List EventRow)) (db : Tables) {rows : Option (List EventRow)}
    → (end_transaction commits begun db).0 ≡ none
    → saved_rows db.begun ≡ some rows
    → saved_rows (end_transaction commits begun db).1.begun ≡ some rows
end_transaction-saved true none db p h = h
end_transaction-saved false none db p h = h
end_transaction-saved true (some rows) db p h = cc
end_transaction-saved false (some rows) db p h = h

undo_transaction-rows :
    (begun : Option (List EventRow)) (db : Tables) {n : ℕ} {rows : Option (List EventRow)}
    → (undo_transaction begun db).0 ≡ some n
    → saved_rows begun ≡ some rows
    → some (undo_transaction begun db).1.rows ≡ rows
undo_transaction-rows none db p h = cc
undo_transaction-rows (some rows) db p h = ground (arith, h)

pub sqlite-Transactional : (commits : Bool) → Transactional (sqlite commits)
sqlite-Transactional commits = record {
  saved = λ db. saved_rows db.begun;
  begins = λ db p. start_transaction-saved db.begun db p;
  inside = λ statement db p h. run-saved commits statement db p h;
  commit_fails = λ db p h. end_transaction-saved commits db.begun db p h;
  rolls_back = λ db p h. undo_transaction-rows db.begun db p h;
}
