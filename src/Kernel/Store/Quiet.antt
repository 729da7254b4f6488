-- ===== src/Kernel/Store/Quiet.antt =====
-- kernel/sqlite-event-store.js: the steps around the operation of a transaction, and what of the
-- store each step does not touch.
use fdos_genesis.Prelude.{
  ℕ, ◌≡◌, refl, ◌∙◌, Bool, true, false, String, List, Nothing, if◌then◌else◌,
}
use fdos_genesis.Kernel.Result.{FdosError, err}
use fdos_genesis.Kernel.Exec.{Exec, lift, attempt}
use fdos_genesis.Kernel.Exec.Meets.{Meets, Keeps, Keeps-from, Meets-bind}
use fdos_genesis.Kernel.Exec.Leaves.{
  Leaves, Leaves-pure, Leaves-lift, Leaves-reading, Leaves-throw_if, Leaves-bind, Leaves-attempt,
  Leaves-modify, Leaves-if,
}
use fdos_genesis.Kernel.Validation.{Stamp}
use fdos_genesis.Kernel.EventLog.{Event}
use fdos_genesis.Kernel.Store.{Sqlite, Outside, Store, Statement, make_id, read_clock}
use fdos_genesis.Kernel.Store.Transactions.{
  begin, begin_database, activate, conclude, finalize, deactivate, abort, reload, set_events,
  roll_back, require_recovery, execute, enter_savepoint, undo_savepoint, rolled_back_error,
}

module _ {D P : Type 0} where
  abbrev pub log_part : Store D P → List (Event P) × Bool
  log_part st = (st.events, st.closed)

  abbrev pub closed_part : Store D P → Bool
  closed_part st = st.closed

module _ (sqlite : Sqlite) {P : Type 0} (outside : Outside P) where
  abbrev Held : Type 0
  Held = Store sqlite.Database P

  pub make_id-Leaves :
      (prefix : String) → Leaves (log_part {D = sqlite.Database}) (make_id outside prefix)
  unfolding make_id
  make_id-Leaves prefix = record { at = λ s. refl }

  pub read_clock-Leaves : Leaves (log_part {D = sqlite.Database}) (read_clock outside)
  unfolding read_clock
  read_clock-Leaves = record { at = λ s. refl }

  pub execute-Leaves : (statement : Statement) → Leaves log_part (execute sqlite outside statement)
  unfolding execute
  execute-Leaves statement = record { at = λ s. refl }

  activate-Leaves :
      (id : String) (at : Stamp) (base : ℕ) → Leaves log_part (activate sqlite outside id at base)
  unfolding activate
  activate-Leaves id at base = record { at = λ s. refl }

  deactivate-Leaves : Leaves log_part (deactivate sqlite outside)
  unfolding deactivate
  deactivate-Leaves = record { at = λ s. refl }

ruleset step_rules = (
  Leaves-bind, Leaves-pure, Leaves-lift, Leaves-reading, Leaves-throw_if, Leaves-attempt, Leaves-if,
  Leaves-modify, make_id-Leaves, read_clock-Leaves, execute-Leaves, activate-Leaves,
  deactivate-Leaves, refl,
)

module _ (sqlite : Sqlite) {P : Type 0} (outside : Outside P) where
  begin_database-Leaves :
      (id : String) (at : Stamp) → Leaves log_part (begin_database sqlite outside id at)
  unfolding begin_database
  begin_database-Leaves id at = search step_rules depth 30 fits 2000

  pub begin-Leaves : Leaves log_part (begin sqlite outside)
  unfolding begin
  begin-Leaves = search (step_rules, begin_database-Leaves) depth 40 fits 3000

  pub conclude-Leaves : (base : ℕ) → Leaves log_part (conclude sqlite outside base)
  unfolding conclude
  conclude-Leaves base = search step_rules

  pub finalize-Leaves : (base : ℕ) → Leaves log_part (finalize sqlite outside base)
  unfolding finalize
  finalize-Leaves base = search step_rules depth 40 fits 3000

  pub enter_savepoint-Leaves : Leaves log_part (enter_savepoint sqlite outside)
  unfolding enter_savepoint
  enter_savepoint-Leaves = search step_rules depth 20

  roll_back-Leaves : Leaves closed_part (roll_back sqlite outside)
  unfolding roll_back
  roll_back-Leaves = record { at = λ s. refl }

  require_recovery-Leaves :
      {A : Type 0} → Leaves closed_part (require_recovery sqlite outside {A = A})
  unfolding require_recovery
  require_recovery-Leaves = record { at = λ s. refl }

  set_events-Leaves : (es : List (Event P)) → Leaves closed_part (set_events sqlite outside es)
  unfolding set_events
  set_events-Leaves es = record { at = λ s. refl }

  reload-Leaves : Leaves closed_part (reload sqlite outside)
  unfolding reload
  reload-Leaves = search (step_rules, set_events-Leaves) depth 30 fits 2000

  -- Each handler throws, and leaves an open store open.
  abbrev pub IsOpen : Store sqlite.Database P → Type 0
  IsOpen st = st.closed ≡ false

  IsOpen-kept :
      {A : Type 0} (m : Exec (Store sqlite.Database P) A) → Leaves closed_part m → Keeps IsOpen m
  IsOpen-kept m h = Keeps-from m (λ st o. h.at st ∙ o)

  throws_either :
      {A : Type 0} (b : Bool) (e : FdosError)
      → Meets IsOpen
          (if b then lift (err e) else require_recovery sqlite outside {A = A})
          (λ _ _. Nothing)
          (λ _. IsOpen)
  unfolding require_recovery
  throws_either true e = record { at = λ st o. o }
  throws_either false e = record { at = λ st o. o }

  pub abort_throws :
      {A : Type 0} (finalizing : Bool) (e : FdosError)
      → Meets IsOpen (abort sqlite outside {A = A} finalizing e) (λ _ _. Nothing) (λ _. IsOpen)
  unfolding abort
  abort_throws finalizing e =
      Meets-bind (roll_back sqlite outside) _ (IsOpen-kept _ roll_back-Leaves) (λ completed.
        Meets-bind (attempt (reload sqlite outside) (λ f. require_recovery sqlite outside)) _
          (IsOpen-kept _ (Leaves-attempt _ _ reload-Leaves (λ f. require_recovery-Leaves)))
          (λ _. throws_either completed (rolled_back_error finalizing e)))

  pub undo_savepoint_throws :
      {A : Type 0} (base : ℕ) (e : FdosError)
      → Meets IsOpen (undo_savepoint sqlite outside {A = A} base e) (λ _ _. Nothing) (λ _. IsOpen)
  unfolding undo_savepoint
  undo_savepoint_throws base e = record { at = λ st o. o }
