-- ===== src/Runtime/Saved.antt =====
-- runtime/fdos-runtime.js: what a rollback returns to, under each command.
use fdos_genesis.Prelude.{ℕ, ◌+◌, ◌≡◌, refl, true, String, Option, none, some, List}
use fdos_genesis.Kernel.Result.{FdosError, Result, ok, err}
use fdos_genesis.Kernel.Exec.{Exec, pure, reading, modify, attempt, zoom, ◌>>=◌, ◌>>◌}
use fdos_genesis.Kernel.Exec.Meets.{
  Meets, Keeps, Keeps-from, Keeps-reading, Keeps-bind, Meets-bind, Meets-attempt, Meets-zoom,
  Keeps-throw_if, Keeps-modify, Meets_also,
}
use fdos_genesis.Kernel.Json.{Json}
use fdos_genesis.Kernel.EventLog.{Actor}
use fdos_genesis.Kernel.Store.{
  Store, Statement, EventRow, savepoint, release, rollback_to, insert_event, append_now, created,
  inserted, row_of,
}
use fdos_genesis.Kernel.Store
use fdos_genesis.Kernel.Store.Laws.{Transactional, is_inner}
use fdos_genesis.Kernel.Store.Transactions.{
  enter_savepoint, undo_savepoint, execute, throw_failure, leave_savepoint, with_savepoint,
}
use fdos_genesis.Reducer.Payload.{Payload, RuntimeEvent}
use fdos_genesis.Runtime.Events.{event_type}
use fdos_genesis.Runtime.{Environment, Live, Command, store_of, put_store, append, now, new_id}
use fdos_genesis.Runtime.Keeps.{Kept, command_rules}
use fdos_genesis.Runtime.Authenticated.{Accepted, accept_authenticated_invocation, record_failure}

ruleset entering = (Keeps-bind, Keeps-throw_if, Keeps-reading, Keeps-modify)

module _ (env : Environment) (laws : Transactional env.sqlite) (rows : Option (List EventRow)) where
  abbrev Held : Type 0
  Held = Store env.sqlite.Database Payload

  -- What a rollback would return to.
  abbrev pub IsSaved : Live env → Type 0
  IsSaved r = laws.saved r.store.database ≡ some rows

  abbrev Saved : Held → Type 0
  Saved st = laws.saved st.database ≡ some rows

  created-Saved :
      (st : Held) (made : Result RuntimeEvent)
      → Saved st
      → Saved (created env.sqlite env.outside st made).1
  created-Saved st (err e) h = h
  created-Saved st (ok e) h =
      went (env.sqlite.run (insert_event (row_of env.outside e)) st.database)
        (laws.inside (insert_event (row_of env.outside e)) st.database refl h)
    where
      went :
          (ran : Option ℕ × env.sqlite.Database)
          → laws.saved ran.1 ≡ some rows
          → Saved (inserted env.sqlite env.outside e st ran).1
      went (none, db) q = q
      went (some n, db) q = q

  append-Saved :
      (type : String) (actor : Actor) (subject : String) (payload : Payload)
      → Keeps Saved (Store.append env.sqlite env.outside type actor subject payload)
  unfolding Store.append append_now
  append-Saved type actor subject payload =
      Keeps-bind (reading Store.assert_writable) _ (Keeps-reading _) (λ _.
        Keeps-from (append_now env.sqlite env.outside type actor subject payload) (λ st h.
          created-Saved (record st { readings = st.readings + 1; made_ids = st.made_ids + 1 }) _ h))

  append-IsSaved :
      (actor : Actor) (subject : String) (payload : Payload)
      → Keeps IsSaved (append env actor subject payload)
  unfolding append
  append-IsSaved actor subject payload =
      Keeps-bind
        (zoom (store_of env) (put_store env)
          (Store.append env.sqlite env.outside (event_type payload) actor subject payload))
        _
        (Meets-zoom (store_of env) (put_store env) _ (λ st r. refl)
          (append-Saved (event_type payload) actor subject payload))
        (λ e. Keeps-from _ (λ r h. h))

  now-IsSaved : Keeps IsSaved (now env)
  unfolding now Store.read_clock
  now-IsSaved = Keeps-from _ (λ r h. h)

  new_id-IsSaved : (prefix : String) → Keeps IsSaved (new_id env prefix)
  unfolding new_id Store.make_id
  new_id-IsSaved prefix = Keeps-from _ (λ r h. h)

  pub kept-IsSaved : Kept env IsSaved IsSaved
  kept-IsSaved = record {
    weakens = record { at = λ r h. h };
    appends = append-IsSaved;
    reads_clock = now-IsSaved;
    makes_ids = new_id-IsSaved;
  }

  execute-IsSaved :
      (statement : Statement)
      → is_inner statement ≡ true
      → Keeps IsSaved
          (zoom (store_of env) (put_store env) (execute env.sqlite env.outside statement))
  unfolding execute
  execute-IsSaved statement inner =
      Keeps-from _ (λ r h. laws.inside statement r.store.database inner h)

  enter_savepoint-Saved : Keeps Saved (enter_savepoint env.sqlite env.outside)
  unfolding enter_savepoint
  enter_savepoint-Saved = search entering depth 20

  enter_savepoint-IsSaved :
      Keeps IsSaved (zoom (store_of env) (put_store env) (enter_savepoint env.sqlite env.outside))
  enter_savepoint-IsSaved =
      Meets-zoom (store_of env) (put_store env) _ (λ st r. refl) enter_savepoint-Saved

  undo_savepoint-IsSaved :
      {A : Type 0} {Q : A → Live env → Type 0} (base : ℕ) (e : FdosError)
      → Meets IsSaved
          (zoom
            (store_of env)
            (put_store env)
            (undo_savepoint env.sqlite env.outside {A = A} base e))
          Q
          (λ _. IsSaved)
  unfolding undo_savepoint
  undo_savepoint-IsSaved base e = record {
    at = λ r h. laws.inside rollback_to r.store.database refl h;
  }

  module _ {A : Type 0} (V : A → Type 0) where
    -- The state is as before, and what is known of the value is still known.
    abbrev Returns : A → Live env → Type 0
    Returns a r = IsSaved r × V a

    ending :
        (a : A)
        → Meets
            (Returns a)
            (do
              zoom (store_of env) (put_store env) (reading (throw_failure env.sqlite env.outside))
              zoom (store_of env) (put_store env) (execute env.sqlite env.outside release)
              pure a)
            Returns
            (λ _. IsSaved)
    ending a =
        Meets-bind
          (zoom (store_of env) (put_store env) (reading (throw_failure env.sqlite env.outside))) _
          (Meets_also (V a) _ (Keeps-from _ (λ r h. h)))
          (λ _.
            Meets-bind
              (zoom (store_of env) (put_store env) (execute env.sqlite env.outside release)) _
              (Meets_also (V a) _ (execute-IsSaved release refl)) (λ _. record { at = λ r h. h }))

    leaving :
        (a : A)
        → Meets
            (Returns a)
            (do
              zoom (store_of env) (put_store env) (modify (leave_savepoint env.sqlite env.outside))
              pure a)
            Returns
            (λ _. IsSaved)
    leaving a = record { at = λ r h. h }

    pub with_savepoint-IsSaved :
        (operation : Exec (Live env) A)
        → Meets IsSaved operation Returns (λ _. IsSaved)
        → Meets IsSaved
            (with_savepoint env.sqlite env.outside (store_of env) (put_store env) operation)
            Returns
            (λ _. IsSaved)
    unfolding with_savepoint
    with_savepoint-IsSaved operation h =
        Meets-bind (zoom (store_of env) (put_store env) (enter_savepoint env.sqlite env.outside)) _
          enter_savepoint-IsSaved
          (λ base.
            Meets-bind
              (attempt
                (do
                  zoom (store_of env) (put_store env) (execute env.sqlite env.outside savepoint)
                  a ← operation
                  zoom (store_of env) (put_store env)
                      (reading (throw_failure env.sqlite env.outside))
                  zoom (store_of env) (put_store env) (execute env.sqlite env.outside release)
                  pure a)
                (λ e.
                  zoom (store_of env) (put_store env)
                    (undo_savepoint env.sqlite env.outside base e)))
              _
              (Meets-attempt _ _
                (Meets-bind
                  (zoom (store_of env) (put_store env) (execute env.sqlite env.outside savepoint)) _
                  (execute-IsSaved savepoint refl) (λ _. Meets-bind operation _ h ending))
                (undo_savepoint-IsSaved base))
              leaving)

  pub accept-IsSaved :
      (invocation : Json) (command : Command)
      → Keeps IsSaved (accept_authenticated_invocation env invocation command)
  unfolding accept_authenticated_invocation
  accept-IsSaved invocation command = search (command_rules, kept-IsSaved) depth 40 fits 3000

  pub record_failure-IsSaved :
      (command : Command) (accepted : Accepted) (e : FdosError)
      → Keeps IsSaved (record_failure env command accepted e)
  unfolding record_failure
  record_failure-IsSaved command accepted e = search (command_rules, kept-IsSaved) depth 10
