-- ===== src/Runtime/Faithful.antt =====
-- runtime/fdos-runtime.js: the state in memory against a replay of the log, under `append`, `now` and
-- new identifiers.
pub mod Transactions
pub mod Execution
use fdos_genesis.Prelude.{
  ℕ, ◌+◌, ◌≡◌, refl, sym, ap, subst, ◌∙◌, Bool, true, false, String, Option, none, some, List, [],
  ◌∷◌, ◌++◌, arith,
}
use fdos_genesis.Kernel.Result.{FdosError, Result, ok, err}
use fdos_genesis.Kernel.Exec.{Exec, continue, zoom, ◌>>=◌, reading}
use fdos_genesis.Kernel.Exec.Meets.{
  After, Meets, Keeps, Keeps-from, Meets-bind, Meets_step, Keeps_at, Meets-reading,
}
use fdos_genesis.Kernel.EventLog.{Actor, Event, create_audit_event}
use fdos_genesis.Kernel.Store.{
  Store, append_now, created, inserted, active_id, insert_event, row_of, assert_writable,
}
use fdos_genesis.Kernel.Store
use fdos_genesis.Model.{State, empty_state}
use fdos_genesis.Reducer.Payload.{Payload, RuntimeEvent}
use fdos_genesis.Reducer.Apply.{apply_runtime_event, replay}
use fdos_genesis.Reducer.Apply.Resume.{replay-append}
use fdos_genesis.Runtime.{
  Environment, Live, Runtime, store_of, put_store, state_of, put_state, append, now, new_id,
}
use fdos_genesis.Runtime.Events.{event_type}
use fdos_genesis.Runtime.Keeps.{Kept}

module _ (env : Environment) where
  abbrev pub Held : Type 0
  Held = Store env.sqlite.Database Payload

  -- If the log can be replayed, the replay ends in this state.
  abbrev pub Agrees : List RuntimeEvent → State → Type 0
  Agrees es s = (t : State) → replay env.seals es empty_state ≡ (ok tt, t) → t ≡ s

  pub record IsFaithful (r : Live env) : Type 0 where
    pub opened : r.store.closed ≡ false
    pub agrees : Agrees r.store.events r.state

  Agrees-append :
      (es : List RuntimeEvent) (e : RuntimeEvent) (s : State)
      → Agrees es s
      → Agrees (es ++ e ∷ []) (apply_runtime_event env.seals e s).1
  Agrees-append es e s h t replayed =
      let (s', before, done) = replay-append env.seals es e empty_state replayed in
      sym done ∙ ap (λ x. (apply_runtime_event env.seals e x).1) (h s' before)

  -- What the store's `append` makes of the log.
  abbrev pub Extended : List RuntimeEvent → Result RuntimeEvent → Held → Type 0
  Extended es r st =
      (st.closed ≡ false) × After (λ e st. st.events ≡ es ++ e ∷ []) (λ _ st. st.events ≡ es) r st

  inserted-Extended :
      (e : RuntimeEvent) (st : Held) (ran : Option ℕ × env.sqlite.Database)
      → st.closed ≡ false
      → Extended st.events
          (inserted env.sqlite env.outside e st ran).0
          (inserted env.sqlite env.outside e st ran).1
  inserted-Extended e st (none, db) h = (h, refl)
  inserted-Extended e st (some n, db) h = (h, refl)

  created-Extended :
      (st : Held) (made : Result RuntimeEvent)
      → st.closed ≡ false
      → Extended st.events
          (created env.sqlite env.outside st made).0
          (created env.sqlite env.outside st made).1
  created-Extended st (err e) h = (h, refl)
  created-Extended st (ok e) h = inserted-Extended e st _ h

  writable-Extended :
      (r : Result (Unit {0})) (st : Held) (m : Exec Held RuntimeEvent)
      → st.closed ≡ false
      → Extended st.events (m st).0 (m st).1
      → Extended st.events (continue r (λ _. m) st).0 (continue r (λ _. m) st).1
  writable-Extended (ok u) st m h k = k
  writable-Extended (err e) st m h k = (h, refl)

  pub append-Extended :
      (type : String) (actor : Actor) (subject : String) (payload : Payload) (st : Held)
      → st.closed ≡ false
      → Extended st.events
          (Store.append env.sqlite env.outside type actor subject payload st).0
          (Store.append env.sqlite env.outside type actor subject payload st).1
  unfolding Store.append append_now
  append-Extended type actor subject payload st h =
      writable-Extended (assert_writable st) st
        (append_now env.sqlite env.outside type actor subject payload) h
        (created-Extended (record st { readings = st.readings + 1; made_ids = st.made_ids + 1 }) _
          h)

  applied-IsFaithful :
      (made : Result RuntimeEvent) (st : Held) (r : Live env)
      → Extended r.store.events made st
      → IsFaithful r
      → IsFaithful
          (continue made
            (λ e. zoom (state_of env) (put_state env) (apply_runtime_event env.seals e))
            (put_store env st r)).1
  applied-IsFaithful (ok e) st r x f = record {
    opened = x.0;
    agrees =
        subst (λ es. Agrees es (apply_runtime_event env.seals e r.state).1) (sym x.1)
          (Agrees-append r.store.events e r.state f.agrees);
  }
  applied-IsFaithful (err e) st r x f = record {
    opened = x.0;
    agrees = subst (λ es. Agrees es r.state) (sym x.1) f.agrees;
  }

  append-IsFaithful :
      (actor : Actor) (subject : String) (payload : Payload)
      → Keeps IsFaithful (append env actor subject payload)
  unfolding append
  append-IsFaithful actor subject payload = Keeps-from _ (λ r f.
      applied-IsFaithful _ _ r
        (append-Extended (event_type payload) actor subject payload r.store f.opened) f)

  now-IsFaithful : Keeps IsFaithful (now env)
  unfolding now Store.read_clock
  now-IsFaithful = Keeps-from _ (λ r f. record { opened = f.opened; agrees = f.agrees })

  new_id-IsFaithful : (prefix : String) → Keeps IsFaithful (new_id env prefix)
  unfolding new_id Store.make_id
  new_id-IsFaithful prefix = Keeps-from _ (λ r f. record { opened = f.opened; agrees = f.agrees })

  pub kept-IsFaithful : Kept env IsFaithful IsFaithful
  kept-IsFaithful = record {
    weakens = record { at = λ r f. f };
    appends = append-IsFaithful;
    reads_clock = now-IsFaithful;
    makes_ids = new_id-IsFaithful;
  }
