-- ===== src/Runtime/Exact.antt =====
-- runtime/fdos-runtime.js: the state in memory is exactly what a replay of the log ends in, as long as
-- no event is refused.
pub mod Transactions
pub mod Execution
use fdos_genesis.Prelude.{◌≡◌, refl, sym, ap, subst, ◌∙◌, false, String, List, [], ◌∷◌, ◌++◌, arith}
use fdos_genesis.Kernel.Result.{FdosError, Result, ok, err}
use fdos_genesis.Kernel.Exec.{Exec, continue, zoom}
use fdos_genesis.Kernel.Exec.Meets.{After, Keeps, Keeps-from}
use fdos_genesis.Kernel.Exec.Holds.{Holds}
use fdos_genesis.Kernel.EventLog.{Actor}
use fdos_genesis.Kernel.Store.{Store}
use fdos_genesis.Kernel.Store
use fdos_genesis.Model.{State, empty_state}
use fdos_genesis.Reducer.Payload.{Payload, RuntimeEvent}
use fdos_genesis.Reducer.Apply.{apply_runtime_event, replay}
use fdos_genesis.Reducer.Apply.Resume.{replay_then}
use fdos_genesis.Runtime.{Environment, Live, put_store, state_of, put_state, append, now, new_id}
use fdos_genesis.Runtime.Events.{event_type}
use fdos_genesis.Runtime.Keeps.{Kept}
use fdos_genesis.Runtime.Faithful.{IsFaithful, Held, Extended, append-Extended}
use fdos_genesis.Runtime.Faithful.Transactions.{IsOpen}

module _ (env : Environment) where
  -- The store is open, and a replay of the whole log reaches its end in the state in memory.
  pub record IsExact (r : Live env) : Type 0 where
    pub opened : r.store.closed ≡ false
    pub exact : replay env.seals r.store.events empty_state ≡ (ok tt, r.state)

  pub IsExact-IsFaithful : (r : Live env) → IsExact r → IsFaithful env r
  IsExact-IsFaithful r x = record {
    opened = x.opened;
    agrees = λ t h. ap (λ p. p.1) (sym h ∙ x.exact);
  }

  ended-IsExact :
      (e : RuntimeEvent) (st : Held env) (r : Live env) (o : Result (Unit {0}))
      → apply_runtime_event env.seals e r.state ≡ (o, (apply_runtime_event env.seals e r.state).1)
      → Extended env r.store.events (ok e) st
      → IsExact r
      → After
          (λ _. IsExact)
          (λ _. (IsOpen env))
          o
          (put_state env (apply_runtime_event env.seals e r.state).1 (put_store env st r))
  ended-IsExact e st r (ok u) done x f = record {
    opened = x.0;
    exact =
        ap (λ es. replay env.seals es empty_state) x.1
        ∙ replay_then env.seals r.store.events e empty_state r.state f.exact done;
  }
  ended-IsExact e st r (err f) done x k = x.0

  applied-IsExact :
      (made : Result RuntimeEvent) (st : Held env) (r : Live env)
      → Extended env r.store.events made st
      → IsExact r
      → let after =
          continue made
            (λ e. zoom (state_of env) (put_state env) (apply_runtime_event env.seals e))
            (put_store env st r) in
        After (λ _. IsExact) (λ _. (IsOpen env)) after.0 after.1
  applied-IsExact (ok e) st r x f = ended-IsExact e st r _ refl x f
  applied-IsExact (err e) st r x f = x.0

  append-IsExact :
      (actor : Actor) (subject : String) (payload : Payload)
      → Holds IsExact (IsOpen env) (append env actor subject payload)
  unfolding append
  append-IsExact actor subject payload = record {
    at = λ r f.
        applied-IsExact _ _ r
          (append-Extended env (event_type payload) actor subject payload r.store f.opened) f;
  }

  now-IsExact : Holds IsExact (IsOpen env) (now env)
  unfolding now Store.read_clock
  now-IsExact = record { at = λ r f. record { opened = f.opened; exact = f.exact } }

  new_id-IsExact : (prefix : String) → Holds IsExact (IsOpen env) (new_id env prefix)
  unfolding new_id Store.make_id
  new_id-IsExact prefix = record { at = λ r f. record { opened = f.opened; exact = f.exact } }

  pub kept-IsExact : Kept env IsExact (IsOpen env)
  kept-IsExact = record {
    weakens = record { at = λ r f. f.opened };
    appends = append-IsExact;
    reads_clock = now-IsExact;
    makes_ids = new_id-IsExact;
  }

  -- The store stays open under every event.
  applied-IsOpen :
      (made : Result RuntimeEvent) (st : Held env) (r : Live env)
      → st.closed ≡ false
      → IsOpen env
          (continue made
            (λ e. zoom (state_of env) (put_state env) (apply_runtime_event env.seals e))
            (put_store env st r)).1
  applied-IsOpen (ok e) st r o = o
  applied-IsOpen (err e) st r o = o

  append-IsOpen :
      (actor : Actor) (subject : String) (payload : Payload)
      → Keeps (IsOpen env) (append env actor subject payload)
  unfolding append
  append-IsOpen actor subject payload = Keeps-from _ (λ r o.
      applied-IsOpen _ _ r
        (append-Extended env (event_type payload) actor subject payload r.store o).0)

  now-IsOpen : Keeps (IsOpen env) (now env)
  unfolding now Store.read_clock
  now-IsOpen = Keeps-from _ (λ r o. o)

  new_id-IsOpen : (prefix : String) → Keeps (IsOpen env) (new_id env prefix)
  unfolding new_id Store.make_id
  new_id-IsOpen prefix = Keeps-from _ (λ r o. o)

  pub kept-IsOpen : Kept env (IsOpen env) (IsOpen env)
  kept-IsOpen = record {
    weakens = record { at = λ r o. o };
    appends = append-IsOpen;
    reads_clock = now-IsOpen;
    makes_ids = new_id-IsOpen;
  }
