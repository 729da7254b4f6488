-- ===== src/Runtime/Faithful/Transactions.antt =====
-- A transaction keeps the state in memory faithful to the log, or throws and leaves the store open.
use fdos_genesis.Prelude.{◌≡◌, refl, sym, ap, subst, ◌∙◌, true, false, List, Nothing, arith}
use fdos_genesis.Kernel.Result.{FdosError, Result, ok, err}
use fdos_genesis.Kernel.Exec.{Exec, pure, reading, modify, attempt, zoom, continue, ◌>>=◌, ◌>>◌}
use fdos_genesis.Kernel.Exec.Leaves.{Leaves, Leaves-reading}
use fdos_genesis.Kernel.Exec.Meets.{
  Meets, Keeps, Keeps-from, Keeps-pure, Keeps-lift, Keeps-bind, Meets_weaken, Meets-bind,
  Meets-attempt, Meets-zoom, Keeps_when,
}
use fdos_genesis.Kernel.Store.{Store, savepoint, release}
use fdos_genesis.Kernel.Store
use fdos_genesis.Kernel.Store.Transactions.{
  begin, conclude, finalize, abort, enter_savepoint, undo_savepoint, execute, throw_failure,
  leave_savepoint, transaction, with_savepoint,
}
use fdos_genesis.Kernel.Store.Quiet.{
  log_part, closed_part, begin-Leaves, conclude-Leaves, finalize-Leaves, enter_savepoint-Leaves,
  execute-Leaves, abort_throws, undo_savepoint_throws,
}
use fdos_genesis.Kernel.Store.Quiet
use fdos_genesis.Model.{empty_state}
use fdos_genesis.Reducer.Payload.{Payload, RuntimeEvent}
use fdos_genesis.Reducer.Apply.{replay}
use fdos_genesis.Runtime.{Environment, Live, store_of, put_store, state_of, put_state, rehydrate}
use fdos_genesis.Runtime.Authenticated.{recover}
use fdos_genesis.Runtime.Faithful.{IsFaithful, Agrees}

module _ (env : Environment) where
  abbrev Held : Type 0
  Held = Store env.sqlite.Database Payload

  abbrev pub IsOpen : Live env → Type 0
  IsOpen r = r.store.closed ≡ false

  -- A computation that keeps the runtime faithful if it returns, and open if it throws.
  abbrev pub Settles : {A : Type 0} → (Live env → Type 0) → Exec (Live env) A → Type 0
  Settles P m = Meets P m (λ _. IsFaithful env) (λ _. IsOpen)

  pub kept-Settles :
      {A : Type 0} {m : Exec (Live env) A} → Keeps (IsFaithful env) m → Settles (IsFaithful env) m
  kept-Settles h = Meets_weaken _ h (λ a r f. f) (λ e r f. f.opened)

  zoom-IsFaithful :
      {A : Type 0} (m : Exec Held A)
      → Leaves log_part m
      → Keeps (IsFaithful env) (zoom (store_of env) (put_store env) m)
  zoom-IsFaithful m h = Keeps-from _ (λ r f. record {
    opened = ap (λ x. x.1) (h.at r.store) ∙ f.opened;
    agrees = subst (λ es. Agrees env es r.state) (sym (ap (λ x. x.0) (h.at r.store))) f.agrees;
  })

  zoom-IsOpen :
      {A : Type 0} (m : Exec Held A)
      → Leaves closed_part m
      → Keeps IsOpen (zoom (store_of env) (put_store env) m)
  zoom-IsOpen m h = Keeps-from _ (λ r f. h.at r.store ∙ f)

  rehydrated-IsFaithful :
      (read : Result (List RuntimeEvent)) (r : Live env)
      → read ≡ ok r.store.events
      → IsOpen r
      → IsFaithful env
          (continue read
            (λ events. zoom (state_of env) (put_state env) (replay env.seals events))
            (put_state env empty_state r)).1
  rehydrated-IsFaithful (ok es) r p o =
      let same : es ≡ r.store.events = ground (arith, p) in
      record {
        opened = o;
        agrees =
            subst (λ events. Agrees env events (replay env.seals es empty_state).1) same
              (λ t h. sym (ap (λ x. x.1) h));
      }
  rehydrated-IsFaithful (err e) r p o = cc

  all-eq-ok :
      (r : Live env) → IsOpen r → Store.all env.sqlite env.outside r.store ≡ ok r.store.events
  unfolding Store.all Store.assert_open
  all-eq-ok r o = rw o refl

  rehydrate-IsFaithful : (r : Live env) → IsOpen r → IsFaithful env (rehydrate env r).1
  unfolding rehydrate
  rehydrate-IsFaithful r o =
      rehydrated-IsFaithful (Store.all env.sqlite env.outside r.store) r (all-eq-ok r o) o

  pub recover-Settles :
      {A : Type 0} (e : FdosError)
      → Meets IsOpen (recover env {A = A} e) (λ _. IsFaithful env) (λ _. IsFaithful env)
  unfolding recover
  recover-Settles e =
      Meets-bind (rehydrate env) _ (Keeps_when (rehydrate env) rehydrate-IsFaithful)
        (λ _. Keeps-lift (err e))

  handled :
      {A : Type 0} (m : Exec Held A)
      → Meets
          (Quiet.IsOpen env.sqlite env.outside)
          m
          (λ _ _. Nothing)
          (λ _. Quiet.IsOpen env.sqlite env.outside)
      → Settles IsOpen (zoom (store_of env) (put_store env) m)
  handled m h =
      Meets_weaken _ (Meets-zoom (store_of env) (put_store env) m (λ st r. refl) h)
        (λ a r q. elim q [ ]) (λ e r q. q)

  ending :
      {A : Type 0} (a : A)
      → Keeps (IsFaithful env) (do
        zoom (store_of env) (put_store env) (reading (throw_failure env.sqlite env.outside))
        zoom (store_of env) (put_store env) (execute env.sqlite env.outside release)
        pure a)
  ending a =
      Keeps-bind
        (zoom (store_of env) (put_store env) (reading (throw_failure env.sqlite env.outside))) _
        (zoom-IsFaithful _ (Leaves-reading (throw_failure env.sqlite env.outside)))
        (λ _.
          Keeps-bind (zoom (store_of env) (put_store env) (execute env.sqlite env.outside release))
            _ (zoom-IsFaithful _ (execute-Leaves env.sqlite env.outside release))
            (λ _. Keeps-pure a))

  leaving :
      {A : Type 0} (a : A)
      → Keeps (IsFaithful env) (do
        zoom (store_of env) (put_store env) (modify (leave_savepoint env.sqlite env.outside))
        pure a)
  leaving a = Keeps-from _ (λ r f. record { opened = f.opened; agrees = f.agrees })

  -- A transaction and a savepoint around an operation.
  pub transaction-Settles :
      {A : Type 0} (operation : Exec (Live env) A)
      → Settles (IsFaithful env) operation
      → Settles
          (IsFaithful env)
          (transaction env.sqlite env.outside (store_of env) (put_store env) operation)
  unfolding transaction
  transaction-Settles operation h =
      Meets-bind (zoom (store_of env) (put_store env) (begin env.sqlite env.outside)) _
        (kept-Settles (zoom-IsFaithful _ (begin-Leaves env.sqlite env.outside)))
        (λ base.
          Meets-bind
            (attempt
              (do
                a ← operation
                zoom (store_of env) (put_store env) (conclude env.sqlite env.outside base)
                pure a)
              (λ e. zoom (store_of env) (put_store env) (abort env.sqlite env.outside false e)))
            _
            (Meets-attempt _ _
              (Meets-bind operation _ h (λ a.
                Meets-bind
                  (zoom (store_of env) (put_store env) (conclude env.sqlite env.outside base)) _
                  (kept-Settles (zoom-IsFaithful _ (conclude-Leaves env.sqlite env.outside base)))
                  (λ _. kept-Settles (Keeps-pure a))))
              (λ e. handled _ (abort_throws env.sqlite env.outside false e)))
            (λ result.
              Meets-bind
                (attempt
                  (zoom (store_of env) (put_store env) (finalize env.sqlite env.outside base))
                  (λ e. zoom (store_of env) (put_store env) (abort env.sqlite env.outside true e)))
                _
                (Meets-attempt _ _
                  (kept-Settles (zoom-IsFaithful _ (finalize-Leaves env.sqlite env.outside base)))
                  (λ e. handled _ (abort_throws env.sqlite env.outside true e)))
                (λ _. kept-Settles (Keeps-pure result))))

  pub with_savepoint-Settles :
      {A : Type 0} (operation : Exec (Live env) A)
      → Settles (IsFaithful env) operation
      → Settles
          (IsFaithful env)
          (with_savepoint env.sqlite env.outside (store_of env) (put_store env) operation)
  unfolding with_savepoint
  with_savepoint-Settles operation h =
      Meets-bind (zoom (store_of env) (put_store env) (enter_savepoint env.sqlite env.outside)) _
        (kept-Settles (zoom-IsFaithful _ (enter_savepoint-Leaves env.sqlite env.outside)))
        (λ base.
          Meets-bind
            (attempt
              (do
                zoom (store_of env) (put_store env) (execute env.sqlite env.outside savepoint)
                a ← operation
                zoom (store_of env) (put_store env) (reading (throw_failure env.sqlite env.outside))
                zoom (store_of env) (put_store env) (execute env.sqlite env.outside release)
                pure a)
              (λ e.
                zoom (store_of env) (put_store env) (undo_savepoint env.sqlite env.outside base e)))
            _
            (Meets-attempt _ _
              (Meets-bind
                (zoom (store_of env) (put_store env) (execute env.sqlite env.outside savepoint)) _
                (kept-Settles (zoom-IsFaithful _ (execute-Leaves env.sqlite env.outside savepoint)))
                (λ _. Meets-bind operation _ h (λ a. kept-Settles (ending a))))
              (λ e. handled _ (undo_savepoint_throws env.sqlite env.outside base e)))
            (λ result. kept-Settles (leaving result)))
