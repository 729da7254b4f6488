-- ===== src/Runtime/Exact/Transactions.antt =====
-- A transaction and a savepoint around an operation, of the log and the state in memory.
use fdos_genesis.Prelude.{refl, ap, ◌∙◌, true, false, Nothing}
use fdos_genesis.Kernel.Exec.{Exec, pure, reading, modify, attempt, zoom, ◌>>=◌, ◌>>◌}
use fdos_genesis.Kernel.Exec.Leaves.{Leaves, Leaves-reading}
use fdos_genesis.Kernel.Exec.Meets.{
  Meets, Meets_weaken, Meets_before, Meets-bind, Meets-attempt, Meets-zoom,
}
use fdos_genesis.Kernel.Exec.Holds.{Holds, held_either_way}
use fdos_genesis.Kernel.Store.{savepoint, release}
use fdos_genesis.Kernel.Store.Transactions.{
  begin, conclude, finalize, abort, enter_savepoint, undo_savepoint, execute, throw_failure,
  leave_savepoint, transaction, with_savepoint,
}
use fdos_genesis.Kernel.Store.Quiet.{
  abort_throws, undo_savepoint_throws, log_part, begin-Leaves, conclude-Leaves, finalize-Leaves,
  enter_savepoint-Leaves, execute-Leaves,
}
use fdos_genesis.Kernel.Store.Quiet
use fdos_genesis.Model.{empty_state}
use fdos_genesis.Reducer.Apply.{replay}
use fdos_genesis.Runtime.{Environment, Live, store_of, put_store}
use fdos_genesis.Runtime.Faithful.{Held}
use fdos_genesis.Runtime.Faithful.Transactions.{IsOpen}
use fdos_genesis.Runtime.Exact.{IsExact}

module _ (env : Environment) where
  -- The store is open, and the runtime is exact if the condition holds.
  abbrev pub Given : Type 0 → Live env → Type 0
  Given C r = IsOpen env r × (C → IsExact env r)

  -- A computation that leaves the store open, and the runtime exact if the value it returns asks for
  -- that.
  abbrev pub Gives : {A : Type 0} → (Live env → Type 0) → (A → Type 0) → Exec (Live env) A → Type 0
  Gives P C m = Meets P m (λ a. Given (C a)) (λ _. IsOpen env)

  pub given : (C : Type 0) (r : Live env) → IsExact env r → Given C r
  given C r x = (x.opened, λ _. x)

  zoom-Given :
      {A : Type 0} (C : Type 0) (m : Exec (Held env) A)
      → Leaves log_part m
      → Holds (Given C) (IsOpen env) (zoom (store_of env) (put_store env) m)
  zoom-Given C m h =
      held_either_way _ (record { at = λ r g. g.0 })
        (λ r g.
          let opened = ap (λ x. x.1) (h.at r.store) ∙ g.0 in
          (
            opened,
            λ c. record {
              opened = opened;
              exact =
                  ap (λ es. replay env.seals es empty_state) (ap (λ x. x.0) (h.at r.store))
                  ∙ (g.1 c).exact;
            },
          ))

  zoom-IsExact :
      {A : Type 0} (m : Exec (Held env) A)
      → Leaves log_part m
      → Holds (IsExact env) (IsOpen env) (zoom (store_of env) (put_store env) m)
  zoom-IsExact m h =
      Meets_before _ (λ r x. given Unit r x)
        (Meets_weaken (zoom (store_of env) (put_store env) m) (zoom-Given Unit m h)
          (λ a r g. g.1 tt) (λ e r o. o))

  -- A handler that never returns.
  never :
      {A : Type 0} {Q : A → Live env → Type 0} (m : Exec (Held env) A)
      → Meets
          (Quiet.IsOpen env.sqlite env.outside)
          m
          (λ _ _. Nothing)
          (λ _. Quiet.IsOpen env.sqlite env.outside)
      → Meets (IsOpen env) (zoom (store_of env) (put_store env) m) Q (λ _. IsOpen env)
  never m h =
      Meets_weaken _ (Meets-zoom (store_of env) (put_store env) m (λ st r. refl) h)
        (λ a r q. elim q [ ]) (λ e r q. q)

  module _ {A : Type 0} (C : A → Type 0) where
    ending :
        (a : A)
        → Meets
            (Given (C a))
            (do
              zoom (store_of env) (put_store env) (reading (throw_failure env.sqlite env.outside))
              zoom (store_of env) (put_store env) (execute env.sqlite env.outside release)
              pure a)
            (λ b. Given (C b))
            (λ _. IsOpen env)
    ending a =
        Meets-bind
          (zoom (store_of env) (put_store env) (reading (throw_failure env.sqlite env.outside))) _
          (zoom-Given (C a) _ (Leaves-reading (throw_failure env.sqlite env.outside)))
          (λ _.
            Meets-bind
              (zoom (store_of env) (put_store env) (execute env.sqlite env.outside release)) _
              (zoom-Given (C a) _ (execute-Leaves env.sqlite env.outside release))
              (λ _. record { at = λ r g. g }))

    leaving :
        (a : A)
        → Meets
            (Given (C a))
            (do
              zoom (store_of env) (put_store env) (modify (leave_savepoint env.sqlite env.outside))
              pure a)
            (λ b. Given (C b))
            (λ _. IsOpen env)
    leaving a = record {
      at = λ r g. (g.0, λ c. record { opened = (g.1 c).opened; exact = (g.1 c).exact });
    }

    pub transaction-Gives :
        (operation : Exec (Live env) A)
        → Gives (IsExact env) C operation
        → Gives
            (IsExact env)
            C
            (transaction env.sqlite env.outside (store_of env) (put_store env) operation)
    unfolding transaction
    transaction-Gives operation h =
        Meets-bind (zoom (store_of env) (put_store env) (begin env.sqlite env.outside)) _
          (zoom-IsExact _ (begin-Leaves env.sqlite env.outside))
          (λ base.
            Meets-bind
              (attempt
                (do
                  a ← operation
                  zoom (store_of env) (put_store env) (conclude env.sqlite env.outside base)
                  pure a)
                (λ e. zoom (store_of env) (put_store env) (abort env.sqlite env.outside false e)))
              _
              (Meets-attempt _ _
                (Meets-bind operation _ h (λ a.
                  Meets-bind
                    (zoom (store_of env) (put_store env) (conclude env.sqlite env.outside base)) _
                    (zoom-Given (C a) _ (conclude-Leaves env.sqlite env.outside base))
                    (λ _. record { at = λ r g. g })))
                (λ e. never _ (abort_throws env.sqlite env.outside false e)))
              (λ result.
                Meets-bind
                  (attempt
                    (zoom (store_of env) (put_store env) (finalize env.sqlite env.outside base))
                    (λ e.
                      zoom (store_of env) (put_store env) (abort env.sqlite env.outside true e)))
                  _
                  (Meets-attempt _ _
                    (zoom-Given (C result) _ (finalize-Leaves env.sqlite env.outside base))
                    (λ e. never _ (abort_throws env.sqlite env.outside true e)))
                  (λ _. record { at = λ r g. g })))

    pub with_savepoint-Gives :
        (operation : Exec (Live env) A)
        → Gives (IsExact env) C operation
        → Gives
            (IsExact env)
            C
            (with_savepoint env.sqlite env.outside (store_of env) (put_store env) operation)
    unfolding with_savepoint
    with_savepoint-Gives operation h =
        Meets-bind (zoom (store_of env) (put_store env) (enter_savepoint env.sqlite env.outside)) _
          (zoom-IsExact _ (enter_savepoint-Leaves env.sqlite env.outside))
          (λ base.
            Meets-bind
              (attempt
                (do
                  zoom (store_of env) (put_store env) (execute env.sqlite env.outside savepoint)
                  a ← operation
                  zoom (store_of env) (put_store env)
                      (reading (throw_failure env.sqlite env.outside))
                  zoom (store_of env) (put_store env) (execute env.sqlite env.outside release)
                  pure a)
                (λ e.
                  zoom (store_of env) (put_store env)
                    (undo_savepoint env.sqlite env.outside base e)))
              _
              (Meets-attempt _ _
                (Meets-bind
                  (zoom (store_of env) (put_store env) (execute env.sqlite env.outside savepoint)) _
                  (zoom-IsExact _ (execute-Leaves env.sqlite env.outside savepoint))
                  (λ _. Meets-bind operation _ h ending))
                (λ e. never _ (undo_savepoint_throws env.sqlite env.outside base e)))
              leaving)
