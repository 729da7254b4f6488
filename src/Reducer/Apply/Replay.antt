-- ===== src/Reducer/Apply/Replay.antt =====
-- runtime/state.js and `rehydrate` of runtime/fdos-runtime.js: what the replay of a log makes of
-- the outbox.
use fdos_genesis.Prelude.{String, List, [], ◌∷◌}
use fdos_genesis.Kernel.Result.{Result, ok, err}
use fdos_genesis.Kernel.Exec.{Exec, continue}
use fdos_genesis.Kernel.JsMap.{JsMap, AllValues, AllValues-get}
use fdos_genesis.Kernel.JsMap
use fdos_genesis.Model.{Delivery, State, empty_state}
use fdos_genesis.Reducer.Seals.{Seals}
use fdos_genesis.Reducer.Payload.{RuntimeEvent}
use fdos_genesis.Reducer.Deliveries.Valid.{IsValid}
use fdos_genesis.Reducer.Apply.{apply_runtime_event, replay}
use fdos_genesis.Reducer.Apply.Bindings.{IsBound, IsBound-[]}
use fdos_genesis.Reducer.Apply.History.{Lasts, Lasts-refl, Lasts-trans, Evolves-Lasts}
use fdos_genesis.Reducer.Apply.Dispatch.{apply_runtime_event-Orderly}

-- A throw leaves the state where it was thrown.
through :
    (P : JsMap Delivery → Type 0) (m : Exec State Unit) (r : Result Unit) (s : State)
    → P s.outbox
    → (P s.outbox → P (m s).1.outbox)
    → P (continue r (λ _. m) s).1.outbox
through P m (ok _) s v h = h v
through P m (err e) s v h = v

through-Lasts :
    (id : String) (m : Exec State Unit) (r : Result Unit) (s : State)
    → Lasts (JsMap.get id s.outbox) (JsMap.get id (m s).1.outbox)
    → Lasts (JsMap.get id s.outbox) (JsMap.get id (continue r (λ _. m) s).1.outbox)
through-Lasts id m (ok _) s h = h
through-Lasts id m (err e) s h = Lasts-refl _

module _ (seals : Seals) where
  module _ (P : JsMap Delivery → Type 0)
      (keeps : (e : RuntimeEvent) (s : State)
        → P s.outbox
        → P (apply_runtime_event seals e s).1.outbox) where
    replay_keeps :
        (es : List RuntimeEvent) (s : State) → P s.outbox → P (replay seals es s).1.outbox
    unfolding replay
    replay_keeps [] s v = v
    replay_keeps (e ∷ es) s v =
        through P (replay seals es) (apply_runtime_event seals e s).0
          (apply_runtime_event seals e s).1 (keeps e s v)
          (replay_keeps es (apply_runtime_event seals e s).1)

  -- After the replay of any log from the empty state, whether it reaches the end or stops at an
  -- event that is refused, every delivery of the outbox is valid: its attempts are within its
  -- budget, it holds a claim by its own connector for its last attempt exactly while it is claimed,
  -- it is retryable only if it has failed, it is completed exactly if it is simulated or cancelled,
  -- and it has been tried if it is neither prepared nor cancelled.
  pub replayed_outbox-IsValid :
      (log : List RuntimeEvent) → AllValues IsValid (replay seals log empty_state).1.outbox
  replayed_outbox-IsValid log =
      replay_keeps (AllValues IsValid) (λ e. (apply_runtime_event-Orderly seals e).valid) log
        empty_state tt

  -- After the replay of any log from the empty state, whether it reaches the end or stops at an
  -- event that is refused, every delivery of the outbox is stored under its own id and no two of
  -- them have the same idempotency digest.
  pub replayed_outbox-IsBound :
      (log : List RuntimeEvent) → IsBound (replay seals log empty_state).1.outbox
  replayed_outbox-IsBound log =
      replay_keeps IsBound (λ e. (apply_runtime_event-Orderly seals e).bound) log empty_state
        IsBound-[]

  -- A delivery of the outbox is there after any further events are replayed, with the same id,
  -- intent, budget and creation time and at least as many attempts, and it is the same delivery if
  -- it was simulated or cancelled.
  pub replay-Lasts :
      (es : List RuntimeEvent) (s : State) (id : String)
      → Lasts (JsMap.get id s.outbox) (JsMap.get id (replay seals es s).1.outbox)
  unfolding replay
  replay-Lasts [] s id = Lasts-refl _
  replay-Lasts (e ∷ es) s id =
      Lasts-trans _ _ _
        (Evolves-Lasts e.actor _ _ ((apply_runtime_event-Orderly seals e).moves s id))
        (through-Lasts id (replay seals es) (apply_runtime_event seals e s).0
          (apply_runtime_event seals e s).1 (replay-Lasts es (apply_runtime_event seals e s).1 id))
