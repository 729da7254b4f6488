-- ===== src/Reducer/Outbox.antt =====
-- runtime/state.js: the events of connector deliveries, on the outbox.
use fdos_genesis.Prelude.{Bool, String, Option, none, some, ◌is◌, any}
use fdos_genesis.Kernel.Result.{integrity}
use fdos_genesis.Kernel.Exec.{Exec, reading, throw_if, modify, ◌>>◌}
use fdos_genesis.Kernel.JsMap.{JsMap}
use fdos_genesis.Kernel.JsMap
use fdos_genesis.Kernel.EventLog.{Actor}
use fdos_genesis.Model.{State, Delivery, AcceptedInvocation}
use fdos_genesis.Reducer.Seals.{Seals}
use fdos_genesis.Reducer.Checks.{verify_prepared_delivery}

-- Whether a delivery of the outbox has the same idempotency binding.
abbrev pub same_binding : Delivery → Delivery → Bool
same_binding d e = e.intent.idempotency_digest is d.intent.idempotency_digest

unfoldable pub prepare_delivery :
    Seals → (subject : String) → Actor → Delivery → Exec State (Unit {0})
prepare_delivery seals subject actor delivery = do
  reading (λ s. verify_prepared_delivery seals s.tasks subject actor delivery)
  throw_if (λ s. JsMap.has delivery.id s.outbox) integrity
  throw_if (λ s. any (same_binding delivery) (JsMap.values s.outbox)) integrity
  modify (λ s. record s { outbox = JsMap.set delivery.id delivery s.outbox })

-- The accepted invocation that an actor is attributed to.
abbrev pub invocation_of : Option String → State → Option AcceptedInvocation
invocation_of none s = none
invocation_of (some id) s = JsMap.get id s.accepted_invocations
