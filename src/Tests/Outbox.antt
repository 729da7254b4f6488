-- ===== src/Tests/Outbox.antt =====
-- A delivery that is prepared, claimed and reported.
use fdos_genesis.Prelude.{◌≡◌, refl, Option, none, some, List, [], ◌∷◌}
use fdos_genesis.Kernel.Result.{ok, integrity}
use fdos_genesis.Kernel.JsMap.{AllValues}
use fdos_genesis.Kernel.JsMap
use fdos_genesis.Kernel.Validation.{iso}
use fdos_genesis.Model.{Task, TaskStatus, Delivery, DeliveryStatus, empty_state}
use fdos_genesis.Kernel.Text.{
  text_length, trim_start, trim_end, trim, starts_with, skip, every_char, is_digest, cut,
}
use fdos_genesis.Kernel.Validation.{required_string, is_id, is_connector_id, is_agent_id, assert_id}
use fdos_genesis.Kernel.EventLog.{is_role_id}
use fdos_genesis.Domain.Delivery.{
  normalized_digest, is_dotted, is_capability, is_version, normalize_connector_binding,
  normalize_operation_binding, normalize_task_binding, verify_delivery_intent,
  normalize_delivery_outcome, verify_delivery_outcome,
}
use fdos_genesis.Reducer.Payload.{Payload, RuntimeEvent}
use fdos_genesis.Reducer.Invocations.{check_attribution}
use fdos_genesis.Reducer.Store.{update_delivery}
use fdos_genesis.Reducer.Outbox.{prepare_delivery}
use fdos_genesis.Reducer.Checks.{verify_prepared_delivery, verify_claim}
use fdos_genesis.Reducer.Deliveries.{record_outcome, claim_delivery}
use fdos_genesis.Reducer.Deliveries.Valid.{IsValid}
use fdos_genesis.Reducer.Deliveries.Authority.{Reported, record_outcome-Reported}
use fdos_genesis.Domain.Delivery.Outcomes.{verify_delivery_outcome_idem}
use fdos_genesis.Reducer.Apply.{apply_runtime_event, replay, attribution, dispatch, report_delivery}
use fdos_genesis.Reducer.Apply.Atomic.{refused_event_changes_nothing}
use fdos_genesis.Reducer.Apply.Outbox.{Evolves}
use fdos_genesis.Reducer.Apply.Bindings.{IsBound}
use fdos_genesis.Reducer.Apply.History.{Lasts}
use fdos_genesis.Reducer.Apply.Dispatch.{event_moves_deliveries}
use fdos_genesis.Reducer.Apply.Replay.{
  replayed_outbox-IsValid, replayed_outbox-IsBound, replay-Lasts,
}
use fdos_genesis.Tests.Office.{run}
use fdos_genesis.Tests.Samples.{
  task, event, human_actor, agent_actor, claim, seals, connector_actor, delivery, delivery_id,
  claimed_delivery, accepted, outcome, prepare_event, claim_event, accept_event, outcome_event,
  start, prepared_state, claimed_state,
}

-- The run of the task, and its events: it starts, the task is claimed, the delivery is prepared, an
-- invocation is accepted, and under it the delivery is claimed and reported.
abbrev first_task : Task
first_task = record task { status = TaskStatus.ready; claimed_by = none; claimed_at = none }

abbrev start_event : RuntimeEvent
start_event =
    event 1 "workflow.run.started" human_actor "run_000001" 1
      (Payload.run_started run (first_task ∷ []))

abbrev take_event : RuntimeEvent
take_event =
    event 2 "task.claimed" agent_actor "task_000001" 10
      (Payload.task_claimed "task_000001" "agent:marketing:writer" (iso 10))

abbrev lease_event : RuntimeEvent
lease_event =
    event 5 "connector.delivery.claimed" connector_actor delivery_id 46
      (Payload.delivery_claimed claim delivery_id)

abbrev run_log : List RuntimeEvent
run_log = start_event ∷ take_event ∷ prepare_event ∷ accept_event ∷ lease_event ∷ outcome_event ∷ []

abbrev status_after : Option Delivery → Option DeliveryStatus
status_after none = none
status_after (some d) = some d.status

prepared_test :
    JsMap.get delivery_id (apply_runtime_event seals prepare_event start).1.outbox ≡ some delivery
unfolding apply_runtime_event attribution check_attribution dispatch prepare_delivery
    verify_prepared_delivery verify_delivery_intent normalize_connector_binding
    normalize_operation_binding normalize_task_binding normalized_digest is_dotted is_capability
    is_version required_string assert_id is_id is_connector_id is_agent_id is_role_id starts_with
    skip cut trim trim_start trim_end text_length every_char is_digest JsMap.get JsMap.set
prepared_test = refl

claimed_test :
    JsMap.get delivery_id (apply_runtime_event seals claim_event prepared_state).1.outbox
    ≡ some claimed_delivery
unfolding apply_runtime_event attribution check_attribution dispatch update_delivery claim_delivery
    verify_claim assert_id is_id starts_with cut text_length every_char JsMap.get JsMap.set
claimed_test = refl

simulated_test :
    status_after
      (JsMap.get delivery_id (apply_runtime_event seals outcome_event claimed_state).1.outbox)
    ≡ some DeliveryStatus.simulated
unfolding apply_runtime_event attribution check_attribution dispatch report_delivery update_delivery
    record_outcome verify_delivery_outcome normalize_delivery_outcome normalized_digest
    is_connector_id is_digest required_string trim trim_start trim_end skip starts_with cut
    text_length every_char JsMap.get JsMap.set
simulated_test = refl

event_moves_deliveries_example :
    Evolves claim_event.actor
      (JsMap.get delivery_id prepared_state.outbox)
      (JsMap.get delivery_id (apply_runtime_event seals claim_event prepared_state).1.outbox)
event_moves_deliveries_example = event_moves_deliveries seals claim_event prepared_state delivery_id

-- The run goes through: the delivery is there and was simulated.
run_replays :
    (status_after (JsMap.get delivery_id (replay seals run_log empty_state).1.outbox)
      ≡ some DeliveryStatus.simulated)
    × ((replay seals run_log empty_state).0 ≡ ok tt)
unfolding replay apply_runtime_event attribution check_attribution dispatch report_delivery
    update_delivery prepare_delivery claim_delivery verify_claim record_outcome
    verify_prepared_delivery verify_delivery_intent normalize_connector_binding
    normalize_operation_binding normalize_task_binding normalized_digest is_dotted is_capability
    is_version required_string assert_id is_id is_connector_id is_agent_id is_role_id starts_with
    skip cut trim trim_start trim_end text_length every_char is_digest JsMap.get JsMap.set
    verify_delivery_outcome normalize_delivery_outcome fdos_genesis.Reducer.Workflow.start_run
    fdos_genesis.Reducer.Workflow.add_tasks fdos_genesis.Reducer.Workflow.claim_task
    fdos_genesis.Reducer.Store.update_task fdos_genesis.Reducer.Invocations.accept_invocation
    fdos_genesis.Reducer.Invocations.check_acceptance
    fdos_genesis.Identity.verify_invocation_receipt fdos_genesis.Identity.is_key_id
    fdos_genesis.Identity.is_issuer_id fdos_genesis.Identity.is_audience
    fdos_genesis.Identity.is_organization_id fdos_genesis.Identity.is_human_id
    fdos_genesis.Identity.is_operation fdos_genesis.Identity.normalize_operation
    fdos_genesis.Identity.normalize_principal fdos_genesis.Identity.is_consistent_window
run_replays = (refl, refl)

replayed_outbox-IsValid_example : AllValues IsValid (replay seals run_log empty_state).1.outbox
replayed_outbox-IsValid_example = replayed_outbox-IsValid seals run_log

replayed_outbox-IsBound_example : IsBound (replay seals run_log empty_state).1.outbox
replayed_outbox-IsBound_example = replayed_outbox-IsBound seals run_log

replay-Lasts_example : Lasts (JsMap.get delivery_id prepared_state.outbox) (
    JsMap.get delivery_id (replay seals (claim_event ∷ outcome_event ∷ []) prepared_state).1.outbox)
replay-Lasts_example =
    replay-Lasts seals (claim_event ∷ outcome_event ∷ []) prepared_state delivery_id

abbrev simulated_delivery : Delivery
simulated_delivery = record claimed_delivery {
  status = DeliveryStatus.simulated;
  last_outcome = some outcome;
  claim = none;
  updated_at = iso 50;
  completed_at = some (iso 50);
}

record_outcome-Reported_example :
    Reported seals connector_actor
      (some accepted)
      "claim_000001"
      none
      claimed_delivery
      simulated_delivery
unfolding record_outcome verify_delivery_outcome normalize_delivery_outcome normalized_digest
    is_connector_id is_digest required_string trim trim_start trim_end skip starts_with cut
    text_length every_char
record_outcome-Reported_example =
    record_outcome-Reported seals delivery_id connector_actor (some accepted) "claim_000001" outcome
      none claimed_delivery refl

verify_delivery_outcome_idem_example : verify_delivery_outcome outcome ≡ ok outcome
unfolding verify_delivery_outcome normalize_delivery_outcome normalized_digest is_connector_id
    is_digest required_string trim trim_start trim_end skip starts_with cut text_length every_char
verify_delivery_outcome_idem_example =
    verify_delivery_outcome_idem (record outcome { recorded_by = "connector:reference:reader " })
      refl

refused_event_changes_nothing_example : (apply_runtime_event seals claim_event start).1 ≡ start
unfolding apply_runtime_event attribution check_attribution dispatch update_delivery JsMap.get
refused_event_changes_nothing_example =
    refused_event_changes_nothing seals claim_event start integrity refl refl
