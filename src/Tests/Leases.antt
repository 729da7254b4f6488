-- ===== src/Tests/Leases.antt =====
-- A claim of a delivery.
use fdos_genesis.Prelude.{◌≡◌, refl, true, none, some, [], ◌∷◌}
use fdos_genesis.Kernel.Result.{ok}
use fdos_genesis.Kernel.Text.{
  text_length, trim_start, trim_end, trim, starts_with, skip, every_char, cut,
}
use fdos_genesis.Kernel.Validation.{iso, required_string, is_id, assert_id}
use fdos_genesis.Kernel.Json.{Json, Fields}
use fdos_genesis.Kernel.Json
use fdos_genesis.Domain.Catalog.{Risk, Sensitivity}
use fdos_genesis.Domain.Intent.{ExecutionMode}
use fdos_genesis.Domain.Roles.{Roles}
use fdos_genesis.Domain.Agents.{Agent, InstanceStatus}
use fdos_genesis.Model.{Delivery, DeliveryStatus, empty_state}
use fdos_genesis.Runtime.{Environment, Runtime}
use fdos_genesis.Runtime.Outbox.{claim_delivery}
use fdos_genesis.Runtime.Guards.Deliveries.{IsClaimable, claim_delivery-IsClaimable}
use fdos_genesis.Tests.Samples.{
  a_digest, connector_actor, delivery, delivery_id, connector_id, accepted, invocation_id,
}
use fdos_genesis.Tests.Tables.{Tables}
use fdos_genesis.Tests.Runtime as Opened
use fdos_genesis.Tests.Office.{office, run, before_claim, reading_task}

-- The delivery of the task, in the transaction of the invocation that claims it.
abbrev fresh_delivery : Delivery
fresh_delivery = record delivery {
  intent = record {
    unsigned = record delivery.intent.unsigned {
      parameters = Json.field "limit" (Json.num "1") Json.end;
    };
    digest = a_digest;
  };
}

abbrev before_lease : Runtime Tables
before_lease = record before_claim {
  store = record Opened.opened.store {
    active = some (record {
      id = "transaction_000001";
      started_at = iso 1;
      base_length = 0;
      failure = none;
      savepoint_active = true;
    });
  };
  state = record empty_state {
    runs = ("run_000001", run) ∷ [];
    tasks = ("task_000001", reading_task) ∷ [];
    outbox = (delivery_id, fresh_delivery) ∷ [];
    accepted_invocations =
        (
          invocation_id,
          record accepted {
            receipt = record {
              unsigned = record accepted.receipt.unsigned { operation = "outbox.claim" };
              receipt_digest = a_digest;
            };
          },
        )
        ∷ [];
  };
}

abbrev leased_delivery : Delivery
leased_delivery = record fresh_delivery {
  status = DeliveryStatus.claimed;
  attempt = 1;
  claim = some (record {
    id = "claim_000001";
    connector_id = connector_id;
    attempt = 1;
    claimed_at = iso 50;
    expires_at = iso 60050;
  });
  updated_at = iso 50;
}

lease_returns :
    (claim_delivery office connector_actor delivery_id 60 before_lease).0 ≡ ok leased_delivery
unfolding fdos_genesis.Runtime.mutate fdos_genesis.Runtime.assert_open
    fdos_genesis.Runtime.find_task fdos_genesis.Runtime.find_run fdos_genesis.Runtime.now
    fdos_genesis.Runtime.append fdos_genesis.Runtime.new_id fdos_genesis.Runtime.find_delivery
    fdos_genesis.Runtime.Events.event_type fdos_genesis.Runtime.Actors.normalize_actor
    fdos_genesis.Domain.Agents.resolve_agent fdos_genesis.Domain.Agents.get_agent
    fdos_genesis.Kernel.JsMap.get fdos_genesis.Kernel.JsMap.set fdos_genesis.Kernel.Store.read_clock
    fdos_genesis.Kernel.Store.make_id fdos_genesis.Kernel.Store.append
    fdos_genesis.Kernel.Store.append_now fdos_genesis.Kernel.Store.assert_writable
    fdos_genesis.Kernel.Store.assert_open fdos_genesis.Kernel.EventLog.create_audit_event
    fdos_genesis.Kernel.EventLog.validate_actor
    fdos_genesis.Kernel.EventLog.normalize_transaction_id fdos_genesis.Kernel.EventLog.is_actor_id
    fdos_genesis.Kernel.EventLog.is_role_id fdos_genesis.Kernel.EventLog.is_event_type
    fdos_genesis.Kernel.Validation.required_string fdos_genesis.Kernel.Validation.assert_id
    fdos_genesis.Kernel.Validation.is_id fdos_genesis.Kernel.Validation.is_connector_id
    fdos_genesis.Kernel.Text.trim fdos_genesis.Kernel.Text.trim_start
    fdos_genesis.Kernel.Text.trim_end fdos_genesis.Kernel.Text.text_length
    fdos_genesis.Kernel.Text.starts_with fdos_genesis.Kernel.Text.skip
    fdos_genesis.Kernel.Text.every_char fdos_genesis.Kernel.Text.cut
    fdos_genesis.Kernel.Text.is_digest fdos_genesis.Reducer.Apply.apply_runtime_event
    fdos_genesis.Reducer.Apply.attribution fdos_genesis.Reducer.Apply.dispatch
    fdos_genesis.Reducer.Invocations.check_attribution fdos_genesis.Reducer.Store.update_task
    fdos_genesis.Reducer.Store.update_run fdos_genesis.Reducer.Store.update_approval
    fdos_genesis.Reducer.Store.update_delivery fdos_genesis.Reducer.Store.require_run
    fdos_genesis.Reducer.Store.require_task fdos_genesis.Domain.Catalog.get
    fdos_genesis.Domain.Roles.get fdos_genesis.Domain.Roles.has_capability
    fdos_genesis.Domain.Roles.assert_capability fdos_genesis.Domain.Intent.verify_action_intent
    fdos_genesis.Domain.Intent.execution_mode_for fdos_genesis.Runtime.Outbox.claim_delivery
    fdos_genesis.Runtime.Outbox.assert_current_connector_binding
    fdos_genesis.Runtime.Outbox.assert_delivery_task_active
    fdos_genesis.Runtime.Outbox.check_claimable fdos_genesis.Runtime.Outbox.claim_prepared
    fdos_genesis.Runtime.Actors.authenticated_connector_actor
    fdos_genesis.Runtime.Actors.assert_authenticated_operation
    fdos_genesis.Kernel.Store.in_transaction
    fdos_genesis.Domain.Connectors.Registry.resolve_connector
    fdos_genesis.Domain.Connectors.Registry.connector_actor
    fdos_genesis.Domain.Connectors.Registry.resolve_operation
    fdos_genesis.Domain.Connectors.Registry.get_contract
    fdos_genesis.Domain.Connectors.Registry.get_instance fdos_genesis.Domain.Connectors.is_dotted_id
    fdos_genesis.Domain.Connectors.Parameters.normalize_parameters
    fdos_genesis.Domain.Connectors.Parameters.normalize_values
    fdos_genesis.Domain.Connectors.Parameters.sort_keys
    fdos_genesis.Domain.Connectors.Parameters.insert_key
    fdos_genesis.Domain.Connectors.Parameters.text_leb
    fdos_genesis.Reducer.Deliveries.claim_delivery fdos_genesis.Reducer.Checks.verify_claim
lease_returns = refl

claim_delivery-IsClaimable_example : IsClaimable office before_lease connector_actor delivery_id 60
claim_delivery-IsClaimable_example =
    claim_delivery-IsClaimable office connector_actor delivery_id 60 before_lease lease_returns
