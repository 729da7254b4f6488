-- ===== src/Tests/Samples.antt =====
-- Small states, events and digests for the tests: the digests are concrete functions in place of
-- SHA-256 of canonical text.
use fdos_genesis.Prelude.{ℕ, false, String, none, some, [], ◌∷◌}
use fdos_genesis.Kernel.Result.{ok}
use fdos_genesis.Kernel.Validation.{iso}
use fdos_genesis.Kernel.Json
use fdos_genesis.Kernel.EventLog.{Actor, ActorType}
use fdos_genesis.Domain.Catalog.{Risk, Sensitivity}
use fdos_genesis.Domain.Intent.{ActionIntent, ExecutionMode}
use fdos_genesis.Domain.Roles.{Roles}
use fdos_genesis.Model.{
  Task, TaskStatus, Approval, ApprovalStatus, Delivery, DeliveryStatus, Claim, Outcome, OutcomeType,
  simulated_evidence, Receipt, AcceptedInvocation, State, empty_state,
}
use fdos_genesis.Reducer.Seals.{Seals}
use fdos_genesis.Reducer.Payload.{Payload, RuntimeEvent}

abbrev pub a_digest : String
a_digest = "sha256:0123456789abcdef0123456789abcdef0123456789abcdef0123456789abcdef"

abbrev pub seals : Seals
seals = record {
  receipt_digest = λ r. a_digest;
  definition_digest = λ d. a_digest;
  deliveries = record {
    parameters_digest = λ p. a_digest;
    request_digest = λ c o t target p. a_digest;
    intent_digest = λ u. a_digest;
    idempotency_digest = λ c o by key. a_digest;
  };
  command_digest = λ c. ok a_digest;
  normalize_worker_receipt = λ r. ok r;
}

abbrev pub agent_actor : Actor
agent_actor = record {
  type = ActorType.agent;
  id = "agent:marketing:writer";
  role_id = some "marketing";
  invocation_id = none;
  correlation_id = none;
}

abbrev pub invocation_id : String
invocation_id = "invocation_000001"

abbrev pub connector_id : String
connector_id = "connector:reference:reader"

abbrev pub connector_actor : Actor
connector_actor = record {
  type = ActorType.connector;
  id = connector_id;
  role_id = none;
  invocation_id = some invocation_id;
  correlation_id = some "correlation_000001";
}

abbrev pub human_actor : Actor
human_actor = record {
  type = ActorType.human;
  id = "human:owner";
  role_id = none;
  invocation_id = none;
  correlation_id = none;
}

abbrev pub intent : ActionIntent
intent = record {
  unsigned = record {
    schema_version = "1.0";
    action_type = "connector.reversible.write";
    capability = "connector:write:reversible";
    target = "reference/item";
    parameters_digest = a_digest;
    risk_class = Risk.a2;
    sensitivity = Sensitivity.internal;
    execution_mode = ExecutionMode.human_approval;
  };
  digest = a_digest;
}

abbrev pub task : Task
task = record {
  id = "task_000001";
  run_id = "run_000001";
  step_id = "draft";
  title = "Draft";
  instructions = "Write the draft";
  desired_outcome = "A draft";
  owner_role_id = "marketing";
  created_by = "human:owner";
  dependencies = [];
  parent_task_id = none;
  root_task_id = "task_000001";
  child_task_ids = [];
  handoff_depth = 0;
  handoff_context = none;
  status = TaskStatus.in_progress;
  waiting_reason = none;
  action_intent = intent;
  required_fields = [];
  attempt = 1;
  max_attempts = 2;
  claimed_by = some "agent:marketing:writer";
  claimed_at = some (iso 10);
  result = none;
  result_digest = none;
  failure = none;
  created_at = iso 1;
  updated_at = iso 10;
  completed_at = none;
}

abbrev pub approval : Approval
approval = record {
  id = "approval_000001";
  task_id = "task_000001";
  task_attempt = 1;
  intent_digest = a_digest;
  risk_class = Risk.a2;
  reason = "A reversible write";
  requested_by = "agent:marketing:writer";
  requested_at = iso 11;
  expires_at = iso 5000;
  status = ApprovalStatus.granted;
  decided_by = some "human:owner";
  decided_at = some (iso 12);
  decision_reason = none;
  consumed_at = none;
  expired_at = none;
}

abbrev pub roles : Roles
roles =
    record {
      id = "marketing";
      capabilities = "connector:write:reversible" ∷ "memory:company:read" ∷ [];
      memory_read_scopes = "company" ∷ [];
      memory_propose_scopes = [];
      max_sensitivity = Sensitivity.internal;
    }
    ∷ []

abbrev pub delivery_id : String
delivery_id = "delivery_000001"

abbrev pub delivery : Delivery
delivery = record {
  id = delivery_id;
  status = DeliveryStatus.prepared;
  intent = record {
    unsigned = record {
      schema_version = "1.0";
      kind = "fdos-connector-delivery-intent";
      connector = record {
        id = connector_id;
        contract_id = "reference.contract";
        contract_version = "1.0.0";
        contract_digest = a_digest;
        execution_mode = "dry_run";
        network_access = false;
        external_effects = false;
        max_attempts = 2;
      };
      operation = record {
        id = "reference.read";
        digest = a_digest;
        action_type = "connector.reference.read";
        capability = "connector:read:reference";
        risk_class = Risk.a1;
        sensitivity = Sensitivity.internal;
        target_prefix = "reference/";
      };
      task = record {
        id = "task_000001";
        run_id = "run_000001";
        attempt = 1;
        action_intent_digest = a_digest;
        owner_role_id = "marketing";
      };
      target = "reference/item";
      parameters = Json.end;
      parameters_digest = a_digest;
      requested_by = "agent:marketing:writer";
      requested_at = iso 20;
      idempotency_digest = a_digest;
      request_digest = a_digest;
    };
    digest = a_digest;
  };
  attempt = 0;
  max_attempts = 2;
  claim = none;
  last_outcome = none;
  worker_receipt = none;
  worker_receipt_invocation_id = none;
  resolution = none;
  retryable = false;
  created_at = iso 20;
  updated_at = iso 20;
  completed_at = none;
}

abbrev pub claim : Claim
claim = record {
  id = "claim_000001";
  connector_id = connector_id;
  attempt = 1;
  claimed_at = iso 30;
  expires_at = iso 60;
}

abbrev pub claimed_delivery : Delivery
claimed_delivery = record delivery {
  status = DeliveryStatus.claimed;
  attempt = 1;
  claim = some claim;
  updated_at = iso 30;
}

abbrev pub outcome : Outcome
outcome = record {
  type = OutcomeType.simulated;
  evidence = simulated_evidence "none" a_digest;
  recorded_by = connector_id;
  recorded_at = iso 50;
}

abbrev pub receipt : Receipt
receipt = record {
  unsigned = record {
    schema_version = "1.0";
    kind = "fdos-verified-invocation";
    key_id = "key:local-one";
    issuer_id = "issuer:local";
    audience = "fdos-runtime";
    organization_id = "org:example";
    invocation_id = invocation_id;
    correlation_id = "correlation_000001";
    principal_type = ActorType.connector;
    principal_id = connector_id;
    operation = "outbox.record-outcome";
    command_digest = a_digest;
    envelope_digest = a_digest;
    issued_at = iso 40;
    not_before = iso 40;
    expires_at = iso 90;
    verified_at = iso 45;
    verification_clock_skew_ms = 0;
    authentication_method = "ed25519";
    authentication_assurance = "experimental-local";
  };
  receipt_digest = a_digest;
}

abbrev pub accepted : AcceptedInvocation
accepted = record {
  receipt = receipt;
  accepted_at = iso 45;
  transaction_id = some "transaction_000001";
}

abbrev pub event : ℕ → String → Actor → String → ℕ → Payload → RuntimeEvent
event n type actor subject at payload = record {
  unsigned = record {
    schema_version = "1.0";
    sequence = n;
    id = "event_000001";
    type = type;
    timestamp = iso at;
    actor = actor;
    subject = subject;
    payload = payload;
    transaction_id = some "transaction_000001";
    previous_hash = none;
  };
  hash = a_digest;
}

abbrev pub prepare_event : RuntimeEvent
prepare_event =
    event 1 "connector.delivery.prepared" agent_actor delivery_id 20
      (Payload.delivery_prepared delivery)

-- A claim that is attributed to no invocation.
abbrev pub claim_event : RuntimeEvent
claim_event =
    event 2 "connector.delivery.claimed"
      (record connector_actor { invocation_id = none; correlation_id = none }) delivery_id 30
      (Payload.delivery_claimed claim delivery_id)

abbrev pub accept_event : RuntimeEvent
accept_event =
    event 3 "identity.invocation.accepted" connector_actor invocation_id 45
      (Payload.invocation_accepted receipt (iso 45))

abbrev pub outcome_event : RuntimeEvent
outcome_event =
    event 4 "connector.delivery.outcome-recorded" connector_actor delivery_id 50
      (Payload.delivery_outcome "claim_000001" delivery_id outcome none)

-- A state with the task that the delivery is for.
abbrev pub start : State
start = record empty_state { tasks = ("task_000001", task) ∷ [] }

abbrev pub prepared_state : State
prepared_state = record start { outbox = (delivery_id, delivery) ∷ [] }

abbrev pub claimed_state : State
claimed_state = record start {
  outbox = (delivery_id, claimed_delivery) ∷ [];
  accepted_invocations = (invocation_id, accepted) ∷ [];
}
