-- ===== src/Tests/Office.antt =====
-- A runtime with one run, which has one task: ready, and in progress for a connector's action.
use fdos_genesis.Prelude.{none, some, [], ◌∷◌}
use fdos_genesis.Kernel.Result.{err, policy}
use fdos_genesis.Kernel.Validation.{iso}
use fdos_genesis.Kernel.Json.{Json}
use fdos_genesis.Domain.Catalog.{Risk}
use fdos_genesis.Domain.Intent.{ExecutionMode}
use fdos_genesis.Domain.Agents.{Agent, InstanceStatus}
use fdos_genesis.Model.{Run, RunStatus, Task, TaskStatus, DeliveryStatus, empty_state}
use fdos_genesis.Runtime.{Environment, Runtime}
use fdos_genesis.Tests.Samples.{a_digest, task, approval, delivery, delivery_id, intent}
use fdos_genesis.Tests.Tables.{Tables}
use fdos_genesis.Tests.Runtime as Opened

abbrev pub writer : Agent
writer = record {
  definition = record {
    id = "agent:marketing:writer";
    name = "Writer";
    role_id = "marketing";
    personality_profile_id = "profile";
    personality_profile_version = "1.0.0";
    status = InstanceStatus.active;
  };
  personality_profile_digest = a_digest;
}

abbrev pub office : Environment
office = record (Opened.env (err policy)) { agents = ("agent:marketing:writer", writer) ∷ [] }

abbrev pub run : Run
run = record {
  id = "run_000001";
  workflow_definition_id = "workflow";
  workflow_definition_version = "1.0.0";
  workflow_definition_digest = a_digest;
  definition_snapshot = record {
    unsigned = record {
      id = "workflow";
      version = "1.0.0";
      owner_role_id = "marketing";
      max_handoff_depth = 2;
      max_handoffs_per_run = 2;
      rest = Json.null;
    };
    digest = a_digest;
  };
  objective = "A draft";
  input = Json.null;
  input_digest = a_digest;
  request_digest = a_digest;
  idempotency_digest = none;
  requested_by = "human:owner";
  owner_role_id = "marketing";
  status = RunStatus.active;
  task_ids = "task_000001" ∷ [];
  handoff_count = 0;
  evidence_digest = none;
  evidence_base_head_hash = none;
  created_at = iso 1;
  updated_at = iso 1;
  completed_at = none;
}

abbrev pub ready_task : Task
ready_task = record task { status = TaskStatus.ready; claimed_by = none; claimed_at = none }

abbrev pub before_claim : Runtime Tables
before_claim = record Opened.opened {
  state = record empty_state {
    runs = ("run_000001", run) ∷ [];
    tasks = ("task_000001", ready_task) ∷ [];
    approvals = ("approval_000001", approval) ∷ [];
  };
}

abbrev pub claimed_task : Task
claimed_task = record ready_task {
  status = TaskStatus.in_progress;
  claimed_by = some "agent:marketing:writer";
  claimed_at = some (iso 50);
  updated_at = iso 50;
}

-- The task of a connector's action, in progress, with its simulated delivery.
abbrev pub reading_task : Task
reading_task = record claimed_task {
  action_intent = record {
    unsigned = record intent.unsigned {
      action_type = "connector.reference.read";
      capability = "connector:read:reference";
      risk_class = Risk.a1;
      execution_mode = ExecutionMode.role_authorized;
    };
    digest = a_digest;
  };
}

abbrev pub before_completion : Runtime Tables
before_completion = record before_claim {
  state = record empty_state {
    runs = ("run_000001", run) ∷ [];
    tasks = ("task_000001", reading_task) ∷ [];
    outbox = (delivery_id, record delivery { status = DeliveryStatus.simulated; attempt = 1 }) ∷ [];
  };
}
