-- ===== src/Tests/Runtime.antt =====
-- A runtime that is opened on an empty log, and requests of its gateway.
use fdos_genesis.Prelude.{◌≡◌, refl, true, false, none, some, [], ◌⊎◌, ◌is◌, if◌then◌else◌}
use fdos_genesis.Kernel.Result.{Result, ok, err, integrity, policy}
use fdos_genesis.Kernel.Text.{
  text_length, trim_start, trim_end, trim, starts_with, skip, every_char, cut,
}
use fdos_genesis.Kernel.Validation.{required_string, is_id, assert_id}
use fdos_genesis.Kernel.Json.{Json}
use fdos_genesis.Kernel.EventLog.{verify_from, verify_audit_event_chain}
use fdos_genesis.Kernel.Store.{
  Outside, Store, assert_open, assert_writable, transaction_id, read_clock, make_id, in_transaction,
}
use fdos_genesis.Kernel.Store
use fdos_genesis.Kernel.Store.Rows.{
  parse_rows, parse_event_rows, verify_transaction_rows, verify_rows, event_groups,
}
use fdos_genesis.Kernel.Store.Transactions.{
  execute, transaction, begin, conclude, finalize, abort, begin_database, activate, throw_failure,
  roll_back, reload,
}
use fdos_genesis.Domain.Catalog.{default_actions}
use fdos_genesis.Domain.Roles.{append_text}
use fdos_genesis.Kernel.EventLog.{ActorType}
use fdos_genesis.Model.{empty_state, Receipt}
use fdos_genesis.Reducer.Payload.{Payload}
use fdos_genesis.Reducer.Apply.{replay}
use fdos_genesis.Runtime.{Environment, Runtime, Live, Command, Calls, mutate, rehydrate}
use fdos_genesis.Runtime
use fdos_genesis.Runtime.Authenticated.{
  accept_authenticated_invocation, accept_and_run, execute_authenticated_command, is_recordable,
  recover, verify_receipt,
}
use fdos_genesis.Runtime.Gateway.{Request, Reply, execute as execute_request}
use fdos_genesis.Kernel.Exec.Meets.{After}
use fdos_genesis.Runtime.Exact.{IsExact}
use fdos_genesis.Runtime.Exact.Execution.{execute-IsExact, IsRefused}
use fdos_genesis.Runtime.Atomic.{execute_fatal_unchanged}
use fdos_genesis.Tests.Samples.{a_digest, seals, roles, receipt}
use fdos_genesis.Tests.Connectors.{registry}
use fdos_genesis.Tests.Tables.{Tables, sqlite, no_rows, sqlite-Transactional}

abbrev pub outside : Outside Payload
outside = record {
  clock = λ n. 50;
  id_factory = λ prefix n. append_text prefix (if prefix is "task" then "_000002" else "_000001");
  digest = λ u. a_digest;
  canonical_json = λ e. "{}";
  json_parse = λ text. none;
}

abbrev pub calls : Result Receipt → Calls
calls verified = record {
  intent_digest = λ u. a_digest;
  result_digest = λ fields. a_digest;
  text_digest = λ text. a_digest;
  handoff_digest = λ parent context fields. a_digest;
  expiry_digest = λ delivery claim expired detected. a_digest;
  evidence_digest = λ run tasks deliveries accepted head. a_digest;
  failure_digest = λ e. a_digest;
  byte_length = λ fields. 2;
  text_byte_length = text_length;
  list_byte_length = λ list. 2;
  measures = record { is_safe_integer = λ n. true; byte_length = λ fields. 2 };
  collates_after = λ a b. false;
  source_binding = λ evidence. err policy;
  verify_invocation = some (λ invocation command. verified);
  invocation_subject = λ command id. id;
}

-- What the verification of an invocation gives is chosen.
abbrev pub env : Result Receipt → Environment
env verified = record {
  sqlite = sqlite true;
  outside = outside;
  seals = seals;
  catalog = default_actions;
  roles = roles;
  agents = [];
  connectors = registry;
  calls = calls verified;
}

abbrev pub opened : Runtime Tables
opened = record {
  store = record {
    database = no_rows;
    events = [];
    active = none;
    recovery_required = false;
    closed = false;
    readings = 0;
    made_ids = 0;
  };
  state = empty_state;
  closed = false;
}

abbrev claim : Command
claim = record { type = "task.claim"; content = Json.null }

-- An invocation whose verification finds an integrity error.
abbrev refused : Result Reply × Runtime Tables
refused =
    execute_request (env (err integrity)) Json.null claim (Request.task_claim "task_000001") opened

execute_fatal_unchanged_example :
    (refused.1.store.events ≡ []) ⊎ (refused.1.store.recovery_required ≡ true)
unfolding execute_request execute_authenticated_command mutate Runtime.assert_open accept_and_run
    accept_authenticated_invocation verify_receipt in_transaction is_recordable recover rehydrate
    Store.all replay transaction begin conclude finalize abort begin_database activate throw_failure
    roll_back reload execute assert_writable assert_open transaction_id read_clock make_id assert_id
    is_id required_string starts_with skip cut trim trim_start trim_end text_length every_char
    parse_event_rows parse_rows verify_audit_event_chain verify_from verify_transaction_rows
    verify_rows event_groups
execute_fatal_unchanged_example =
    execute_fatal_unchanged (env (err integrity)) (sqlite-Transactional true) Json.null claim
      (Request.task_claim "task_000001") opened {e = integrity} refl refl refl

abbrev by_human : Receipt
by_human = record receipt {
  unsigned = record receipt.unsigned {
    principal_type = ActorType.human;
    principal_id = "human:reviewer";
    operation = "outbox.list";
  };
}

-- A request that returns a reply: its invocation is accepted and the deliveries are listed.
abbrev listing : Command
listing = record { type = "outbox.list"; content = Json.null }

abbrev listed : Result Reply × Runtime Tables
listed = execute_request (env (ok by_human)) Json.null listing (Request.outbox_list none) opened

opened-IsExact : IsExact (env (ok by_human)) opened
unfolding replay
opened-IsExact = record { opened = refl; exact = refl }

execute-IsExact_example :
    After
      (λ _. IsExact (env (ok by_human)))
      (λ _ after. IsExact (env (ok by_human)) after ⊎ IsRefused (env (ok by_human)) after)
      listed.0
      listed.1
execute-IsExact_example =
    execute-IsExact (env (ok by_human)) Json.null listing (Request.outbox_list none) opened
      opened-IsExact
