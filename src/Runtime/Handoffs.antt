-- ===== src/Runtime/Handoffs.antt =====
-- `handoffTask`: a task that an agent hands to another role, as a child of its own.
use fdos_genesis.Prelude.{
  ℕ, zero, suc, ◌+◌, ◌==◌, true, false, not, String, Option, none, some, List, [], ◌∷◌, leb, ltb,
  if◌then◌else◌, get_elem?,
}
use fdos_genesis.Kernel.Result.{Result, ok, err, authorization, conflict, policy, guard, or_throw}
use fdos_genesis.Kernel.Result
use fdos_genesis.Kernel.Exec.{Exec, pure, lift, reading, ◌>>=◌, ◌>>◌}
use fdos_genesis.Kernel.Validation.{required_string, anything, iso, unique_strings}
use fdos_genesis.Kernel.Json.{Fields}
use fdos_genesis.Kernel.EventLog.{Actor}
use fdos_genesis.Domain.Catalog.{Risk, a3, risk_at_least, Sensitivity}
use fdos_genesis.Domain.Intent.{ActionIntent, create_action_intent}
use fdos_genesis.Domain.Roles.{assert_capability, append_text}
use fdos_genesis.Domain.Roles
use fdos_genesis.Domain.Connectors.{is_field_name}
use fdos_genesis.Domain.Connectors.Parameters.{text_leb}
use fdos_genesis.Model.{Run, Task, TaskStatus}
use fdos_genesis.Reducer.Payload.{Payload}
use fdos_genesis.Runtime.{Environment, Live, now, new_id, append, mutate, find_run, find_task}
use fdos_genesis.Runtime.Actors.{normalize_actor}
use fdos_genesis.Runtime.Tasks.{is_run_active, held_by}

-- A number in decimal, from its digits, the last one first.
abbrev next_digits : List ℕ → List ℕ
next_digits [] = 1 ∷ []
next_digits (d ∷ ds) = if d == 9 then 0 ∷ next_digits ds else (d + 1) ∷ ds

abbrev digits : ℕ → List ℕ
digits zero = 0 ∷ []
digits (suc n) = next_digits (digits n)

abbrev text_or_empty : Option String → String
text_or_empty none = ""
text_or_empty (some t) = t

abbrev digit_text : ℕ → String
digit_text d =
    text_or_empty (get_elem? ("0" ∷ "1" ∷ "2" ∷ "3" ∷ "4" ∷ "5" ∷ "6" ∷ "7" ∷ "8" ∷ "9" ∷ []) d)

abbrev digits_text : List ℕ → String → String
digits_text [] tail = tail
digits_text (d ∷ ds) tail = digits_text ds (append_text (digit_text d) tail)

unfoldable pub decimal : ℕ → String
decimal n = digits_text (digits n) ""

-- `sort()` of texts.
abbrev pub insert_text : String → List String → List String
insert_text s [] = s ∷ []
insert_text s (t ∷ ts) = if text_leb s t then s ∷ t ∷ ts else t ∷ insert_text s ts

unfoldable pub sort_texts : List String → List String
sort_texts [] = []
sort_texts (s ∷ ss) = insert_text s (sort_texts ss)

-- The arguments of `handoffTask`, its defaults filled in.
pub record Handoff : Type 0 where
  pub target_role_id : String
  pub title : String
  pub context : String
  pub desired_outcome : String
  pub action_type : String
  pub target : String
  pub parameters : Fields
  pub risk_class : Option Risk
  pub sensitivity : Sensitivity
  pub required_output_fields : List String

-- What the child has of its parent, its run and the handoff.
abbrev pub child_task :
    Task
    → Run
    → Handoff
    → Actor
    → ActionIntent
    → (id title context desired_outcome : String) → (required_fields : List String) → ℕ
    → Task
child_task parent run h actor intent id title context desired_outcome required_fields at = record {
  id = id;
  run_id = parent.run_id;
  step_id = append_text "handoff-" (decimal (run.handoff_count + 1));
  title = title;
  instructions = context;
  desired_outcome = desired_outcome;
  owner_role_id = h.target_role_id;
  created_by = actor.id;
  dependencies = [];
  parent_task_id = some parent.id;
  root_task_id = parent.root_task_id;
  child_task_ids = [];
  handoff_depth = parent.handoff_depth + 1;
  handoff_context = some context;
  status = TaskStatus.ready;
  waiting_reason = none;
  action_intent = intent;
  required_fields = required_fields;
  attempt = 1;
  max_attempts = 2;
  claimed_by = none;
  claimed_at = none;
  result = none;
  result_digest = none;
  failure = none;
  created_at = iso at;
  updated_at = iso at;
  completed_at = none;
}

module _ (env : Environment) where
  unfoldable pub check_budget : Run → Task → Result (Unit {0})
  check_budget run parent = Result.◌>>◌ (guard (is_run_active run.status) conflict) (
      Result.◌>>◌
        (guard (not (leb run.definition_snapshot.max_handoffs_per_run run.handoff_count)) policy)
        (guard (not (ltb run.definition_snapshot.max_handoff_depth (parent.handoff_depth + 1)))
          policy))

  unfoldable pub check_delegation : Actor → Task → (target_role_id : String) → Result (Unit {0})
  check_delegation actor parent target_role_id =
      Result.◌>>◌ (guard (held_by parent actor) conflict) (
        Result.◌>>=◌ (or_throw actor.role_id authorization) (λ role.
          Result.◌>>◌ (assert_capability env.roles role "task:delegate")
            (Result.◌>>◌ (Roles.get env.roles target_role_id) (ok tt))))

  unfoldable pub handoff_intent : Task → Handoff → (context : String) → Result ActionIntent
  handoff_intent parent h context =
      Result.◌>>=◌
        (create_action_intent env.calls.intent_digest env.catalog h.action_type h.target
          (env.calls.handoff_digest parent.id (env.calls.text_digest context) h.parameters)
          h.risk_class h.sensitivity)
        (λ intent. Result.◌>>◌ (guard (not (risk_at_least intent.risk_class a3)) policy) (
          Result.◌>>◌ (assert_capability env.roles h.target_role_id intent.capability) (ok intent)))

  unfoldable pub handoff_task : (task_id : String) → Actor → Handoff → Exec (Live env) Task
  handoff_task task_id actor h = mutate env (do
    known ← lift (normalize_actor env.agents false true actor)
    parent ← reading (find_task env task_id)
    lift (check_delegation known parent h.target_role_id)
    run ← reading (find_run env parent.run_id)
    lift (check_budget run parent)
    context ← lift (required_string 1 8000 anything h.context)
    id ← new_id env "task"
    intent ← lift (handoff_intent parent h context)
    at ← now env
    title ← lift (required_string 1 200 anything h.title)
    desired_outcome ← lift (required_string 1 1000 anything h.desired_outcome)
    fields ← lift (unique_strings 32 is_field_name h.required_output_fields)
    let child : Task =
        child_task parent run h known intent id title context desired_outcome (sort_texts fields) at
    append env known parent.id (Payload.handoff_created parent.id child (iso at))
    pure child)
