-- ===== src/Tests/Log.antt =====
-- A log of two events of one transaction, with texts as payloads and the identifier as the digest.
use fdos_genesis.Prelude.{
  ◌≡◌, refl, sym, ap, ◌∙◌, eq_iff, inl, inr, ℕ, String, Option, none, some, List, [], ◌∷◌, ◌++◌,
  All, arith,
}
use fdos_genesis.Kernel.Result.{ok}
use fdos_genesis.Kernel.Text.{
  text_length, trim_start, trim_end, trim, starts_with, skip, every_char, cut,
}
use fdos_genesis.Kernel.Validation.{iso, required_string, is_id, assert_id}
use fdos_genesis.Kernel.EventLog.{
  Event, Unsigned, is_actor_id, is_role_id, is_event_type, validate_actor, normalize_transaction_id,
  validate_event, verify_from, verify_audit_event_chain, create_audit_event, append,
}
use fdos_genesis.Kernel.EventLog.Create.{verify-create, verify-append}
use fdos_genesis.Kernel.EventLog.Head.{NoCollision, head_commits}
use fdos_genesis.Kernel.EventLog.Contiguous.{transactions_contiguous}
use fdos_genesis.Tests.Samples.{agent_actor}

abbrev pub digest : Unsigned String → String
digest u = u.id

abbrev entry : ℕ → String → Option String → Event String
entry n id previous = record {
  unsigned = record {
    schema_version = "1.0";
    sequence = n;
    id = id;
    type = "task.claimed";
    timestamp = iso n;
    actor = agent_actor;
    subject = "task_000001";
    payload = "claimed";
    transaction_id = some "transaction_000001";
    previous_hash = previous;
  };
  hash = id;
}

abbrev pub first_entry : Event String
first_entry = entry 1 "event_000001" none

abbrev second_entry : Event String
second_entry = entry 2 "event_000002" (some "event_000001")

abbrev third_entry : Event String
third_entry = entry 3 "event_000003" (some "event_000002")

abbrev log : List (Event String)
log = first_entry ∷ second_entry ∷ third_entry ∷ []

log_verifies : verify_audit_event_chain digest log ≡ ok (some "event_000003")
unfolding verify_audit_event_chain verify_from validate_event validate_actor
    normalize_transaction_id is_actor_id is_role_id is_event_type required_string assert_id is_id
    starts_with skip cut trim trim_start trim_end text_length every_char
log_verifies = refl

abbrev short_log : List (Event String)
short_log = first_entry ∷ second_entry ∷ []

short_log_verifies : verify_audit_event_chain digest short_log ≡ ok (some "event_000002")
unfolding verify_audit_event_chain verify_from validate_event validate_actor
    normalize_transaction_id is_actor_id is_role_id is_event_type required_string assert_id is_id
    starts_with skip cut trim trim_start trim_end text_length every_char
short_log_verifies = refl

short_log_free : NoCollision digest short_log short_log
short_log_free e f (inl p) (inl q) same = ap (λ x. x.unsigned) (p ∙ sym q)
short_log_free e f (inl p) (inr (inl q)) same =
    let wrong : first_entry.id ≡ second_entry.id =
      sym (ap (λ x. x.id) p) ∙ same ∙ ap (λ x. x.id) q in
    ground (arith, eq_iff "event_000001" "event_000002")
short_log_free e f (inr (inl p)) (inl q) same =
    let wrong : second_entry.id ≡ first_entry.id =
      sym (ap (λ x. x.id) p) ∙ same ∙ ap (λ x. x.id) q in
    ground (arith, eq_iff "event_000002" "event_000001")
short_log_free e f (inl p) (inr (inr q)) same = elim q [ ]
short_log_free e f (inr (inl p)) (inr (inr q)) same = elim q [ ]
short_log_free e f (inr (inr p)) _ same = elim p [ ]
short_log_free e f (inr (inl p)) (inr (inl q)) same = ap (λ x. x.unsigned) (p ∙ sym q)

head_commits_example : short_log ≡ short_log
head_commits_example =
    head_commits digest short_log short_log short_log_free short_log_verifies short_log_verifies

transactions_contiguous_example :
    All (λ (y : Event String). y.transaction_id ≡ some "transaction_000001") (second_entry ∷ [])
transactions_contiguous_example =
    transactions_contiguous digest "transaction_000001" [] (second_entry ∷ []) [] first_entry
      third_entry refl refl log_verifies

verify-create_example : verify_audit_event_chain digest log ≡ ok (some "event_000003")
unfolding create_audit_event validate_actor normalize_transaction_id is_actor_id is_role_id
    is_event_type required_string assert_id is_id starts_with skip cut trim trim_start trim_end
    text_length every_char
verify-create_example =
    verify-create digest short_log 3 "event_000003" "task.claimed" agent_actor "task_000001"
      "claimed" (some "transaction_000001") {e = third_entry} short_log_verifies refl refl refl

abbrev appended_entry : Event String
appended_entry = record third_entry {
  unsigned = record third_entry.unsigned { transaction_id = none };
}

verify-append_example :
    (short_log ++ appended_entry ∷ [] ≡ short_log ++ appended_entry ∷ [])
    × (verify_audit_event_chain digest (short_log ++ appended_entry ∷ [])
        ≡ ok (some "event_000003"))
unfolding append create_audit_event validate_actor normalize_transaction_id is_actor_id is_role_id
    is_event_type required_string assert_id is_id starts_with skip cut trim trim_start trim_end
    text_length every_char
verify-append_example =
    verify-append digest short_log 3 "event_000003" "task.claimed" agent_actor "task_000001"
      "claimed" {e = appended_entry} {fs = short_log ++ appended_entry ∷ []} short_log_verifies refl
      refl
