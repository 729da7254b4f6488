-- ===== src/Runtime/Memories.antt =====
-- `proposeMemory`, `reviewMemory`, `readMemory` and `listMemoryCandidates`.
use fdos_genesis.Prelude.{
  Bool, true, false, ◌&&◌, String, none, List, [], ◌∷◌, ◌++◌, leb, ◌is◌, if◌then◌else◌, length,
  contains,
}
use fdos_genesis.Kernel.Result.{Result, ok, err, conflict, not_found, validation, guard, or_throw}
use fdos_genesis.Kernel.Result
use fdos_genesis.Kernel.Exec.{Exec, pure, lift, reading, ◌>>=◌, ◌>>◌}
use fdos_genesis.Kernel.Validation.{required_string, anything, iso, no_duplicates, unique_strings}
use fdos_genesis.Kernel.Json.{Json}
use fdos_genesis.Kernel.JsMap.{JsMap}
use fdos_genesis.Kernel.JsMap
use fdos_genesis.Kernel.EventLog.{Actor}
use fdos_genesis.Domain.Catalog.{Sensitivity, internal}
use fdos_genesis.Domain.Roles.{assert_memory_access, MemoryMode}
use fdos_genesis.Model.{Memory, MemoryStatus}
use fdos_genesis.Reducer.Payload.{Payload}
use fdos_genesis.Runtime.{Environment, Live, now, new_id, append, mutate, assert_open}
use fdos_genesis.Runtime.Actors.{normalize_actor, require_human}

abbrev pub is_candidate : MemoryStatus → Bool
is_candidate MemoryStatus.candidate = true
is_candidate _ = false

abbrev pub is_accepted : MemoryStatus → Bool
is_accepted MemoryStatus.accepted = true
is_accepted _ = false

-- `[...new Set(texts)]`, given the texts that were seen.
abbrev pub without_repeats : (seen : List String) → List String → List String
without_repeats seen [] = []
without_repeats seen (s ∷ ss) =
    if contains s seen then without_repeats seen ss else s ∷ without_repeats (s ∷ seen) ss

abbrev pub bindings_flat : List (String × String) → List String
bindings_flat [] = []
bindings_flat ((reference, digest) ∷ bs) = reference ∷ digest ∷ bindings_flat bs

abbrev pub binding_digests : List (String × String) → List String
binding_digests [] = []
binding_digests ((reference, digest) ∷ bs) = digest ∷ binding_digests bs

pub data ReviewDecision : Type 0 where
  accepted rejected : ReviewDecision

abbrev pub reviewed_status : ReviewDecision → MemoryStatus
reviewed_status accepted = MemoryStatus.accepted
reviewed_status rejected = MemoryStatus.rejected

module _ (env : Environment) where
  unfoldable pub source_bindings : List Json → Result (List (String × String))
  source_bindings [] = ok []
  source_bindings (entry ∷ entries) =
      Result.◌>>=◌ (env.calls.source_binding entry)
        (λ b. Result.◌>>=◌ (source_bindings entries) (λ bs. ok (b ∷ bs)))

  -- The bindings of the evidence: its references and its digests.
  unfoldable pub normalize_source_evidence : List Json → Result (List (String × String))
  normalize_source_evidence value = Result.◌>>◌ (guard (leb (length value) 10) validation) (
      Result.◌>>=◌ (source_bindings value) (λ bindings.
        Result.◌>>◌ (guard (leb (env.calls.list_byte_length value) 32768) validation) (
          Result.◌>>◌ (guard (no_duplicates (binding_digests bindings)) validation) (ok bindings))))

  unfoldable pub propose_memory :
      Actor
      → (scope title content : String) → Sensitivity
      → (source_references : List String) → (source_evidence : List Json) → Exec (Live env) Memory
  propose_memory actor scope title content sensitivity source_references source_evidence =
      mutate env (do
        known ← lift (normalize_actor env.agents true true actor)
        normalized_scope ←
            lift (assert_memory_access env.roles known scope sensitivity MemoryMode.propose)
        text ← lift (required_string 1 32768 anything content)
        lift (guard (leb (env.calls.text_byte_length text) 32768) validation)
        bindings ← lift (normalize_source_evidence source_evidence)
        declared ← lift (unique_strings 20 anything source_references)
        at ← now env
        id ← new_id env "memory"
        normalized_title ← lift (required_string 1 200 anything title)
        references ←
            lift
              (unique_strings 20 anything (without_repeats [] (declared ++ bindings_flat bindings)))
        let candidate : Memory = record {
          id = id;
          scope = normalized_scope;
          title = normalized_title;
          content = text;
          content_digest = env.calls.text_digest text;
          sensitivity = sensitivity;
          source_references = references;
          source_evidence = source_evidence;
          proposed_by = known.id;
          proposed_at = iso at;
          status = MemoryStatus.candidate;
          reviewed_by = none;
          reviewed_at = none;
          review_reason = none;
        }
        append env known id (Payload.memory_proposed candidate)
        pure candidate)

  abbrev pub find_memory : String → Live env → Result Memory
  find_memory id r = or_throw (JsMap.get id r.state.memory_candidates) not_found

  unfoldable pub review_memory :
      (candidate_id : String) → Actor → ReviewDecision → (reason : String) → Exec (Live env) Memory
  review_memory candidate_id actor decision reason = mutate env (do
    known ← lift (require_human env.agents actor)
    candidate ← reading (find_memory candidate_id)
    lift (guard (is_candidate candidate.status) conflict)
    at ← now env
    text ← lift (required_string 1 2000 anything reason)
    append env known candidate.id
        (Payload.memory_reviewed candidate.id (reviewed_status decision) known.id (iso at) text)
    reading (find_memory candidate.id))

  -- The accepted memories of a scope; one that the actor may not read ends the call.
  unfoldable pub visible_memories : Actor → (scope : String) → List Memory → Result (List Memory)
  visible_memories actor scope [] = ok []
  visible_memories actor scope (m ∷ ms) =
      let rest = visible_memories actor scope ms in
      if m.scope is scope && is_accepted m.status
      then Result.◌>>◌ (assert_memory_access env.roles actor m.scope m.sensitivity MemoryMode.read)
          (Result.◌>>=◌ rest (λ others. ok (m ∷ others)))
      else rest

  unfoldable pub read_memory : Actor → (scope : String) → Live env → Result (List Memory)
  read_memory actor scope r = Result.◌>>◌ (assert_open env r) (
      Result.◌>>=◌ (normalize_actor env.agents true true actor) (λ known.
        Result.◌>>=◌ (assert_memory_access env.roles known scope internal MemoryMode.read)
          (λ normalized.
            visible_memories known normalized (JsMap.values r.state.memory_candidates))))

  unfoldable pub list_memory_candidates : Actor → Live env → Result (List Memory)
  list_memory_candidates actor r =
      Result.◌>>◌ (assert_open env r)
        (Result.◌>>◌ (require_human env.agents actor) (ok (JsMap.values r.state.memory_candidates)))
