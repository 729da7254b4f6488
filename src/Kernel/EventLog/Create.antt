-- ===== src/Kernel/EventLog/Create.antt =====
-- `createAuditEvent` makes events that `verifyAuditEventChain` accepts, and `append` keeps a log
-- verified.
use Prim.Native.Nat.add
use fdos_genesis.Prelude.{
  ℕ, ◌==◌, ◌is◌, ◌+◌, ◌≡◌, refl, sym, ap, subst, ◌∙◌, true, String, Option, none, some, List, [],
  ◌∷◌, ◌++◌, arith, is_refl, same_option, same_option_iff, length,
}
use fdos_genesis.Kernel.Result.{ok, >>=-eq-ok}
use fdos_genesis.Kernel.Validation.{required_string, required_string_idem, anything, iso, iso_date}
use fdos_genesis.Kernel.EventLog.{
  Actor, Event, Unsigned, validate_actor, validate_event, verify_from, verify_audit_event_chain,
  done_then, joins, last_hash, create_audit_event, append, is_event_type, optional_transaction_id,
  event_schema_version,
}
use fdos_genesis.Kernel.EventLog.Actors.{validate_actor_idem, optional_transaction_id_idem}
use fdos_genesis.Kernel.EventLog.Events.{verify_from-eq-ok, verify_from-cons}

module _ {P : Type 0} (digest : Unsigned P → String) where
  -- The loop's variables behind a list of events.
  abbrev active_after : Option String → List (Event P) → Option String
  active_after active [] = active
  active_after active (e ∷ es) = active_after e.transaction_id es

  abbrev done_after : Option String → List String → List (Event P) → List String
  done_after active done [] = done
  done_after active done (e ∷ es) =
      done_after e.transaction_id (done_then e.transaction_id active done) es

  abbrev hash_after : Option String → List (Event P) → Option String
  hash_after previous [] = previous
  hash_after previous (e ∷ es) = hash_after (some e.hash) es

  hash_after-cons :
      (previous : Option String) (e : Event P) (es : List (Event P))
      → hash_after previous (e ∷ es) ≡ last_hash digest (e ∷ es)
  hash_after-cons previous e [] = refl
  hash_after-cons previous e (f ∷ es) = hash_after-cons (some e.hash) f es

  hash_after-last_hash : (es : List (Event P)) → hash_after none es ≡ last_hash digest es
  hash_after-last_hash [] = refl
  hash_after-last_hash (e ∷ es) = hash_after-cons none e es

  verify_from-append :
      (index : ℕ) (previous active : Option String) (done : List String) (es : List (Event P))
      (e : Event P) {h : Option String}
      → verify_from digest index previous active done es ≡ ok h
      → validate_event digest e (index + length es) (hash_after previous es) ≡ ok e.hash
      → joins e.transaction_id (active_after active es) (done_after active done es) ≡ true
      → verify_from digest index previous active done (es ++ e ∷ []) ≡ ok (some e.hash)
  verify_from-append index previous active done [] e v valid joined =
      verify_from-cons digest index previous active done e []
        (subst (λ n. validate_event digest e n previous ≡ ok e.hash) (omega arith) valid) joined
      ∙ unfold verify_from in refl
  verify_from-append index previous active done (x ∷ es) e v valid joined =
      let (valid_x, joined_x, rest) = verify_from-eq-ok digest index previous active done x es v in
      verify_from-cons digest index previous active done x (es ++ e ∷ []) valid_x joined_x
      ∙ verify_from-append (index + 1) (some x.hash) x.transaction_id
          (done_then x.transaction_id active done) es e rest
          (subst (λ n. validate_event digest e n (hash_after (some x.hash) es) ≡ ok e.hash)
            (omega arith) valid)
          joined

  valid_from_parts :
      (e : Event P) (i : ℕ) (p : Option String) {id type subject : String} {actor : Actor}
      {transaction : Option String} {n : ℕ}
      → (e.schema_version is event_schema_version) ≡ true
      → (e.sequence == i + 1) ≡ true
      → required_string 1 128 anything e.id ≡ ok id
      → required_string 1 120 is_event_type e.type ≡ ok type
      → iso_date e.timestamp ≡ ok n
      → validate_actor e.actor ≡ ok actor
      → required_string 1 160 anything e.subject ≡ ok subject
      → optional_transaction_id e.transaction_id ≡ ok transaction
      → same_option e.previous_hash p ≡ true
      → (e.hash is digest e.unsigned) ≡ true
      → validate_event digest e i p ≡ ok e.hash
  unfolding validate_event
  valid_from_parts e i p v₀ v₁ v₂ v₃ v₄ v₅ v₆ v₇ v₈ v₉ = rw (v₀, v₁, v₂, v₃, v₄, v₅, v₆, v₇, v₈, v₉)

  -- A created event passes the test of its place behind the events that it was created for.
  create_audit_event-valid :
      (es : List (Event P)) (now : ℕ) (id type : String) (actor : Actor) (subject : String)
      (payload : P) (transaction : Option String) {e : Event P} {id' : String}
      → create_audit_event digest es now id type actor subject payload transaction ≡ ok e
      → required_string 1 128 anything id ≡ ok id'
      → (validate_event digest e (length es) (last_hash digest es) ≡ ok e.hash)
        × (e.transaction_id ≡ transaction)
  unfolding create_audit_event
  create_audit_event-valid es now id type actor subject payload transaction {e} c id_ok =
      let (t, at_t, c₁) = >>=-eq-ok (optional_transaction_id transaction) _ c in
      let (ty, at_ty, c₂) = >>=-eq-ok (required_string 1 120 is_event_type type) _ c₁ in
      let (a, at_a, c₃) = >>=-eq-ok (validate_actor actor) _ c₂ in
      let (s, at_s, c₄) = >>=-eq-ok (required_string 1 160 anything subject) _ c₃ in
      let u : Unsigned P = record {
        schema_version = event_schema_version;
        sequence = length es + 1;
        id = id;
        type = ty;
        timestamp = iso now;
        actor = a;
        subject = s;
        payload = payload;
        transaction_id = t;
        previous_hash = last_hash digest es;
      } in
      let made : Event P = record { unsigned = u; hash = digest u } in
      let same : made ≡ e = ground (arith, c₄) in
      let t_same = optional_transaction_id_idem transaction at_t in
      (
        subst (λ x. validate_event digest x (length es) (last_hash digest es) ≡ ok x.hash) same
            (valid_from_parts made (length es) (last_hash digest es) (is_refl event_schema_version)
              (ground arith) id_ok (required_string_idem 1 120 is_event_type type at_ty) refl
              (validate_actor_idem actor at_a) (required_string_idem 1 160 anything subject at_s)
              (subst (λ x. optional_transaction_id x ≡ ok t) (sym t_same) at_t)
              ((same_option_iff (last_hash digest es) (last_hash digest es)).1 refl)
              (is_refl (digest u))),
        ap (λ x. x.transaction_id) (sym same) ∙ t_same,
      )

  -- An event may join the log if its transaction is none, that of the last event, or a new one.
  abbrev pub Joins : Option String → List (Event P) → Type 0
  Joins t es = joins t (active_after none es) (done_after none [] es) ≡ true

  -- Creating an event behind a verified log and adding it gives a verified log, if the event's
  -- transaction is none or may go on there.
  pub verify-create :
      (es : List (Event P)) (now : ℕ) (id type : String) (actor : Actor) (subject : String)
      (payload : P) (transaction : Option String) {h : Option String} {e : Event P} {id' : String}
      → verify_audit_event_chain digest es ≡ ok h
      → required_string 1 128 anything id ≡ ok id'
      → Joins transaction es
      → create_audit_event digest es now id type actor subject payload transaction ≡ ok e
      → verify_audit_event_chain digest (es ++ e ∷ []) ≡ ok (some e.hash)
  unfolding verify_audit_event_chain
  verify-create es now id type actor subject payload transaction {h} {e} v id_ok joined c =
      let (valid, at_t) =
        create_audit_event-valid es now id type actor subject payload transaction c id_ok in
      verify_from-append 0 none none [] es e v
        (rw (add.zero (length es), hash_after-last_hash es) valid) (rw at_t joined)

  joins-none : (active : Option String) (done : List String) → joins none active done ≡ true
  joins-none none done = refl
  joins-none (some a) done = refl

  -- `EventLog.append` on a verified log adds exactly one event at the end and leaves a verified
  -- log whose head hash is that of the event, for an identifier that the verifier accepts.
  pub verify-append :
      (es : List (Event P)) (now : ℕ) (id type : String) (actor : Actor) (subject : String)
      (payload : P) {h : Option String} {e : Event P} {fs : List (Event P)} {id' : String}
      → verify_audit_event_chain digest es ≡ ok h
      → required_string 1 128 anything id ≡ ok id'
      → append digest es now id type actor subject payload ≡ ok (e, fs)
      → (fs ≡ es ++ e ∷ []) × (verify_audit_event_chain digest fs ≡ ok (some e.hash))
  unfolding append
  verify-append es now id type actor subject payload {h} {e} {fs} v id_ok a =
      let (made, at_made, a₁) =
        >>=-eq-ok (create_audit_event digest es now id type actor subject payload none) _ a in
      let e_same : made ≡ e = ground arith in
      let fs_same : es ++ made ∷ [] ≡ fs = ground arith in
      let ends : fs ≡ es ++ e ∷ [] = sym fs_same ∙ ap (λ x. es ++ x ∷ []) e_same in
      (
        ends,
        rw ends (
            verify-create es now id type actor subject payload none v id_ok
              (joins-none (active_after none es) (done_after none [] es)) (at_made ∙ ap ok e_same)),
      )
