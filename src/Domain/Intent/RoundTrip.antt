-- ===== src/Domain/Intent/RoundTrip.antt =====
-- Created intents pass verification, and verified intents keep to the catalogue.
use fdos_genesis.Prelude.{
  ◌≤◌, ◌≡◌, sym, subst, true, false, not, String, Option, some, [], ◌∷◌, arith, eq_iff, is_refl,
  ◌is◌,
}
use fdos_genesis.Kernel.Result.{ok, policy, integrity, guard, >>=-eq-ok, >>-eq-ok}
use fdos_genesis.Kernel.Text.{is_digest}
use fdos_genesis.Kernel.Validation.{required_string, required_string_idem, anything}
use fdos_genesis.Domain.Catalog.{
  Risk, a0, a1, a2, a3, a4, Sensitivity, restricted, risk_below, risk_rank, Catalog,
  ActionDefinition, find_action,
}
use fdos_genesis.Domain.Catalog
use fdos_genesis.Domain.Intent.{
  UnsignedIntent, ActionIntent, intent_version, execution_mode_for, is_restricted, same_mode,
  declared_or, create_action_intent, verify_action_intent,
}

find_action-type :
    (t : String) (ds : Catalog) {d : ActionDefinition} → find_action t ds ≡ some d → d.type ≡ t
find_action-type t [] e = cc
find_action-type t (x ∷ ds) {d} e = ground (arith, eq_iff x.type t, find_action-type t ds {d = d})

pub get-type :
    (catalog : Catalog) (t : String) {d : ActionDefinition}
    → Catalog.get catalog t ≡ ok d
    → d.type ≡ t
unfolding Catalog.get
get-type catalog t {d} e = ground (arith, find_action-type t catalog {d = d})

module _ (digest_of : UnsignedIntent → String) where
  same_mode_refl : (r : Risk) → same_mode (execution_mode_for r) (execution_mode_for r) ≡ true
  unfolding execution_mode_for
  same_mode_refl r = ground arith

  verified_from_parts :
      (intent : ActionIntent) (catalog : Catalog) {d : ActionDefinition}
      {target parameters : String}
      → (intent.schema_version is intent_version) ≡ true
      → Catalog.get catalog intent.action_type ≡ ok d
      → (intent.capability is d.capability) ≡ true
      → not (risk_below intent.risk_class d.minimum_risk_class) ≡ true
      → not (is_restricted intent.sensitivity) ≡ true
      → same_mode intent.execution_mode (execution_mode_for intent.risk_class) ≡ true
      → required_string 1 500 anything intent.target ≡ ok target
      → required_string 1 80 is_digest intent.parameters_digest ≡ ok parameters
      → (intent.digest is digest_of intent.unsigned) ≡ true
      → verify_action_intent digest_of intent catalog ≡ ok tt
  unfolding verify_action_intent
  verified_from_parts intent catalog v₀ v₁ v₂ v₃ v₄ v₅ v₆ v₇ v₈ =
      rw (v₀, v₁, v₂, v₃, v₄, v₅, v₆, v₇, v₈)

  -- An intent that `createActionIntent` returns passes `verifyActionIntent` under the same
  -- catalogue, where the digest of the parameters has the shape of a SHA-256 digest.
  pub verify-create_action_intent :
      (catalog : Catalog) (action_type target parameters : String) (declared : Option Risk)
      (sensitivity : Sensitivity) {intent : ActionIntent} {digest : String}
      → required_string 1 80 is_digest parameters ≡ ok digest
      → create_action_intent digest_of catalog action_type target parameters declared sensitivity
        ≡ ok intent
      → verify_action_intent digest_of intent catalog ≡ ok tt
  unfolding create_action_intent
  verify-create_action_intent catalog action_type target parameters declared sensitivity {intent} p
        c =
      let (d, at_d, c₁) = >>=-eq-ok (Catalog.get catalog action_type) _ c in
      let risk = declared_or declared d.minimum_risk_class in
      let ((_, g₂), c₂) =
        >>-eq-ok (guard (not (risk_below risk d.minimum_risk_class)) policy) _ c₁ in
      let ((_, g₃), c₃) = >>-eq-ok (guard (not (is_restricted sensitivity)) policy) _ c₂ in
      let (t, at_t, c₄) = >>=-eq-ok (required_string 1 500 anything target) _ c₃ in
      let u : UnsignedIntent = record {
        schema_version = intent_version;
        action_type = d.type;
        capability = d.capability;
        target = t;
        parameters_digest = parameters;
        risk_class = risk;
        sensitivity = sensitivity;
        execution_mode = execution_mode_for risk;
      } in
      let made : ActionIntent = record { unsigned = u; digest = digest_of u } in
      let same : made ≡ intent = ground (arith, c₄) in
      subst (λ i. verify_action_intent digest_of i catalog ≡ ok tt) same
        (verified_from_parts made catalog (is_refl intent_version)
          (subst (λ x. Catalog.get catalog x ≡ ok d) (sym (get-type catalog action_type at_d)) at_d)
          (is_refl d.capability) (ground arith) (ground arith) (same_mode_refl risk)
          (required_string_idem 1 500 anything target at_t) p (is_refl (digest_of u)))

  -- What a verified intent promises: the capability of its action in the catalogue, a risk that is
  -- not below the action's minimum, no restricted data, the execution mode of its risk and its own
  -- digest.
  pub record KeepsTo (intent : ActionIntent) (d : ActionDefinition) : Type 0 where
    pub right_type : d.type ≡ intent.action_type
    pub right_capability : intent.capability ≡ d.capability
    pub high_enough : risk_rank d.minimum_risk_class ≤ risk_rank intent.risk_class
    pub unrestricted : is_restricted intent.sensitivity ≡ false
    pub right_mode : intent.execution_mode ≡ execution_mode_for intent.risk_class
    pub own_digest : intent.digest ≡ digest_of intent.unsigned

  -- An intent that `verifyActionIntent` accepts names an action of the catalogue and keeps to it:
  -- the action's capability, at least its minimum risk, no restricted data, the execution mode of
  -- the risk, and the digest of its own fields.
  pub verify_action_intent-KeepsTo :
      (intent : ActionIntent) (catalog : Catalog)
      → verify_action_intent digest_of intent catalog ≡ ok tt
      → (d : ActionDefinition) × (Catalog.get catalog intent.action_type ≡ ok d) × KeepsTo intent d
  unfolding verify_action_intent
  verify_action_intent-KeepsTo intent catalog v =
      let ((_, g₁), v₁) =
        >>-eq-ok (guard (intent.schema_version is intent_version) integrity) _ v in
      let (d, at_d, v₂) = >>=-eq-ok (Catalog.get catalog intent.action_type) _ v₁ in
      let ((_, g₃), v₃) = >>-eq-ok (guard (intent.capability is d.capability) integrity) _ v₂ in
      let ((_, g₄), v₄) =
        >>-eq-ok (guard (not (risk_below intent.risk_class d.minimum_risk_class)) integrity) _ v₃ in
      let ((_, g₅), v₅) = >>-eq-ok (guard (not (is_restricted intent.sensitivity)) policy) _ v₄ in
      let ((_, g₆), v₆) =
        >>-eq-ok
          (guard (same_mode intent.execution_mode (execution_mode_for intent.risk_class)) integrity)
          _ v₅ in
      let (_, v₇) = >>-eq-ok (required_string 1 500 anything intent.target) _ v₆ in
      let (_, v₈) = >>-eq-ok (required_string 1 80 is_digest intent.parameters_digest) _ v₇ in
      (
        d,
        at_d,
        record {
          right_type = get-type catalog intent.action_type at_d;
          right_capability = ground (arith, eq_iff intent.capability d.capability);
          high_enough = ground arith;
          unrestricted = ground arith;
          right_mode = ground arith;
          own_digest = ground (arith, eq_iff intent.digest (digest_of intent.unsigned));
        },
      )
