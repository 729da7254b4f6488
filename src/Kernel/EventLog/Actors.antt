-- ===== src/Kernel/EventLog/Actors.antt =====
-- `validateActor`, `normalizeTransactionId`: what they return passes them again unchanged.
use fdos_genesis.Prelude.{◌≡◌, String, Option, none, some, arith}
use fdos_genesis.Kernel.Result.{ok, integrity, guard, >>=-eq-ok, >>-eq-ok}
use fdos_genesis.Kernel.Validation.{required_string, required_string_idem, assert_id-eq-ok}
use fdos_genesis.Kernel.EventLog.{
  Actor, ActorType, agent, is_actor_id, role_of, both_or_none, assert_optional_id, validate_actor,
  normalize_transaction_id, optional_transaction_id,
}

assert_optional_id-eq-ok :
    (o : Option String) {p : Option String} → assert_optional_id o ≡ ok p → p ≡ o
assert_optional_id-eq-ok none h = ground arith
assert_optional_id-eq-ok (some s) h = grind (arith, assert_id-eq-ok)

pub assert_optional_id_idem :
    (o : Option String) {p : Option String}
    → assert_optional_id o ≡ ok p
    → assert_optional_id p ≡ ok p
assert_optional_id_idem o h =
    rw (assert_optional_id-eq-ok o h) (rw (assert_optional_id-eq-ok o h) at h)

pub role_of_idem :
    (type : ActorType) (r : Option String) {p : Option String}
    → role_of type r ≡ ok p
    → role_of type p ≡ ok p
role_of_idem agent none h = cc
role_of_idem agent (some r) h = grind (arith, required_string_idem)
role_of_idem _ none h = ground arith
role_of_idem _ (some r) h = cc

pub validate_actor_idem :
    (actor : Actor) {a : Actor} → validate_actor actor ≡ ok a → validate_actor a ≡ ok a
unfolding validate_actor
validate_actor_idem actor {a} h =
    let (id, at_id, h₁) = >>=-eq-ok (required_string 1 160 is_actor_id actor.id) _ h in
    let (_, h₂) =
      >>-eq-ok (guard (both_or_none actor.invocation_id actor.correlation_id) integrity) _ h₁ in
    let (invocation, at_invocation, h₃) = >>=-eq-ok (assert_optional_id actor.invocation_id) _ h₂ in
    let (correlation, at_correlation, h₄) =
      >>=-eq-ok (assert_optional_id actor.correlation_id) _ h₃ in
    let (role, at_role, h₅) = >>=-eq-ok (role_of actor.type actor.role_id) _ h₄ in
    ground (
      arith,
      required_string_idem 1 160 is_actor_id actor.id at_id,
      assert_optional_id_idem actor.invocation_id at_invocation,
      assert_optional_id-eq-ok actor.invocation_id at_invocation,
      assert_optional_id_idem actor.correlation_id at_correlation,
      assert_optional_id-eq-ok actor.correlation_id at_correlation,
      role_of_idem actor.type actor.role_id at_role,
    )

pub optional_transaction_id_idem :
    (o : Option String) {p : Option String} → optional_transaction_id o ≡ ok p → p ≡ o
unfolding normalize_transaction_id
optional_transaction_id_idem none h = ground arith
optional_transaction_id_idem (some t) h = grind (arith, assert_id-eq-ok)
