-- ===== src/Domain/Roles/Memory.antt =====
-- domain/role-registry.js: what an access to memory that `assertMemoryAccess` allows has passed.
use fdos_genesis.Prelude.{
  ◌≤◌, ◌≡◌, ◌≢◌, false, sym, ap, subst, ◌∙◌, true, not, ◌&&◌, String, Option, none, some, arith,
  ◌is◌, any,
}
use fdos_genesis.Kernel.Result.{
  ok, policy, not_found, guard, or_throw, >>=-eq-ok, >>-eq-ok, or_throw-eq-ok,
}
use fdos_genesis.Kernel.Validation.{required_string}
use fdos_genesis.Kernel.EventLog.{Actor, ActorType, human, agent, connector, system}
use fdos_genesis.Domain.Catalog.{Sensitivity, restricted}
use fdos_genesis.Domain.Roles.{
  sensitivity_rank, is_restricted, is_confidential, memory_by_type, Roles, Role, get, find_role,
  assert_memory_access, assert_role_memory, MemoryMode, scopes_for, scope_matches,
  memory_capability, is_scope,
}

-- An agent's role reaches the sensitivity, has a rule for the scope, and has the capability.
pub record RoleAllows (roles : Roles) (role_id scope : String) (sensitivity : Sensitivity)
    (mode : MemoryMode) (role : Role) : Type 0 where
  pub registered : find_role role_id roles ≡ some role
  pub cleared : sensitivity_rank sensitivity ≤ sensitivity_rank role.max_sensitivity
  pub ruled : any (λ rule. scope_matches rule scope) (scopes_for mode role) ≡ true
  pub capable : memory_capability role scope mode ≡ true

abbrev pub ActorAllows :
    ActorType → Option String → Roles → String → Sensitivity → MemoryMode → Type 0
ActorAllows human role roles scope sensitivity mode = Unit
ActorAllows agent (some id) roles scope sensitivity mode =
    (role : Role) × RoleAllows roles id scope sensitivity mode role
ActorAllows agent none roles scope sensitivity mode = ⊥
ActorAllows _ role roles scope sensitivity mode = ⊥

assert_role_memory-Allows :
    (roles : Roles) (role_id scope : String) (sensitivity : Sensitivity) (mode : MemoryMode)
    {out : String}
    → assert_role_memory roles role_id scope sensitivity mode ≡ ok out
    → (out ≡ scope) × ((role : Role) × RoleAllows roles role_id scope sensitivity mode role)
unfolding assert_role_memory get
assert_role_memory-Allows roles role_id scope sensitivity mode {out} h =
    let (role, at_role, h₁) = >>=-eq-ok (or_throw (find_role role_id roles) not_found) _ h in
    let same : out ≡ scope = ground arith in
    (
      same,
      (
        role,
        record {
          registered = or_throw-eq-ok (find_role role_id roles) not_found at_role;
          cleared = ground arith;
          ruled = ground arith;
          capable = ground arith;
        },
      ),
    )

by_type-Allows :
    (roles : Roles) (scope : String) (sensitivity : Sensitivity) (mode : MemoryMode)
    (type : ActorType) (role : Option String) {out : String}
    → memory_by_type roles sensitivity mode type role scope ≡ ok out
    → (out ≡ scope) × ActorAllows type role roles scope sensitivity mode
by_type-Allows roles scope sensitivity mode human role h = (ground arith, tt)
by_type-Allows roles scope sensitivity mode agent none h = cc
by_type-Allows roles scope sensitivity mode agent (some id) h =
    assert_role_memory-Allows roles id scope sensitivity mode h
by_type-Allows roles scope sensitivity mode connector role h = cc
by_type-Allows roles scope sensitivity mode system role h = cc

-- An access to memory that is allowed is never to restricted content and never to confidential
-- content of the company's scope, gives back the well-formed scope, and is made by a human or by
-- an agent whose role is registered, reaches the sensitivity, and has both a rule for the scope
-- in that mode and the capability for it.
pub assert_memory_access-Allows :
    (roles : Roles) (actor : Actor) (scope : String) (sensitivity : Sensitivity) (mode : MemoryMode)
    {out : String}
    → assert_memory_access roles actor scope sensitivity mode ≡ ok out
    → (sensitivity ≢ restricted)
      × ((out is "company" && is_confidential sensitivity) ≡ false)
      × (required_string 1 100 is_scope scope ≡ ok out)
      × ActorAllows actor.type actor.role_id roles out sensitivity mode
unfolding assert_memory_access
assert_memory_access-Allows roles actor scope sensitivity mode {out} h =
    let (normalized, at_scope, h₁) = >>=-eq-ok (required_string 1 100 is_scope scope) _ h in
    let ((_, g₂), h₂) = >>-eq-ok (guard (not (is_restricted sensitivity)) policy) _ h₁ in
    let ((_, g₃), h₃) =
      >>-eq-ok (guard (not (normalized is "company" && is_confidential sensitivity)) policy) _ h₂ in
    let (same, allowed) =
      by_type-Allows roles normalized sensitivity mode actor.type actor.role_id h₃ in
    (
      ground arith,
      rw same (ground arith),
      at_scope ∙ ap ok (sym same),
      subst (λ x. ActorAllows actor.type actor.role_id roles x sensitivity mode) (sym same) allowed,
    )
