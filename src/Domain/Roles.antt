-- ===== src/Domain/Roles.antt =====
-- domain/role-registry.js: the registry of roles and its authorization tests.
pub mod Memory
use fdos_genesis.Prelude.{
  ℕ, ◌≤◌, ◌≡◌, refl, Bool, true, false, not, ◌&&◌, ◌||◌, String, Option, none, some, List, [], ◌∷◌,
  ◌++◌, arith, leb, ◌is◌, if◌then◌else◌, any, contains,
}
use fdos_genesis.Kernel.Result.{
  Result, ok, err, not_found, authorization, policy, guard, or_throw, ◌>>=◌, ◌>>◌,
}
use fdos_genesis.Kernel.Text.{starts_with, is_lower, every_char, text_length, head_and_tail, skip}
use fdos_genesis.Kernel.Validation.{required_string, is_prefix_tail}
use fdos_genesis.Kernel.EventLog.{Actor, ActorType, human, agent, connector, system, is_role_id}
use fdos_genesis.Domain.Catalog.{Sensitivity, public, internal, confidential, restricted}

abbrev pub sensitivity_rank : Sensitivity → ℕ
sensitivity_rank public = 0
sensitivity_rank internal = 1
sensitivity_rank confidential = 2
sensitivity_rank restricted = 3

-- A role, without its name, department and communication style, which no rule reads.
pub record Role : Type 0 where
  pub id : String
  pub capabilities : List String
  pub memory_read_scopes : List String
  pub memory_propose_scopes : List String
  pub max_sensitivity : Sensitivity

abbrev pub Roles : Type 0
Roles = List Role

abbrev find_role : String → Roles → Option Role
find_role id [] = none
find_role id (r ∷ rs) = if r.id is id then some r else find_role id rs

unfoldable pub get : Roles → String → Result Role
get roles id = or_throw (find_role id roles) not_found

unfoldable pub has_capability : Roles → String → String → Result Bool
unfolding get
has_capability roles role_id capability = do
  role ← get roles role_id
  ok (contains capability role.capabilities)

unfoldable pub assert_capability : Roles → String → String → Result (Unit {0})
assert_capability roles role_id capability = do
  held ← has_capability roles role_id capability
  guard held authorization

-- `owner` is the owner role of the task that is read. An agent has a role: the registry of agents
-- gives it one.
unfoldable pub assert_task_read : Roles → Actor → String → Result (Unit {0})
assert_task_read roles actor owner = read actor.type actor.role_id
  where
    read : ActorType → Option String → Result (Unit {0})
    read human role = ok tt
    read agent (some role) =
        if role is owner
        then ok tt
        else (has_capability roles role "task:read:any" >>= λ held. guard held authorization)
    read agent none = err not_found
    read _ role = err authorization

-- /^(company|department:(?:\*|[a-z][a-z0-9-]{1,63}))$/
unfoldable pub is_scope : String → Bool
unfolding starts_with every_char text_length skip is_role_id
is_scope s =
    s is "company" || (starts_with s "department:" && (skip 11 s is "*" || is_role_id (skip 11 s)))

unfoldable pub scope_matches : String → String → Bool
unfolding starts_with
scope_matches rule scope =
    rule is scope || (rule is "department:*" && starts_with scope "department:")

pub data MemoryMode : Type 0 where
  read propose : MemoryMode

abbrev pub scopes_for : MemoryMode → Role → List String
scopes_for read role = role.memory_read_scopes
scopes_for propose role = role.memory_propose_scopes

abbrev pub mode_text : MemoryMode → String
mode_text read = "read"
mode_text propose = "propose"

abbrev pub is_confidential : Sensitivity → Bool
is_confidential confidential = true
is_confidential _ = false

abbrev pub is_restricted : Sensitivity → Bool
is_restricted restricted = true
is_restricted _ = false

abbrev pub append_text : String → String → String
append_text String.[] t = t
append_text (String.◌∷◌ c s) t = String.◌∷◌ c (append_text s t)

-- The capabilities of a role for a scope: the exact one, or that of any department.
unfoldable pub memory_capability : Role → String → MemoryMode → Bool
unfolding starts_with
memory_capability role scope mode =
    contains (append_text "memory:" (append_text scope (append_text ":" (mode_text mode))))
      role.capabilities
    || (starts_with scope "department:"
        && contains (append_text "memory:department:any:" (mode_text mode)) role.capabilities)

-- The tests of an agent, by its role.
unfoldable pub assert_role_memory :
    Roles → String → String → Sensitivity → MemoryMode → Result String
assert_role_memory roles role_id scope sensitivity mode = do
  role ← get roles role_id
  guard (leb (sensitivity_rank sensitivity) (sensitivity_rank role.max_sensitivity)) authorization
  guard (any (λ rule. scope_matches rule scope) (scopes_for mode role)) authorization
  guard (memory_capability role scope mode) authorization
  ok scope

-- Of an actor by its type: a human, an agent with its role, and no other.
abbrev pub memory_by_type :
    Roles → Sensitivity → MemoryMode → ActorType → Option String → String → Result String
memory_by_type roles sensitivity mode human role scope = ok scope
memory_by_type roles sensitivity mode agent (some role) scope =
    assert_role_memory roles role scope sensitivity mode
memory_by_type roles sensitivity mode agent none scope = err not_found
memory_by_type roles sensitivity mode _ role scope = err authorization

unfoldable pub assert_memory_access :
    Roles → Actor → String → Sensitivity → MemoryMode → Result String
assert_memory_access roles actor scope sensitivity mode = do
  normalized ← required_string 1 100 is_scope scope
  guard (not (is_restricted sensitivity)) policy
  guard (not (normalized is "company" && is_confidential sensitivity)) policy
  memory_by_type roles sensitivity mode actor.type actor.role_id normalized
