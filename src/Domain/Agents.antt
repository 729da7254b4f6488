-- ===== src/Domain/Agents.antt =====
-- domain/agent-registry.js: the registry of agent instances, and who an agent acts as.
use fdos_genesis.Prelude.{
  Bool, true, false, not, String, Option, none, some, List, [], ◌∷◌, ◌is◌, if◌then◌else◌,
}
use fdos_genesis.Kernel.Result.{
  Result, ok, authorization, conflict, not_found, guard, or_throw, ◌>>=◌, ◌>>◌,
}
use fdos_genesis.Kernel.Validation.{required_string, anything, is_agent_id}
use fdos_genesis.Kernel.JsMap.{JsMap}
use fdos_genesis.Kernel.JsMap
use fdos_genesis.Kernel.EventLog.{Actor, ActorType, agent, is_role_id}
use fdos_genesis.Domain.Roles.{Roles}
use fdos_genesis.Domain.Roles

pub data InstanceStatus : Type 0 where
  active suspended retired : InstanceStatus

abbrev pub is_active : InstanceStatus → Bool
is_active active = true
is_active _ = false

-- An agent; the definition of one has no digest yet.
pub record AgentDefinition : Type 0 where
  pub id : String
  pub name : String
  pub role_id : String
  pub personality_profile_id : String
  pub personality_profile_version : String
  pub status : InstanceStatus

pub record Agent : Type 0 where
  pub definition : AgentDefinition
  pub open definition use *
  pub personality_profile_digest : String

-- What `resolveForRole` gives of a personality profile.
pub record Personality : Type 0 where
  pub id : String
  pub version : String
  pub digest : String

module _ (roles : Roles)
    (resolve_for_role : (id version role_id : String) → Result Personality) where
  unfoldable pub normalize_definition : AgentDefinition → Result Agent
  normalize_definition definition = do
    role_id ← required_string 1 64 is_role_id definition.role_id
    Roles.get roles role_id
    personality ←
        resolve_for_role definition.personality_profile_id definition.personality_profile_version
          role_id
    id ← required_string 1 140 is_agent_id definition.id
    name ← required_string 1 160 anything definition.name
    ok (record {
      definition = record {
        id = id;
        name = name;
        role_id = role_id;
        personality_profile_id = personality.id;
        personality_profile_version = personality.version;
        status = definition.status;
      };
      personality_profile_digest = personality.digest;
    })

  -- The loop of the constructor.
  unfoldable pub register_agents : JsMap Agent → List AgentDefinition → Result (JsMap Agent)
  register_agents agents [] = ok agents
  register_agents agents (definition ∷ definitions) = normalize_definition definition >>= λ a.
      guard (not (JsMap.has a.id agents)) conflict
      >> register_agents (JsMap.set a.id a agents) definitions

unfoldable pub get_agent : JsMap Agent → String → Result Agent
get_agent agents id = or_throw (JsMap.get id agents) not_found

abbrev pub is_agent_type : ActorType → Bool
is_agent_type agent = true
is_agent_type _ = false

-- An empty role is no claim of a role.
abbrev pub claims_role : Option String → String → Bool
claims_role none role_id = true
claims_role (some claimed) role_id = if claimed is "" then true else claimed is role_id

unfoldable pub resolve_agent : JsMap Agent → Actor → Result Actor
unfolding get_agent
resolve_agent agents actor = do
  guard (is_agent_type actor.type) authorization
  found ← get_agent agents actor.id
  guard (is_active found.status) authorization
  guard (claims_role actor.role_id found.role_id) authorization
  ok (record {
    type = agent;
    id = found.id;
    role_id = some found.role_id;
    invocation_id = none;
    correlation_id = none;
  })
