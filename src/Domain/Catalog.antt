-- ===== src/Domain/Catalog.antt =====
-- domain/action-catalog.js: risk classes and the catalogue of actions.
use fdos_genesis.Prelude.{
  ℕ, Bool, ◌&&◌, String, Option, none, some, List, [], ◌∷◌, leb, ltb, ◌is◌, if◌then◌else◌,
}
use fdos_genesis.Kernel.Result.{Result, policy, or_throw}

pub data Risk : Type 0 where
  a0 a1 a2 a3 a4 : Risk

pub data Sensitivity : Type 0 where
  public internal confidential restricted : Sensitivity

abbrev pub risk_rank : Risk → ℕ
risk_rank a0 = 0
risk_rank a1 = 1
risk_rank a2 = 2
risk_rank a3 = 3
risk_rank a4 = 4

-- `compareRisk(left, right) >= 0` and `< 0`.
abbrev pub risk_at_least : Risk → Risk → Bool
risk_at_least left right = leb (risk_rank right) (risk_rank left)

abbrev pub risk_below : Risk → Risk → Bool
risk_below left right = ltb (risk_rank left) (risk_rank right)

abbrev pub same_risk : Risk → Risk → Bool
same_risk left right = risk_at_least left right && risk_at_least right left

-- An entry of the catalogue, without its description and tags, which no rule reads.
pub record ActionDefinition : Type 0 where
  pub type : String
  pub capability : String
  pub minimum_risk_class : Risk

abbrev action : String → String → Risk → ActionDefinition
action t c r = record { type = t; capability = c; minimum_risk_class = r }

-- DEFAULT_ACTIONS
abbrev pub default_actions : List ActionDefinition
default_actions =
    action "work.intake.analyze" "work:intake" a0
    ∷ action "operations.release.assess" "operations:assess" a0
    ∷ action "marketing.release.draft" "marketing:draft" a1
    ∷ action "executive.release.synthesize" "work:synthesize" a0
    ∷ action "specialist.analysis" "work:specialist" a0
    ∷ action "connector.reference.read" "connector:read:reference" a1
    ∷ action "connector.reversible.write" "connector:write:reversible" a2
    ∷ action "email.send" "email:send" a3
    ∷ action "content.publish" "content:publish" a3
    ∷ action "contract.sign" "contract:sign" a3
    ∷ action "payment.execute" "payment:execute" a3
    ∷ action "personnel.decide" "personnel:decide" a3
    ∷ action "record.delete" "record:delete" a4
    ∷ action "audit.alter" "audit:alter" a4
    ∷ action "governance.bypass" "governance:bypass" a4
    ∷ []

abbrev pub Catalog : Type 0
Catalog = List ActionDefinition

abbrev pub find_action : String → Catalog → Option ActionDefinition
find_action t [] = none
find_action t (d ∷ ds) = if d.type is t then some d else find_action t ds

-- `ActionCatalog.get`
unfoldable pub get : Catalog → String → Result ActionDefinition
get catalog t = or_throw (find_action t catalog) policy
