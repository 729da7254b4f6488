-- ===== src/Domain/Workflow.antt =====
-- domain/workflow-definition.js: the tests of `createWorkflowDefinition` on the steps and their
-- dependencies, with the depth-first search of `assertAcyclic`.
pub mod Graph
pub mod Sound
pub mod Fuel
pub mod Complete
pub mod Steps
use fdos_genesis.Prelude.{
  ℕ, zero, suc, Bool, true, false, not, ◌&&◌, ◌||◌, String, Option, none, some, List, [], ◌∷◌, leb,
  ◌is◌, if◌then◌else◌, length, all, any, contains,
}
use fdos_genesis.Kernel.Result.{Result, ok, err, validation, type_error, guard, ◌>>=◌, ◌>>◌}

-- A step, of which the search reads the identifier and the dependencies.
pub record Step : Type 0 where
  pub id : String
  pub dependencies : List String

-- `byId.get`: of steps with one identifier the last is in the map.
abbrev pub or_else : Option Step → Step → String → Option Step
or_else (some t) s id = some t
or_else none s id = if s.id is id then some s else none

abbrev pub by_id : List Step → String → Option Step
by_id [] id = none
by_id (s ∷ ss) id = or_else (by_id ss id) s id

-- A visit gives back `visited`, the last visited first, or throws; `none` is a search that is not
-- at its end when the fuel is.
abbrev pub Search : Type 0
Search = Option (Result (List String))

abbrev pub then_visit : Search → (List String → Search) → Search
then_visit none f = none
then_visit (some (err e)) f = some (err e)
then_visit (some (ok v)) f = f v

-- The loop over a list of identifiers.
unfoldable pub visit_all : (String → List String → Search) → List String → List String → Search
visit_all visit [] visited = some (ok visited)
visit_all visit (d ∷ ds) visited = then_visit (visit d visited) (λ v. visit_all visit ds v)

-- What a visit does at an identifier that is neither being visited nor visited.
abbrev pub enter : (String → List String → Search) → String → Option Step → List String → Search
enter visit id none visited = some (err type_error)
enter visit id (some step) visited =
    then_visit (visit_all visit step.dependencies visited) (λ v. some (ok (id ∷ v)))

abbrev pub choose : Bool → Bool → List String → Search → Search
choose true seen visited next = some (err validation)
choose false true visited next = some (ok visited)
choose false false visited next = next

unfoldable pub visit : List Step → ℕ → (visiting : List String) → String → List String → Search
visit steps zero visiting id visited = none
visit steps (suc n) visiting id visited =
    choose (contains id visiting) (contains id visited) visited
      (enter (visit steps n (id ∷ visiting)) id (by_id steps id) visited)

abbrev pub ids : List Step → List String
ids [] = []
ids (s ∷ ss) = s.id ∷ ids ss

-- One more than the number of steps is enough fuel.
unfoldable pub assert_acyclic : List Step → Search
unfolding visit_all visit
assert_acyclic steps = visit_all (visit steps (suc (length steps)) []) (ids steps) []
