-- ===== src/Tests/Workflows.antt =====
-- A workflow of three steps, and one with a cycle.
use fdos_genesis.Prelude.{◌↔◌, ◌≡◌, ◌≢◌, refl, none, some, List, [], ◌∷◌}
use fdos_genesis.Kernel.Result.{ok, err, validation}
use fdos_genesis.Domain.Workflow.{Step, visit, visit_all, assert_acyclic}
use fdos_genesis.Domain.Workflow.Steps.{check_steps, assert_steps, IsWorkflow, assert_steps_iff}
use fdos_genesis.Domain.Workflow.Fuel.{assert_acyclic_ends}

abbrev chain : List Step
chain =
    record { id = "draft"; dependencies = "intake" ∷ [] }
    ∷ record { id = "intake"; dependencies = [] }
    ∷ record { id = "review"; dependencies = "draft" ∷ "intake" ∷ [] }
    ∷ []

abbrev cycle : List Step
cycle =
    record { id = "draft"; dependencies = "review" ∷ [] }
    ∷ record { id = "review"; dependencies = "draft" ∷ [] }
    ∷ []

cycle_test : assert_acyclic cycle ≡ some (err validation)
unfolding assert_acyclic visit visit_all
cycle_test = refl

chain_test : assert_acyclic chain ≡ some (ok ("review" ∷ "draft" ∷ "intake" ∷ []))
unfolding assert_acyclic visit visit_all
chain_test = refl

assert_acyclic_ends_example : assert_acyclic cycle ≢ none
assert_acyclic_ends_example = assert_acyclic_ends cycle

chain_accepted_test : assert_steps chain ≡ some (ok tt)
unfolding assert_steps check_steps assert_acyclic visit visit_all
chain_accepted_test = refl

cycle_refused_test : assert_steps cycle ≡ some (err validation)
unfolding assert_steps check_steps assert_acyclic visit visit_all
cycle_refused_test = refl

assert_steps_iff_example : (assert_steps chain ≡ some (ok tt)) ↔ IsWorkflow chain
assert_steps_iff_example = assert_steps_iff chain
