-- ===== src/Domain/Workflow/Steps.antt =====
-- domain/workflow-definition.js: the checks of `createWorkflowDefinition` on the list of steps, and
-- which lists they accept.
use fdos_genesis.Prelude.{
  ◌≤◌, ◌≡◌, ◌↔◌, refl, subst, Bool, true, not, ◌&&◌, String, Option, none, some, List, [], ◌∷◌,
  arith, eq_iff, ◌is◌, contains, Bool-cases, inl, inr, length, leb, all,
}
use fdos_genesis.Kernel.Result.{Result, ok, err, validation, guard, ◌>>◌, >>-eq-ok, guard-eq-ok}
use fdos_genesis.Domain.Workflow.{Step, by_id, or_else, Search, ids, assert_acyclic}
use fdos_genesis.Domain.Workflow.Graph.{Reaches}
use fdos_genesis.Domain.Workflow.Sound.{assert_acyclic_sound}
use fdos_genesis.Domain.Workflow.Complete.{Returns, assert_acyclic_complete}

-- `stepIds.size === steps.length`
abbrev pub distinct : List String → Bool
distinct [] = true
distinct (x ∷ xs) = not (contains x xs) && distinct xs

-- A dependency is another step of the workflow.
abbrev pub dependencies_known : List Step → Step → Bool
dependencies_known steps step =
    all (λ d. contains d (ids steps) && not (d is step.id)) step.dependencies

unfoldable pub check_steps : List Step → Result (Unit {0})
check_steps steps = do
  guard (leb 2 (length steps) && leb (length steps) 32) validation
  guard (distinct (ids steps)) validation
  guard (all (dependencies_known steps) steps) validation

abbrev pub searched : Search → Option (Result (Unit {0}))
searched none = none
searched (some (err e)) = some (err e)
searched (some (ok w)) = some (ok tt)

abbrev pub then_search : Result (Unit {0}) → Search → Option (Result (Unit {0}))
then_search (err e) s = some (err e)
then_search (ok _) s = searched s

unfoldable pub assert_steps : List Step → Option (Result (Unit {0}))
unfolding check_steps assert_acyclic
assert_steps steps = then_search (check_steps steps) (assert_acyclic steps)

-- A list of two to thirty-two steps with distinct identifiers, whose dependencies are other steps
-- of the list, and of which none reaches itself.
pub record IsWorkflow (steps : List Step) : Type 0 where
  pub enough : 2 ≤ length steps
  pub few : length steps ≤ 32
  pub unique : distinct (ids steps) ≡ true
  pub known : all (dependencies_known steps) steps ≡ true
  pub acyclic : (a : String) → Reaches steps a a → ⊥

all-contains :
    (p : String → Bool) (ds : List String) (d : String)
    → all p ds ≡ true
    → contains d ds ≡ true
    → p d ≡ true
all-contains p [] d h k = cc
all-contains p (x ∷ ds) d h k = elim (Bool-cases (d is x)) [
  | inl here ↦
      let same : x ≡ d = ground (arith, eq_iff d x) in subst (λ y. p y ≡ true) same (ground arith)
  | inr there ↦ all-contains p ds d (ground arith) (rw there at k)
]

all-or_else :
    (p : Step → Bool) (s t : Step) (o : Option Step) (id : String)
    → p s ≡ true
    → ((u : Step) → o ≡ some u → p u ≡ true)
    → or_else o s id ≡ some t
    → p t ≡ true
all-or_else p s t (some u) id h k e =
    let same : u ≡ t = ground arith in subst (λ y. p y ≡ true) same (k u refl)
all-or_else p s t none id h k e = elim (Bool-cases (s.id is id)) [
  | inl here ↦
      let at_t : some s ≡ some t = rw here at e in
      let same : s ≡ t = ground arith in subst (λ y. p y ≡ true) same h
  | inr there ↦ let wrong : none ≡ some t = rw there at e in cc
]

all-by_id :
    (p : Step → Bool) (ss : List Step) (id : String) (t : Step)
    → all p ss ≡ true
    → by_id ss id ≡ some t
    → p t ≡ true
all-by_id p [] id t h e = cc
all-by_id p (s ∷ ss) id t h e =
    all-or_else p s t (by_id ss id) id (ground arith)
      (λ u at_u. all-by_id p ss id u (ground arith) at_u) e

module _ (steps : List Step) where
  known_dependency :
      all (dependencies_known steps) steps ≡ true
      → (s : Step) (id d : String) → by_id steps id ≡ some s
      → contains d s.dependencies ≡ true
      → contains d (ids steps) ≡ true
  known_dependency h s id d at_s inside =
      let known = all-by_id (dependencies_known steps) steps id s h at_s in
      let both =
        all-contains (λ e. contains e (ids steps) && not (e is s.id)) s.dependencies d known
          inside in
      ground arith

  searched-eq-ok : (s : Search) → searched s ≡ some (ok tt) → Returns s
  searched-eq-ok none h = absurd (ground arith)
  searched-eq-ok (some (err e)) h = absurd (ground arith)
  searched-eq-ok (some (ok w)) h = (w, refl)

  then_search-eq-ok :
      (r : Result (Unit {0})) (s : Search)
      → then_search r s ≡ some (ok tt)
      → (r ≡ ok tt) × Returns s
  then_search-eq-ok (err e) s h = absurd (ground arith)
  then_search-eq-ok (ok _) s h = (refl, searched-eq-ok s h)

  accepted-IsWorkflow : assert_steps steps ≡ some (ok tt) → IsWorkflow steps
  unfolding assert_steps check_steps
  accepted-IsWorkflow h =
      let (checks, (w, returned)) =
        then_search-eq-ok (check_steps steps) (assert_acyclic steps) h in
      let ((_, g₁), c₁) =
        >>-eq-ok (guard (leb 2 (length steps) && leb (length steps) 32) validation) _ checks in
      let ((_, g₂), c₂) = >>-eq-ok (guard (distinct (ids steps)) validation) _ c₁ in
      let size = guard-eq-ok (leb 2 (length steps) && leb (length steps) 32) validation g₁ in
      record {
        enough = ground arith;
        few = ground arith;
        unique = guard-eq-ok (distinct (ids steps)) validation g₂;
        known = guard-eq-ok (all (dependencies_known steps) steps) validation c₂;
        acyclic = λ a way. assert_acyclic_sound steps w a returned way;
      }

  sized :
      2 ≤ length steps → length steps ≤ 32 → (leb 2 (length steps) && leb (length steps) 32) ≡ true
  sized h k = ground arith

  IsWorkflow-accepted : IsWorkflow steps → assert_steps steps ≡ some (ok tt)
  unfolding assert_steps check_steps
  IsWorkflow-accepted w =
      let (v, returned) = assert_acyclic_complete steps (known_dependency w.known) w.acyclic in
      rw (sized w.enough w.few, w.unique, w.known, returned) refl

  -- The checks of `createWorkflowDefinition` on the steps, the search for cycles included, accept
  -- exactly the lists of two to thirty-two steps with distinct identifiers whose dependencies are
  -- other steps of the list and in which no step reaches itself by its dependencies.
  pub assert_steps_iff : (assert_steps steps ≡ some (ok tt)) ↔ IsWorkflow steps
  assert_steps_iff = (accepted-IsWorkflow, IsWorkflow-accepted)
