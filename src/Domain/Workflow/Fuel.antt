-- ===== src/Domain/Workflow/Fuel.antt =====
-- domain/workflow-definition.js: the search of `assertAcyclic` ends; every visit that enters a step
-- leaves one step fewer that is not being visited.
use fdos_genesis.Prelude.{
  ℕ, zero, suc, ◌≤◌, ◌<◌, ◌≡◌, ◌≢◌, refl, subst, Bool, true, false, String, Option, none, some,
  List, [], ◌∷◌, arith, eq_iff, ◌is◌, contains, Bool-cases, inl, inr, if◌then◌else◌, length,
}
use fdos_genesis.Kernel.Result.{ok, err}
use fdos_genesis.Domain.Workflow.{
  Step, by_id, or_else, Search, then_visit, visit_all, enter, choose, visit, ids, assert_acyclic,
}

-- The steps that are not being visited.
abbrev pub free : List String → List Step → ℕ
free visiting [] = 0
free visiting (s ∷ ss) = if contains s.id visiting then free visiting ss else suc (free visiting ss)

pub free-[] : (ss : List Step) → free [] ss ≡ length ss
free-[] [] = refl
free-[] (s ∷ ss) = omega (arith, free-[] ss)

free_mono :
    (id : String) (visiting : List String) (ss : List Step)
    → free (id ∷ visiting) ss ≤ free visiting ss
free_mono id visiting [] = ground arith
free_mono id visiting (s ∷ ss) = ground (arith, free_mono id visiting ss)

pub free-enter :
    (id : String) (visiting : List String) (ss : List Step)
    → contains id (ids ss) ≡ true
    → contains id visiting ≡ false
    → free (id ∷ visiting) ss < free visiting ss
free-enter id visiting [] k h = cc
free-enter id visiting (s ∷ ss) k h = elim (Bool-cases (id is s.id)) [
  | inl here ↦
      let same : id ≡ s.id = ground (arith, eq_iff id s.id) in
      let outside : contains s.id visiting ≡ false =
        subst (λ x. contains x visiting ≡ false) same h in
      ground (arith, free_mono id visiting ss, eq_iff s.id id)
  | inr there ↦
      let less = free-enter id visiting ss (rw there at k) h in
      ground (arith, eq_iff s.id id, eq_iff id s.id)
]

or_else-contains :
    (s : Step) (ss : List Step) (id : String) (o : Option Step) {step : Step}
    → ((t : Step) → o ≡ some t → contains id (ids ss) ≡ true)
    → or_else o s id ≡ some step
    → contains id (ids (s ∷ ss)) ≡ true
or_else-contains s ss id (some t) k h = let inside = k t refl in ground arith
or_else-contains s ss id none k h = ground (arith, eq_iff s.id id, eq_iff id s.id)

pub by_id-contains :
    (ss : List Step) (id : String) {step : Step}
    → by_id ss id ≡ some step
    → contains id (ids ss) ≡ true
by_id-contains [] id h = cc
by_id-contains (s ∷ ss) id h =
    or_else-contains s ss id (by_id ss id) (λ t at_t. by_id-contains ss id at_t) h

module _ (steps : List Step) where
  abbrev Ends : (String → List String → Search) → Type 0
  Ends f = (d : String) (v : List String) → f d v ≢ none

  then_visit-ends :
      (s : Search) (f : List String → Search)
      → s ≢ none
      → ((v : List String) → f v ≢ none)
      → then_visit s f ≢ none
  then_visit-ends none f h k = absurd (h refl)
  then_visit-ends (some (err e)) f h k = λ p. cc
  then_visit-ends (some (ok v)) f h k = k v

  visit_all-Ends :
      (f : String → List String → Search) → Ends f → (ds v : List String) → visit_all f ds v ≢ none
  unfolding visit_all
  visit_all-Ends f k [] v = λ p. cc
  visit_all-Ends f k (d ∷ ds) v = then_visit-ends (f d v) _ (k d v) (λ w. visit_all-Ends f k ds w)

  enter-Ends :
      (f : String → List String → Search) (id : String) (o : Option Step) (v : List String)
      → by_id steps id ≡ o
      → (is_found : contains id (ids steps) ≡ true → Ends f) → enter f id o v ≢ none
  enter-Ends f id none v found k = λ p. cc
  enter-Ends f id (some step) v found k =
      then_visit-ends (visit_all f step.dependencies v) _
        (visit_all-Ends f (k (by_id-contains steps id found)) step.dependencies v) (λ w p. cc)

  choose-ends :
      (entered seen : Bool) (v : List String) (next : Search)
      → (entered ≡ false → next ≢ none)
      → choose entered seen v next ≢ none
  choose-ends true seen v next k = λ p. cc
  choose-ends false true v next k = λ p. cc
  choose-ends false false v next k = k refl

  visit-Ends :
      (n : ℕ) (visiting : List String) → free visiting steps < n → Ends (visit steps n visiting)
  unfolding visit
  visit-Ends zero visiting h id v = absurd (omega arith)
  visit-Ends (suc n) visiting h id v =
      choose-ends (contains id visiting) (contains id v) v _ (λ outside.
        enter-Ends (visit steps n (id ∷ visiting)) id (by_id steps id) v refl (λ inside.
          let less = free-enter id visiting steps inside outside in
          visit-Ends n (id ∷ visiting) (omega arith)))

  -- `assertAcyclic` ends on every list of steps: with one more than their number as fuel the
  -- search always returns or throws.
  pub assert_acyclic_ends : assert_acyclic steps ≢ none
  unfolding assert_acyclic
  assert_acyclic_ends =
      visit_all-Ends (visit steps (suc (length steps)) [])
        (visit-Ends (suc (length steps)) [] (let all_free = free-[] steps in omega arith))
        (ids steps) []
