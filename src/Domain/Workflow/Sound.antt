-- ===== src/Domain/Workflow/Sound.antt =====
-- domain/workflow-definition.js: `assertAcyclic` accepts no cycle.
use fdos_genesis.Prelude.{
  ℕ, zero, suc, ◌≡◌, refl, subst, Bool, true, false, String, Option, none, some, List, [], ◌∷◌,
  arith, is_refl, contains, All, length,
}
use fdos_genesis.Kernel.Result.{ok, err}
use fdos_genesis.Domain.Workflow.{
  Step, by_id, Search, then_visit, visit_all, enter, choose, visit, ids, assert_acyclic,
}
use fdos_genesis.Domain.Workflow.Fuel.{by_id-contains}
use fdos_genesis.Domain.Workflow.Graph.{
  All-contains, IsSorted, IsSorted-acyclic, Reaches, one, more,
}

-- Nothing that is visited is forgotten.
abbrev Grows : List String → List String → Type 0
Grows v w = (d : String) → contains d v ≡ true → contains d w ≡ true

then_visit-eq-ok :
    (s : Search) (f : List String → Search) {w : List String}
    → then_visit s f ≡ some (ok w)
    → (v : List String) × (s ≡ some (ok v)) × (f v ≡ some (ok w))
then_visit-eq-ok none f h = cc
then_visit-eq-ok (some (err e)) f h = cc
then_visit-eq-ok (some (ok v)) f h = (v, refl, h)

module _ (steps : List Step) where
  -- What a visit that returns has done.
  abbrev Visits : (String → List String → Search) → Type 0
  Visits f =
      (d : String) (v w : List String)
      → IsSorted steps v
      → f d v ≡ some (ok w)
      → IsSorted steps w × (contains d w ≡ true) × Grows v w

  visit_all-Visits :
      (f : String → List String → Search)
      → Visits f
      → (ds v w : List String) → IsSorted steps v
      → visit_all f ds v ≡ some (ok w)
      → IsSorted steps w × All (λ d. contains d w ≡ true) ds × Grows v w
  unfolding visit_all
  visit_all-Visits f k [] v w sorted h =
      let same : v ≡ w = ground arith in
      (
        subst (IsSorted steps) same sorted,
        tt,
        λ d inside. subst (λ x. contains d x ≡ true) same inside,
      )
  visit_all-Visits f k (d ∷ ds) v w sorted h =
      let (u, at_u, rest) = then_visit-eq-ok (f d v) _ h in
      let (sorted_u, inside_u, grows_u) = k d v u sorted at_u in
      let (sorted_w, all_w, grows_w) = visit_all-Visits f k ds u w sorted_u rest in
      (sorted_w, (grows_w d inside_u, all_w), λ x inside. grows_w x (grows_u x inside))

  enter-Visits :
      (f : String → List String → Search)
      → Visits f
      → (id : String) (o : Option Step) (v w : List String) → by_id steps id ≡ o
      → IsSorted steps v
      → enter f id o v ≡ some (ok w)
      → IsSorted steps w × (contains id w ≡ true) × Grows v w
  enter-Visits f k id none v w found sorted h = cc
  enter-Visits f k id (some step) v w found sorted h =
      let (u, at_u, rest) = then_visit-eq-ok (visit_all f step.dependencies v) _ h in
      let (sorted_u, all_u, grows_u) = visit_all-Visits f k step.dependencies v u sorted at_u in
      let same : id ∷ u ≡ w = ground arith in
      let self = is_refl id in
      (
        subst (IsSorted steps) same ((step, found, all_u), sorted_u),
        subst (λ x. contains id x ≡ true) same (ground arith),
        λ d inside.
            subst (λ x. contains d x ≡ true) same (let before = grows_u d inside in ground arith),
      )

  chosen-Visits :
      (visiting : Bool) (id : String) (v w : List String) (next : Search) (seen : Bool)
      → contains id v ≡ seen
      → IsSorted steps v
      → (next ≡ some (ok w) → IsSorted steps w × (contains id w ≡ true) × Grows v w)
      → choose visiting seen v next ≡ some (ok w)
      → IsSorted steps w × (contains id w ≡ true) × Grows v w
  chosen-Visits true id v w next seen at_seen sorted k h = cc
  chosen-Visits false id v w next true at_seen sorted k h =
      let same : v ≡ w = ground arith in
      (
        subst (IsSorted steps) same sorted,
        subst (λ x. contains id x ≡ true) same at_seen,
        λ d inside. subst (λ x. contains d x ≡ true) same inside,
      )
  chosen-Visits false id v w next false at_seen sorted k h = k h

  visit-Visits : (n : ℕ) (visiting : List String) → Visits (visit steps n visiting)
  unfolding visit
  visit-Visits zero visiting id v w sorted h = cc
  visit-Visits (suc n) visiting id v w sorted h =
      chosen-Visits (contains id visiting) id v w
        (enter (visit steps n (id ∷ visiting)) id (by_id steps id) v) (contains id v) refl sorted
        (enter-Visits (visit steps n (id ∷ visiting)) (visit-Visits n (id ∷ visiting)) id
          (by_id steps id) v w refl sorted)
        h

  Reaches-from : (a b : String) → Reaches steps a b → (s : Step) × (by_id steps a ≡ some s)
  Reaches-from a b (one (s, at_s, _)) = (s, at_s)
  Reaches-from a b (more (s, at_s, _) r) = (s, at_s)

  -- Where `assertAcyclic` returns, no step of the workflow reaches itself by its dependencies.
  pub assert_acyclic_sound :
      (w : List String) (a : String) → assert_acyclic steps ≡ some (ok w) → Reaches steps a a → ⊥
  unfolding assert_acyclic
  assert_acyclic_sound w a h way =
      let (sorted, all_inside, _) =
        visit_all-Visits (visit steps (suc (length steps)) [])
          (visit-Visits (suc (length steps)) []) (ids steps) [] w tt h in
      let (s, at_s) = Reaches-from a a way in
      IsSorted-acyclic steps w a sorted
        (All-contains (λ d. contains d w ≡ true) (ids steps) a all_inside
          (by_id-contains steps a at_s))
        way
