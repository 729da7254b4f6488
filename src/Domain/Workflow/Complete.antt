-- ===== src/Domain/Workflow/Complete.antt =====
-- domain/workflow-definition.js: `assertAcyclic` accepts every workflow whose dependencies are
-- steps of it and do not form a cycle.
use fdos_genesis.Prelude.{
  ℕ, zero, suc, ◌<◌, ◌≡◌, refl, subst, Bool, true, false, String, Option, none, some, List, [], ◌∷◌,
  arith, eq_iff, ◌is◌, is_refl, contains, Bool-cases, inl, inr, length,
}
use fdos_genesis.Kernel.Result.{ok, err}
use fdos_genesis.Domain.Workflow.{
  Step, by_id, or_else, Search, then_visit, visit_all, choose, visit, ids, assert_acyclic,
}
use fdos_genesis.Domain.Workflow.Graph.{DependsOn, Reaches, one, more}
use fdos_genesis.Domain.Workflow.Fuel.{free, free-[], free-enter, by_id-contains}

abbrev pub Returns : Search → Type 0
Returns s = (w : List String) × (s ≡ some (ok w))

found_or_else :
    (s : Step) (id : String) (o : Option Step)
    → ((id is s.id) ≡ false → (t : Step) × (o ≡ some t))
    → (t : Step) × (or_else o s id ≡ some t)
found_or_else s id (some t) k = (t, refl)
found_or_else s id none k = elim (Bool-cases (s.id is id)) [
  | inl here ↦ (s, rw here refl)
  | inr there ↦
      let (t, at_t) = k (ground (arith, eq_iff s.id id, eq_iff id s.id)) in absurd (ground arith)
]

contains-by_id :
    (ss : List Step) (id : String)
    → contains id (ids ss) ≡ true
    → (t : Step) × (by_id ss id ≡ some t)
contains-by_id [] id h = cc
contains-by_id (s ∷ ss) id h =
    found_or_else s id (by_id ss id) (λ other. contains-by_id ss id (rw other at h))

then_visit-Returns :
    (s : Search) (f : List String → Search)
    → Returns s
    → ((v : List String) → Returns (f v))
    → Returns (then_visit s f)
then_visit-Returns none f (w, h) k = absurd (ground arith)
then_visit-Returns (some (err e)) f (w, h) k = absurd (ground arith)
then_visit-Returns (some (ok v)) f h k = k v

visit_all-Returns :
    (f : String → List String → Search) (ds v : List String)
    → ((d : String) (w : List String) → contains d ds ≡ true → Returns (f d w))
    → Returns (visit_all f ds v)
unfolding visit_all
visit_all-Returns f [] v k = (v, refl)
visit_all-Returns f (d ∷ ds) v k =
    then_visit-Returns (f d v) _ (k d v (let self = is_refl d in ground arith))
      (λ w. visit_all-Returns f ds w (λ e u inside. k e u (ground arith)))

choose-Returns :
    (entered seen : Bool) (v : List String) (next : Search)
    → entered ≡ false
    → Returns next
    → Returns (choose entered seen v next)
choose-Returns true seen v next h k = cc
choose-Returns false true v next h k = (v, refl)
choose-Returns false false v next h k = k

module _ (steps : List Step) where
  snoc : {a b c : String} → Reaches steps a b → DependsOn steps b c → Reaches steps a c
  snoc (one d) e = more d (one e)
  snoc (more d r) e = more d (snoc r e)

  -- Everything that is being visited reaches what is visited next.
  abbrev Leads : List String → String → Type 0
  Leads visiting id = (x : String) → contains x visiting ≡ true → Reaches steps x id

  Leads-on :
      (visiting : List String) (id d : String)
      → Leads visiting id
      → DependsOn steps id d
      → Leads (id ∷ visiting) d
  Leads-on visiting id d h e x inside = elim (Bool-cases (x is id)) [
    | inl here ↦
        let same : id ≡ x = ground (arith, eq_iff x id) in
        subst (λ y. Reaches steps y d) same (one e)
    | inr there ↦ snoc (h x (rw there at inside)) e
  ]

  module _
      (known : (s : Step) (id d : String)
        → by_id steps id ≡ some s
        → contains d s.dependencies ≡ true
        → contains d (ids steps) ≡ true)
      (acyclic : (a : String) → Reaches steps a a → ⊥) where
    not_entered :
        (visiting : List String) (id : String) → Leads visiting id → contains id visiting ≡ false
    not_entered visiting id h = elim (Bool-cases (contains id visiting)) [
      | inl inside ↦ absurd (acyclic id (h id inside))
      | inr outside ↦ outside
    ]

    visit-Returns :
        (n : ℕ) (visiting : List String) (id : String) (v : List String) (s : Step)
        → free visiting steps < n
        → by_id steps id ≡ some s
        → Leads visiting id
        → Returns (visit steps n visiting id v)
    unfolding visit
    visit-Returns zero visiting id v s enough at_s h = absurd (omega arith)
    visit-Returns (suc n) visiting id v s enough at_s h =
        let outside = not_entered visiting id h in
        let less = free-enter id visiting steps (by_id-contains steps id at_s) outside in
        choose-Returns (contains id visiting) (contains id v) v _ outside (
          rw at_s (
            then_visit-Returns (visit_all (visit steps n (id ∷ visiting)) s.dependencies v) _
              (visit_all-Returns (visit steps n (id ∷ visiting)) s.dependencies v (λ d w inside.
                let (t, at_t) = contains-by_id steps d (known s id d at_s inside) in
                visit-Returns n (id ∷ visiting) d w t (omega (arith, less, enough)) at_t
                  (Leads-on visiting id d h (s, at_s, inside))))
              (λ w. (id ∷ w, refl))))

    -- Where every dependency is a step of the workflow and no step reaches itself by its
    -- dependencies, `assertAcyclic` returns.
    pub assert_acyclic_complete : Returns (assert_acyclic steps)
    unfolding assert_acyclic
    assert_acyclic_complete =
        visit_all-Returns (visit steps (suc (length steps)) []) (ids steps) [] (λ d w inside.
          let (t, at_t) = contains-by_id steps d inside in
          visit-Returns (suc (length steps)) [] d w t (let all_free = free-[] steps in omega arith)
            at_t (λ x wrong. cc))
