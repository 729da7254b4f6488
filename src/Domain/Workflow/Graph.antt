-- ===== src/Domain/Workflow/Graph.antt =====
-- The graph of the dependencies, and lists in which every step stands before what depends on it.
use fdos_genesis.Prelude.{
  ◌≡◌, subst, inl, inr, true, String, some, List, [], ◌∷◌, arith, eq_iff, ◌is◌, contains, All,
  Bool-cases,
}
use fdos_genesis.Domain.Workflow.{Step, by_id}

pub All-contains :
    (P : String → Type 0) (ds : List String) (d : String) → All P ds → contains d ds ≡ true → P d
All-contains P [] d h k = cc
All-contains P (x ∷ ds) d h k = elim (Bool-cases (d is x)) [
  | inl here ↦ let same : x ≡ d = ground (arith, eq_iff d x) in subst P same h.0
  | inr there ↦ All-contains P ds d h.1 (rw there at k)
]

module _ (steps : List Step) where
  -- The step `a` depends on `b`.
  abbrev pub DependsOn : String → String → Type 0
  DependsOn a b =
      (step : Step) × (by_id steps a ≡ some step) × (contains b step.dependencies ≡ true)

  -- A way of one dependency or more.
  pub data Reaches : String → String → Type 0 where
    one : {a b : String} → DependsOn a b → Reaches a b
    more : {a b c : String} → DependsOn a b → Reaches b c → Reaches a c

  -- The last visited stands first; its dependencies stand behind it.
  abbrev pub IsSorted : List String → Type 0
  IsSorted [] = Unit
  IsSorted (x ∷ v) =
      ((step : Step) × (by_id steps x ≡ some step)
        × All (λ d. contains d v ≡ true) step.dependencies)
      × IsSorted v

  first_dependency :
      (x : String) (v : List String) (b : String)
      → IsSorted (x ∷ v)
      → DependsOn x b
      → contains b v ≡ true
  first_dependency x v b ((s, at_s, behind), rest) (t, at_t, inside) =
      let same : t ≡ s = ground arith in
      All-contains (λ d. contains d v ≡ true) s.dependencies b behind
        (subst (λ u. contains b u.dependencies ≡ true) same inside)

  dependency_inside :
      (v : List String) (a b : String)
      → IsSorted v
      → contains a v ≡ true
      → DependsOn a b
      → contains b v ≡ true
  dependency_inside [] a b h k d = cc
  dependency_inside (x ∷ v) a b h k d = elim (Bool-cases (a is x)) [
    | inl here ↦
        let same : a ≡ x = ground (arith, eq_iff a x) in
        let behind = first_dependency x v b h (subst (λ y. DependsOn y b) same d) in ground arith
    | inr there ↦ let behind = dependency_inside v a b h.1 (rw there at k) d in ground arith
  ]

  reached_inside :
      (v : List String) (a b : String)
      → IsSorted v
      → contains a v ≡ true
      → Reaches a b
      → contains b v ≡ true
  reached_inside v a b h k (one d) = dependency_inside v a b h k d
  reached_inside v a c h k (more {b = b} d r) =
      reached_inside v b c h (dependency_inside v a b h k d) r

  reached_behind :
      (x : String) (v : List String) (b : String)
      → IsSorted (x ∷ v)
      → Reaches x b
      → contains b v ≡ true
  reached_behind x v b h (one d) = first_dependency x v b h d
  reached_behind x v c h (more {b = b} d r) =
      reached_inside v b c h.1 (first_dependency x v b h d) r

  -- Nothing in a sorted list reaches itself.
  pub IsSorted-acyclic :
      (v : List String) (a : String) → IsSorted v → contains a v ≡ true → Reaches a a → ⊥
  IsSorted-acyclic [] a h k r = cc
  IsSorted-acyclic (x ∷ v) a h k r = elim (Bool-cases (a is x)) [
    | inl here ↦
        let same : a ≡ x = ground (arith, eq_iff a x) in
        let behind = reached_behind x v a h (subst (λ y. Reaches y a) same r) in
        IsSorted-acyclic v a h.1 behind r
    | inr there ↦ IsSorted-acyclic v a h.1 (rw there at k) r
  ]
