-- ===== src/Kernel/EventLog/Contiguous.antt =====
-- The events of one transaction stand side by side in a verified log.
use fdos_genesis.Prelude.{
  ℕ, ◌+◌, ◌≡◌, sym, subst, inl, inr, true, false, String, Option, none, some, List, [], ◌∷◌, ◌++◌,
  arith, is_refl, same_option, same_option_iff, contains, All, Bool-cases,
}
use fdos_genesis.Kernel.Result.{ok}
use fdos_genesis.Kernel.EventLog.{
  Event, Unsigned, verify_from, verify_audit_event_chain, done_then, joins,
}
use fdos_genesis.Kernel.EventLog.Events.{verify_from-eq-ok}

-- An ended transaction is not taken up again by a round of the loop.
not-joins :
    (t : String) (active : Option String) (done : List String)
    → contains t done ≡ true
    → same_option (some t) active ≡ false
    → joins (some t) active done ≡ false
not-joins t none done ended other = ground arith
not-joins t (some a) done ended other = ground arith

contains-done_then :
    (t : String) (o active : Option String) (done : List String)
    → contains t done ≡ true
    → contains t (done_then o active done) ≡ true
contains-done_then t o none done ended = ground arith
contains-done_then t o (some a) done ended = ground arith

contains-done_then_active :
    (t : String) (o : Option String) (done : List String)
    → same_option o (some t) ≡ false
    → contains t (done_then o (some t) done) ≡ true
contains-done_then_active t o done other = ground (arith, is_refl t)

same_option-swap : (a b : Option String) → same_option a b ≡ false → same_option b a ≡ false
same_option-swap a b h = elim (Bool-cases (same_option b a)) [
  | inl e ↦ let p = (same_option_iff b a).0 e in let q = (same_option_iff a b).1 (sym p) in cc
  | inr e ↦ e
]

module _ {P : Type 0} (digest : Unsigned P → String) where
  stays_ended :
      (t : String) (index : ℕ) (previous active : Option String) (done : List String)
      (ys zs : List (Event P)) (b : Event P) {h : Option String}
      → contains t done ≡ true
      → same_option (some t) active ≡ false
      → b.transaction_id ≡ some t
      → verify_from digest index previous active done (ys ++ (b ∷ zs)) ≡ ok h
      → ⊥
  stays_ended t index previous active done [] zs b ended other at_b v =
      let (_, joined, _) = verify_from-eq-ok digest index previous active done b zs v in
      let refused = not-joins t active done ended other in
      cc (subst (λ o. joins o active done ≡ true) at_b joined)
  stays_ended t index previous active done (y ∷ ys) zs b ended other at_b v =
      let (_, joined, rest) =
        verify_from-eq-ok digest index previous active done y (ys ++ (b ∷ zs)) v in
      elim (Bool-cases (same_option (some t) y.transaction_id)) [
        | inl e ↦
            let at_y = (same_option_iff (some t) y.transaction_id).0 e in
            let refused = not-joins t active done ended other in
            cc (subst (λ o. joins o active done ≡ true) (sym at_y) joined)
        | inr e ↦
            stays_ended t (index + 1) (some y.hash) y.transaction_id
              (done_then y.transaction_id active done) ys zs b
              (contains-done_then t y.transaction_id active done ended) e at_b rest
      ]

  from_first :
      (t : String) (index : ℕ) (previous : Option String) (done : List String)
      (ys zs : List (Event P)) (b : Event P) {h : Option String}
      → b.transaction_id ≡ some t
      → verify_from digest index previous (some t) done (ys ++ (b ∷ zs)) ≡ ok h
      → All (λ (y : Event P). y.transaction_id ≡ some t) ys
  from_first t index previous done [] zs b at_b v = tt
  from_first t index previous done (y ∷ ys) zs b {h} at_b v =
      let (_, joined, rest) =
        verify_from-eq-ok digest index previous (some t) done y (ys ++ (b ∷ zs)) v in
      elim (Bool-cases (same_option y.transaction_id (some t))) [
        | inl e ↦
            let at_y = (same_option_iff y.transaction_id (some t)).0 e in
            (
              at_y,
              from_first t (index + 1) (some y.hash) (done_then y.transaction_id (some t) done) ys
                  zs b at_b
                  (subst
                    (λ o.
                      verify_from digest (index + 1) (some y.hash) o
                        (done_then y.transaction_id (some t) done) (ys ++ (b ∷ zs))
                      ≡ ok h)
                    at_y rest),
            )
        | inr e ↦ absurd (
            stays_ended t (index + 1) (some y.hash) y.transaction_id
              (done_then y.transaction_id (some t) done) ys zs b
              (contains-done_then_active t y.transaction_id done e)
              (same_option-swap y.transaction_id (some t) e) at_b rest)
      ]

  after_prefix :
      (t : String) (index : ℕ) (previous active : Option String) (done : List String)
      (xs ys zs : List (Event P)) (a b : Event P) {h : Option String}
      → a.transaction_id ≡ some t
      → b.transaction_id ≡ some t
      → verify_from digest index previous active done (xs ++ (a ∷ (ys ++ (b ∷ zs)))) ≡ ok h
      → All (λ (y : Event P). y.transaction_id ≡ some t) ys
  after_prefix t index previous active done [] ys zs a b {h} at_a at_b v =
      let (_, _, rest) = verify_from-eq-ok digest index previous active done a (ys ++ (b ∷ zs)) v in
      from_first t (index + 1) (some a.hash) (done_then a.transaction_id active done) ys zs b at_b (
        subst
          (λ o.
            verify_from digest (index + 1) (some a.hash) o (done_then a.transaction_id active done)
              (ys ++ (b ∷ zs))
            ≡ ok h)
          at_a rest)
  after_prefix t index previous active done (x ∷ xs) ys zs a b at_a at_b v =
      let (_, _, rest) =
        verify_from-eq-ok digest index previous active done x (xs ++ (a ∷ (ys ++ (b ∷ zs)))) v in
      after_prefix t (index + 1) (some x.hash) x.transaction_id
        (done_then x.transaction_id active done) xs ys zs a b at_a at_b rest

  -- Between two events of a transaction a verified log holds events of that transaction only.
  pub transactions_contiguous :
      (t : String) (xs ys zs : List (Event P)) (a b : Event P) {h : Option String}
      → a.transaction_id ≡ some t
      → b.transaction_id ≡ some t
      → verify_audit_event_chain digest (xs ++ (a ∷ (ys ++ (b ∷ zs)))) ≡ ok h
      → All (λ (y : Event P). y.transaction_id ≡ some t) ys
  unfolding verify_audit_event_chain
  transactions_contiguous t xs ys zs a b at_a at_b v =
      after_prefix t 0 none none [] xs ys zs a b at_a at_b v
