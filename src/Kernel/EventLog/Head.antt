-- ===== src/Kernel/EventLog/Head.antt =====
-- The head hash of a verified log determines the whole log, where the digest has no collision
-- between the events of the two logs that are compared.
use fdos_genesis.Prelude.{
  ℕ, ◌+◌, ◌≡◌, refl, sym, ◌∙◌, ap, ap₂, ◌⊎◌, inl, inr, String, Option, none, some, List, [], ◌∷◌,
  arith, length, In,
}
use fdos_genesis.Kernel.Result.{ok}
use fdos_genesis.Kernel.EventLog.{Event, Unsigned, verify_from, verify_audit_event_chain, done_then}
use fdos_genesis.Kernel.EventLog.Events.{validate_event-Fits, verify_from-eq-ok}

module _ {P : Type 0} (digest : Unsigned P → String) where
  -- No event of the one log collides with another event of the other.
  abbrev pub NoCollision : List (Event P) → List (Event P) → Type 0
  NoCollision es fs =
      (e f : Event P)
      → In e es
      → In f fs
      → digest e.unsigned ≡ digest f.unsigned
      → e.unsigned ≡ f.unsigned

  -- What the result of the loop says of the last event.
  abbrev Ends : ℕ → Option String → List (Event P) → Option String → Type 0
  Ends index previous events h =
      ((events ≡ []) × (h ≡ previous))
      ⊎ ((e : Event P) × In e events
          × (h ≡ some (digest e.unsigned))
          × (e.sequence ≡ index + length events))

  verify_from-Ends :
      (index : ℕ) (previous active : Option String) (done : List String) (events : List (Event P))
      {h : Option String}
      → verify_from digest index previous active done events ≡ ok h
      → Ends index previous events h
  unfolding verify_from
  verify_from-Ends index previous active done [] v = inl (refl, ground arith)
  verify_from-Ends index previous active done (e ∷ events) v =
      let (valid, joined, rest) = verify_from-eq-ok digest index previous active done e events v in
      let fits = (validate_event-Fits digest e index previous valid).1 in
      elim (verify_from-Ends (index + 1) (some e.hash) e.transaction_id
        (done_then e.transaction_id active done) events rest) [
          | inl (none_left, at_end) ↦
              inr (
                e,
                inl refl,
                at_end ∙ ap some fits.sealed,
                rw none_left (omega (arith, fits.placed)),
              )
          | inr (f, inside, at_end, place) ↦ inr (f, inr inside, at_end, omega (arith, place))
        ]

  event_ext : (e f : Event P) → e.unsigned ≡ f.unsigned → e.hash ≡ f.hash → e ≡ f
  event_ext e f p q = λ i. record { unsigned = p i; hash = q i }

  same_length_commits :
      (index : ℕ) (p q a b : Option String) (c d : List String) (es fs : List (Event P))
      {h : Option String}
      → NoCollision es fs
      → length es ≡ length fs
      → verify_from digest index p a c es ≡ ok h
      → verify_from digest index q b d fs ≡ ok h
      → (es ≡ fs) × (p ≡ q)
  unfolding verify_from
  same_length_commits index p q a b c d [] [] free len v w = (refl, ground arith)
  same_length_commits index p q a b c d [] (f ∷ fs) free len v w = absurd (omega arith)
  same_length_commits index p q a b c d (e ∷ es) [] free len v w = absurd (omega arith)
  same_length_commits index p q a b c d (e ∷ es) (f ∷ fs) free len v w =
      let (valid_e, _, rest_e) = verify_from-eq-ok digest index p a c e es v in
      let (valid_f, _, rest_f) = verify_from-eq-ok digest index q b d f fs w in
      let fits_e = (validate_event-Fits digest e index p valid_e).1 in
      let fits_f = (validate_event-Fits digest f index q valid_f).1 in
      let (tails, hashes) =
        same_length_commits (index + 1) (some e.hash) (some f.hash) e.transaction_id
          f.transaction_id (done_then e.transaction_id a c) (done_then f.transaction_id b d) es fs
          (λ x y i j. free x y (inr i) (inr j)) (omega arith) rest_e rest_f in
      let same_hash : e.hash ≡ f.hash = ground arith in
      let same : e.unsigned ≡ f.unsigned =
        free e f (inl refl) (inl refl) (sym fits_e.sealed ∙ same_hash ∙ fits_f.sealed) in
      (
        ap₂ ◌∷◌ (event_ext e f same same_hash) tails,
        sym fits_e.linked ∙ ap (λ u. u.previous_hash) same ∙ fits_f.linked,
      )

  -- Two logs that verify with the same head hash are the same log, provided that the digest does
  -- not collide on their events.
  pub head_commits :
      (es fs : List (Event P)) {h : Option String}
      → NoCollision es fs
      → verify_audit_event_chain digest es ≡ ok h
      → verify_audit_event_chain digest fs ≡ ok h
      → es ≡ fs
  unfolding verify_audit_event_chain
  head_commits es fs free v w = elim (verify_from-Ends 0 none none [] es v) [
    | inl (empty_e, at_e) ↦ elim (verify_from-Ends 0 none none [] fs w) [
      | inl (empty_f, _) ↦ empty_e ∙ sym empty_f
      | inr (f, _, at_f, _) ↦ cc
    ]
    | inr (e, in_e, at_e, place_e) ↦ elim (verify_from-Ends 0 none none [] fs w) [
      | inl (_, at_f) ↦ cc
      | inr (f, in_f, at_f, place_f) ↦
          let same : e.unsigned ≡ f.unsigned = free e f in_e in_f (ground arith) in
          let lengths : length es ≡ length fs =
            omega (arith, place_e, place_f, ap (λ u. u.sequence) same) in
          (same_length_commits 0 none none none none [] [] es fs free lengths v w).0
    ]
  ]
