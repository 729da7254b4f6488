-- ===== src/Kernel/EventLog/Events.antt =====
-- `validateEvent` and one round of the loop of `verifyAuditEventChain`, taken apart.
use fdos_genesis.Prelude.{
  ℕ, ◌+◌, ◌≡◌, true, String, Option, some, List, ◌∷◌, arith, eq_iff, same_option_iff,
}
use fdos_genesis.Kernel.Result.{ok, >>=-eq-ok}
use fdos_genesis.Kernel.EventLog.{Event, Unsigned, validate_event, verify_from, joins, done_then}

module _ {P : Type 0} (digest : Unsigned P → String) where
  -- What a valid event says of its place in the list.
  pub record Fits (event : Event P) (index : ℕ) (previous : Option String) : Type 0 where
    pub placed : event.sequence ≡ index + 1
    pub linked : event.previous_hash ≡ previous
    pub sealed : event.hash ≡ digest event.unsigned

  pub validate_event-Fits :
      (event : Event P) (index : ℕ) (previous : Option String) {h : String}
      → validate_event digest event index previous ≡ ok h
      → (h ≡ event.hash) × Fits event index previous
  unfolding validate_event
  validate_event-Fits event index previous e = ground (
    arith,
    same_option_iff event.previous_hash previous,
    eq_iff event.hash (digest event.unsigned),
  )

  pub verify_from-eq-ok :
      (index : ℕ) (previous active : Option String) (done : List String) (event : Event P)
      (events : List (Event P)) {h : Option String}
      → verify_from digest index previous active done (event ∷ events) ≡ ok h
      → (validate_event digest event index previous ≡ ok event.hash)
        × (joins event.transaction_id active done ≡ true)
        × (verify_from digest
              (index + 1)
              (some event.hash)
              event.transaction_id
              (done_then event.transaction_id active done)
              events
            ≡ ok h)
  unfolding verify_from
  verify_from-eq-ok index previous active done event events e =
      let (hash, valid, rest) = >>=-eq-ok (validate_event digest event index previous) _ e in
      let same = (validate_event-Fits event index previous valid).0 in ground arith

  pub verify_from-cons :
      (index : ℕ) (previous active : Option String) (done : List String) (event : Event P)
      (events : List (Event P))
      → validate_event digest event index previous ≡ ok event.hash
      → joins event.transaction_id active done ≡ true
      → verify_from digest index previous active done (event ∷ events)
        ≡ verify_from digest
            (index + 1)
            (some event.hash)
            event.transaction_id
            (done_then event.transaction_id active done)
            events
  unfolding verify_from
  verify_from-cons index previous active done event events valid test = rw (valid, test)
