-- ===== src/Reducer/Deliveries/Authority.antt =====
-- Who may move a delivery: what each event of the outbox shows of its actor when it is accepted.
use fdos_genesis.Prelude.{◌≡◌, ap, ◌∙◌, false, not, ◌&&◌, String, Option, some, arith, eq_iff, ◌is◌}
use fdos_genesis.Kernel.Result.{
  ok, integrity, type_error, guard, or_throw, >>=-eq-ok, >>-eq-ok, or_throw-eq-ok,
}
use fdos_genesis.Kernel.Validation.{date_parse}
use fdos_genesis.Kernel.EventLog.{Actor, connector}
use fdos_genesis.Domain.Delivery.{verify_delivery_outcome}
use fdos_genesis.Model.{
  Delivery, DeliveryStatus, claimed, Claim, Outcome, WorkerReceipt, AcceptedInvocation,
}
use fdos_genesis.Reducer.Seals.{Seals}
use fdos_genesis.Reducer.Checks.{same_status, is_connector, parsed_after}
use fdos_genesis.Reducer.Deliveries.{
  outcome_status, outcome_operation, bind_receipt, record_outcome,
}

-- An outcome that is recorded ends the claim it names, which the connector that reports it holds
-- and which has not expired, and is the command of an accepted invocation of the right operation.
pub record Reported (seals : Seals) (actor : Actor) (invocation : Option AcceptedInvocation)
    (claim_id : String) (receipt : Option WorkerReceipt) (d d' : Delivery) : Type 0 where
  pub from_claimed : d.status ≡ claimed
  pub by_connector : actor.type ≡ connector
  pub claim : Claim
  pub held : d.claim ≡ some claim
  pub named : claim_id ≡ claim.id
  pub holder : actor.id ≡ claim.connector_id
  pub accepted : AcceptedInvocation
  pub attributed : invocation ≡ some accepted
  pub right_operation : accepted.operation ≡ outcome_operation receipt
  pub outcome : Outcome
  pub stored : d'.last_outcome ≡ some outcome
  pub becomes : d'.status ≡ outcome_status outcome.type
  pub signed : outcome.recorded_by ≡ actor.id
  pub in_time : parsed_after (date_parse outcome.recorded_at) (date_parse claim.expires_at) ≡ false
  pub commanded :
      seals.command_digest (record {
        delivery_id = d.id;
        claim_id = claim_id;
        outcome = outcome.type;
        evidence = outcome.evidence;
        worker_receipt = receipt;
      })
      ≡ ok accepted.command_digest

module _ (seals : Seals) (subject : String) (actor : Actor) (invocation : Option AcceptedInvocation)
    (claim_id : String) (raw : Outcome) (receipt : Option WorkerReceipt) (d : Delivery) where
  -- A connector's report that is recorded ends a claim that is named by its identifier and held
  -- by that connector, signed by it no later than the claim's expiry; the invocation that the
  -- event is attributed to is accepted for the operation of such reports, with or without a worker
  -- receipt, and its command is the outcome that is stored.
  pub record_outcome-Reported :
      {d' : Delivery}
      → record_outcome seals subject actor invocation claim_id raw receipt d ≡ ok d'
      → Reported seals actor invocation claim_id receipt d d'
  unfolding record_outcome
  record_outcome-Reported {d'} h =
      let ((_, g), h₁) =
        >>-eq-ok
          (guard
            (subject is d.id
              && same_status d.status DeliveryStatus.claimed
              && is_connector actor.type)
            integrity)
          _ h in
      let (claim, at_claim, h₂) = >>=-eq-ok (or_throw d.claim type_error) _ h₁ in
      let ((_, g₃), h₃) = >>-eq-ok (guard (claim_id is claim.id) integrity) _ h₂ in
      let (accepted, at_accepted, h₄) = >>=-eq-ok (or_throw invocation integrity) _ h₃ in
      let ((_, g₅), h₅) =
        >>-eq-ok (guard (accepted.operation is outcome_operation receipt) integrity) _ h₄ in
      let (outcome, at_outcome, h₆) = >>=-eq-ok (verify_delivery_outcome raw) _ h₅ in
      let (digest, at_digest, h₇) =
        >>=-eq-ok
          (seals.command_digest (record {
            delivery_id = d.id;
            claim_id = claim_id;
            outcome = outcome.type;
            evidence = outcome.evidence;
            worker_receipt = receipt;
          }))
          _ h₆ in
      let ((_, g₈), h₈) =
        >>-eq-ok
          (guard
            (outcome.recorded_by is actor.id
              && actor.id is claim.connector_id
              && digest is accepted.command_digest
              && not (parsed_after (date_parse outcome.recorded_at) (date_parse claim.expires_at)))
            integrity)
          _ h₇ in
      let (bound, at_bound, h₉) = >>=-eq-ok (bind_receipt seals receipt d claim outcome) _ h₈ in
      let same : digest ≡ accepted.command_digest =
        ground (arith, eq_iff digest accepted.command_digest) in
      record {
        from_claimed = ground arith;
        by_connector = ground arith;
        claim = claim;
        held = or_throw-eq-ok d.claim type_error at_claim;
        named = ground (arith, eq_iff claim_id claim.id);
        holder = ground (arith, eq_iff actor.id claim.connector_id);
        accepted = accepted;
        attributed = or_throw-eq-ok invocation integrity at_accepted;
        right_operation = ground (arith, eq_iff accepted.operation (outcome_operation receipt));
        outcome = outcome;
        stored = ground arith;
        becomes = ground arith;
        signed = ground (arith, eq_iff outcome.recorded_by actor.id);
        in_time = ground arith;
        commanded = at_digest ∙ ap ok same;
      }
