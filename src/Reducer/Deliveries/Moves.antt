-- ===== src/Reducer/Deliveries/Moves.antt =====
-- The state machine of a delivery, and that each of its events is one move of the machine.
use mathlib.Core.Path.{subst₂}
use fdos_genesis.Prelude.{
  ◌&&◌, ◌is◌, sym, ℕ, ◌+◌, ◌≡◌, Bool, true, false, String, Option, arith, eq_iff, ◌⊎◌, inl, inr,
}
use fdos_genesis.Kernel.Result.{ok, integrity, >>-eq-ok, guard}
use fdos_genesis.Kernel.Validation.{Stamp}
use fdos_genesis.Kernel.EventLog.{Actor, ActorType, human, connector, system}
use fdos_genesis.Model.{
  Delivery, DeliveryStatus, prepared, claimed, simulated, uncertain, Claim, Outcome, WorkerReceipt,
  Resolution, AcceptedInvocation,
}
use fdos_genesis.Reducer.Seals.{Seals}
use fdos_genesis.Reducer.Checks.{is_human, verify_resolution}
use fdos_genesis.Reducer.Deliveries.{
  claim_delivery, record_outcome, expire_claim, authorize_retry, cancel_delivery,
  resolve_uncertainty,
}
use fdos_genesis.Reducer.Deliveries.Valid.{verify_claim-bounds}

-- The diagram: what a claimed delivery reports, what a human decides, and no way out of
-- `simulated` and `cancelled`.
infix 40 ◌⟶◌
pub data ◌⟶◌ : DeliveryStatus → DeliveryStatus → Type 0 where
  claims : prepared ⟶ claimed
  succeed : claimed ⟶ simulated
  fail : claimed ⟶ DeliveryStatus.failed
  lose : claimed ⟶ uncertain
  retry : DeliveryStatus.failed ⟶ prepared
  withdraw : prepared ⟶ DeliveryStatus.cancelled
  give_up : DeliveryStatus.failed ⟶ DeliveryStatus.cancelled
  confirm : uncertain ⟶ simulated
  refute : uncertain ⟶ DeliveryStatus.failed
  drop : uncertain ⟶ DeliveryStatus.cancelled

ruleset edges = (claims, succeed, fail, lose, retry, withdraw, give_up, confirm, refute, drop)

along : {a b : DeliveryStatus} (x y : DeliveryStatus) → x ⟶ y → a ≡ x → b ≡ y → a ⟶ b
along {a} {b} x y e p q = subst₂ ◌⟶◌ (sym p) (sym q) e

-- A claim uses one attempt up.
abbrev pub attempts_used : DeliveryStatus → ℕ
attempts_used claimed = 1
attempts_used _ = 0

-- Who makes which move: the connector claims and reports, the runtime may find that a claim has
-- expired, and all that decides over a failure or an uncertain outcome is up to a human.
abbrev pub may_move : ActorType → DeliveryStatus → DeliveryStatus → Bool
may_move connector prepared claimed = true
may_move connector claimed simulated = true
may_move connector claimed DeliveryStatus.failed = true
may_move connector claimed uncertain = true
may_move system claimed uncertain = true
may_move human DeliveryStatus.failed prepared = true
may_move human prepared DeliveryStatus.cancelled = true
may_move human DeliveryStatus.failed DeliveryStatus.cancelled = true
may_move human uncertain simulated = true
may_move human uncertain DeliveryStatus.failed = true
may_move human uncertain DeliveryStatus.cancelled = true
may_move _ _ _ = false

-- One move by an actor, and what it leaves alone.
pub record Moves (actor : Actor) (d d' : Delivery) : Type 0 where
  pub edge : d.status ⟶ d'.status
  pub permitted : may_move actor.type d.status d'.status ≡ true
  pub counted : d'.attempt ≡ d.attempt + attempts_used d'.status
  pub same_id : d'.id ≡ d.id
  pub same_intent : d'.intent ≡ d.intent
  pub same_budget : d'.max_attempts ≡ d.max_attempts
  pub same_creation : d'.created_at ≡ d.created_at

pub claim_delivery-Moves :
    (subject : String) (actor : Actor) (claim : Claim) (d : Delivery) {d' : Delivery}
    → claim_delivery subject actor claim d ≡ ok d'
    → Moves actor d d'
unfolding claim_delivery
claim_delivery-Moves subject actor claim d {d'} e = record {
  edge = grind (arith, edges);
  permitted = ground arith;
  counted = ground (arith, verify_claim-bounds claim d actor);
  same_id = ground arith;
  same_intent = ground arith;
  same_budget = ground arith;
  same_creation = ground arith;
}

pub record_outcome-Moves :
    (seals : Seals) (subject : String) (actor : Actor) (invocation : Option AcceptedInvocation)
    (claim_id : String) (raw : Outcome) (receipt : Option WorkerReceipt) (d : Delivery)
    {d' : Delivery}
    → record_outcome seals subject actor invocation claim_id raw receipt d ≡ ok d'
    → Moves actor d d'
unfolding record_outcome
record_outcome-Moves seals subject actor invocation claim_id raw receipt d {d'} e = record {
  edge = grind (arith, edges);
  permitted = ground arith;
  counted = ground arith;
  same_id = ground arith;
  same_intent = ground arith;
  same_budget = ground arith;
  same_creation = ground arith;
}

pub expire_claim-Moves :
    (subject : String) (actor : Actor) (claim_id : String) (detected expired : Stamp)
    (raw : Outcome) (d : Delivery) {d' : Delivery}
    → expire_claim subject actor claim_id detected expired raw d ≡ ok d'
    → Moves actor d d'
unfolding expire_claim
expire_claim-Moves subject actor claim_id detected expired raw d {d'} e = record {
  edge = along claimed uncertain lose (ground arith) (ground arith);
  permitted = ground arith;
  counted = ground arith;
  same_id = ground arith;
  same_intent = ground arith;
  same_budget = ground arith;
  same_creation = ground arith;
}

pub authorize_retry-Moves :
    (subject : String) (actor : Actor) (by reason : String) (at : Stamp) (d : Delivery)
    {d' : Delivery}
    → authorize_retry subject actor by reason at d ≡ ok d'
    → Moves actor d d'
unfolding authorize_retry
authorize_retry-Moves subject actor by reason at d {d'} e = record {
  edge = along DeliveryStatus.failed prepared retry (ground arith) (ground arith);
  permitted = ground arith;
  counted = ground arith;
  same_id = ground arith;
  same_intent = ground arith;
  same_budget = ground arith;
  same_creation = ground arith;
}

pub cancel_delivery-Moves :
    (subject : String) (actor : Actor) (by reason : String) (at : Stamp) (d : Delivery)
    {d' : Delivery}
    → cancel_delivery subject actor by reason at d ≡ ok d'
    → Moves actor d d'
unfolding cancel_delivery
cancel_delivery-Moves subject actor by reason at d {d'} e =
    let from : (d.status ≡ prepared) ⊎ (d.status ≡ DeliveryStatus.failed) = ground arith in
    let to : d'.status ≡ DeliveryStatus.cancelled = ground arith in
    record {
      edge = elim from [
        | inl p ↦ along prepared DeliveryStatus.cancelled withdraw p to
        | inr p ↦ along DeliveryStatus.failed DeliveryStatus.cancelled give_up p to
      ];
      permitted = ground arith;
      counted = ground arith;
      same_id = ground arith;
      same_intent = ground arith;
      same_budget = ground arith;
      same_creation = ground arith;
    }

verify_resolution-Human :
    (r : Resolution) (actor : Actor)
    → verify_resolution r actor ≡ ok tt
    → (actor.type ≡ human) × (r.resolved_by ≡ actor.id)
unfolding verify_resolution
verify_resolution-Human r actor h =
    let ((_, g), _) =
      >>-eq-ok (guard (r.resolved_by is actor.id && is_human actor.type) integrity) _ h in
    (ground arith, ground (arith, eq_iff r.resolved_by actor.id))

pub resolve_uncertainty-Moves :
    (subject : String) (actor : Actor) (resolution : Resolution) (d : Delivery) {d' : Delivery}
    → resolve_uncertainty subject actor resolution d ≡ ok d'
    → Moves actor d d'
unfolding resolve_uncertainty
resolve_uncertainty-Moves subject actor resolution d {d'} e =
    let by = verify_resolution-Human resolution actor in
    record {
      edge = grind (arith, edges);
      permitted = ground arith;
      counted = ground arith;
      same_id = ground arith;
      same_intent = ground arith;
      same_budget = ground arith;
      same_creation = ground arith;
    }
