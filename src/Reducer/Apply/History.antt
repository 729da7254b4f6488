-- ===== src/Reducer/Apply/History.antt =====
-- What the moves of a delivery never change, however many of them follow each other.
use fdos_genesis.Prelude.{
  ◌≤◌, ◌≡◌, refl, sym, subst, ◌∙◌, inl, inr, Bool, true, false, Option, none, some, arith,
}
use fdos_genesis.Kernel.EventLog.{Actor}
use fdos_genesis.Model.{Delivery, DeliveryStatus, simulated}
use fdos_genesis.Reducer.Deliveries.Moves.{
  Moves, ◌⟶◌, claims, succeed, fail, lose, retry, withdraw, give_up, confirm, refute, drop,
}
use fdos_genesis.Reducer.Apply.Outbox.{Evolves}

abbrev pub is_settled : DeliveryStatus → Bool
is_settled simulated = true
is_settled DeliveryStatus.cancelled = true
is_settled _ = false

-- What lasts of a delivery, whatever happens after it.
pub record Since (d d' : Delivery) : Type 0 where
  pub same_id : d'.id ≡ d.id
  pub same_intent : d'.intent ≡ d.intent
  pub same_budget : d'.max_attempts ≡ d.max_attempts
  pub same_creation : d'.created_at ≡ d.created_at
  pub attempts_grow : d.attempt ≤ d'.attempt
  pub settled : is_settled d.status ≡ true → d' ≡ d

abbrev pub Lasts : Option Delivery → Option Delivery → Type 0
Lasts none o = Unit
Lasts (some d) none = ⊥
Lasts (some d) (some d') = Since d d'

pub Since-refl : (d : Delivery) → Since d d
Since-refl d = record {
  same_id = refl;
  same_intent = refl;
  same_budget = refl;
  same_creation = refl;
  attempts_grow = ground arith;
  settled = λ _. refl;
}

Since-trans : (a b c : Delivery) → Since a b → Since b c → Since a c
Since-trans a b c p q = record {
  same_id = q.same_id ∙ p.same_id;
  same_intent = q.same_intent ∙ p.same_intent;
  same_budget = q.same_budget ∙ p.same_budget;
  same_creation = q.same_creation ∙ p.same_creation;
  attempts_grow = omega (arith, p.attempts_grow, q.attempts_grow);
  settled = λ e.
      let same : b ≡ a = p.settled e in
      q.settled (subst (λ d. is_settled d.status ≡ true) (sym same) e) ∙ same;
}

-- No edge of the diagram starts at a settled status.
leaves_open : {a b : DeliveryStatus} → a ⟶ b → is_settled a ≡ false
leaves_open claims = refl
leaves_open succeed = refl
leaves_open fail = refl
leaves_open lose = refl
leaves_open retry = refl
leaves_open withdraw = refl
leaves_open give_up = refl
leaves_open confirm = refl
leaves_open refute = refl
leaves_open drop = refl

Moves-Since : (actor : Actor) (d d' : Delivery) → Moves actor d d' → Since d d'
Moves-Since actor d d' m = record {
  same_id = m.same_id;
  same_intent = m.same_intent;
  same_budget = m.same_budget;
  same_creation = m.same_creation;
  attempts_grow = let counted = m.counted in omega arith;
  settled = λ e. let open_status = leaves_open m.edge in ground arith;
}

pub Lasts-refl : (o : Option Delivery) → Lasts o o
Lasts-refl none = tt
Lasts-refl (some d) = Since-refl d

pub Lasts-trans : (a b c : Option Delivery) → Lasts a b → Lasts b c → Lasts a c
Lasts-trans none b c p q = tt
Lasts-trans (some a) none c p q = elim p [ ]
Lasts-trans (some a) (some b) none p q = elim q [ ]
Lasts-trans (some a) (some b) (some c) p q = Since-trans a b c p q

pub Evolves-Lasts : (actor : Actor) (a b : Option Delivery) → Evolves actor a b → Lasts a b
Evolves-Lasts actor none b p = tt
Evolves-Lasts actor (some a) none p = elim p [ ]
Evolves-Lasts actor (some a) (some b) (inl same) = subst (Since a) same (Since-refl a)
Evolves-Lasts actor (some a) (some b) (inr m) = Moves-Since actor a b m
