-- ===== src/Reducer/Apply/Outbox.antt =====
-- What an event does to the outbox: at most one delivery changes, by one move of its machine, or a
-- new one is prepared; and every delivery stays valid.
use fdos_genesis.Prelude.{
  ◌≡◌, refl, sym, ap, subst, ◌⊎◌, inl, inr, true, false, String, Option, none, some, arith, eq_iff,
  ◌is◌, any, Bool-cases,
}
use fdos_genesis.Kernel.Result.{Result, ok, err}
use fdos_genesis.Kernel.Exec.{Exec}
use fdos_genesis.Kernel.Exec.Leaves.{Leaves, Leaves-part}
use fdos_genesis.Kernel.JsMap.{JsMap, AllValues, AllValues-get, AllValues-set, get-set}
use fdos_genesis.Kernel.JsMap
use fdos_genesis.Kernel.EventLog.{Actor}
use fdos_genesis.Model.{State, Delivery, Task, AcceptedInvocation}
use fdos_genesis.Reducer.Seals.{Seals}
use fdos_genesis.Reducer.Checks.{is_fresh, verify_prepared_delivery}
use fdos_genesis.Reducer.Deliveries.Valid.{IsValid, is_fresh-IsValid}
use fdos_genesis.Reducer.Deliveries.Moves.{Moves}
use fdos_genesis.Reducer.Store.{update_delivery, write_delivery, at_delivery}
use fdos_genesis.Reducer.Apply.Bindings.{IsBound, replaced-IsBound, added-IsBound}
use fdos_genesis.Reducer.Outbox.{prepare_delivery, same_binding}
use fdos_genesis.Reducer.Apply.Frames.{outbox, rest}

-- What may become of the entry of a delivery in one event by an actor.
abbrev pub Evolves : Actor → Option Delivery → Option Delivery → Type 0
Evolves actor none none = Unit
Evolves actor none (some d) = is_fresh d ≡ true
Evolves actor (some d) none = ⊥
Evolves actor (some d) (some d') = (d ≡ d') ⊎ Moves actor d d'

pub Evolves-refl : (actor : Actor) (o : Option Delivery) → Evolves actor o o
Evolves-refl actor none = tt
Evolves-refl actor (some d) = inl refl

-- An invocation that is accepted stays as it was accepted.
abbrev pub Recalls : State → State → Type 0
Recalls s s' =
    (id : String) (a : AcceptedInvocation)
    → JsMap.get id s.accepted_invocations ≡ some a
    → JsMap.get id s'.accepted_invocations ≡ some a

-- A step that keeps every delivery valid and moves each by at most one move.
pub record Orderly (actor : Actor) (m : Exec State Unit) : Type 0 where
  pub moves :
      (s : State) (id : String)
      → Evolves actor (JsMap.get id s.outbox) (JsMap.get id (m s).1.outbox)
  pub valid : (s : State) → AllValues IsValid s.outbox → AllValues IsValid (m s).1.outbox
  pub bound : (s : State) → IsBound s.outbox → IsBound (m s).1.outbox
  pub recalls : (s : State) → Recalls s (m s).1

pub outbox-Orderly :
    (actor : Actor) (m : Exec State Unit)
    → Leaves outbox m
    → ((s : State) → Recalls s (m s).1)
    → Orderly actor m
outbox-Orderly actor m h r = record {
  moves = λ s id.
      subst (λ o. Evolves actor (JsMap.get id s.outbox) (JsMap.get id o)) (sym (h.at s))
        (Evolves-refl actor _);
  valid = λ s v. subst (AllValues IsValid) (sym (h.at s)) v;
  bound = λ s b. subst IsBound (sym (h.at s)) b;
  recalls = r;
}

pub Leaves-Orderly : (actor : Actor) (m : Exec State Unit) → Leaves rest m → Orderly actor m
Leaves-Orderly actor m h =
    outbox-Orderly actor m (Leaves-part (λ x. x.0) m h)
      (λ s id a found. subst (λ o. JsMap.get id o ≡ some a) (sym (ap (λ x. x.1) (h.at s))) found)

write_delivery-Moves :
    (actor : Actor) (id j : String) (s : State) (d : Delivery) (r : Result Delivery)
    → JsMap.get id s.outbox ≡ some d
    → ((d' : Delivery) → r ≡ ok d' → Moves actor d d')
    → Evolves actor (JsMap.get j s.outbox) (JsMap.get j (write_delivery id s r).1.outbox)
write_delivery-Moves actor id j s d (err e) found h = Evolves-refl actor _
write_delivery-Moves actor id j s d (ok d') found h =
    rw (get-set id j d' s.outbox) (elim (Bool-cases (id is j)) [
      | inl here ↦
          let same : id ≡ j = ground (arith, eq_iff id j) in
          let at_j : JsMap.get j s.outbox ≡ some d =
            subst (λ k. JsMap.get k s.outbox ≡ some d) same found in
          rw (here, at_j) (inr (h d' refl))
      | inr there ↦ rw there (Evolves-refl actor _)
    ])

write_delivery-IsValid :
    (id : String) (s : State) (d : Delivery) (r : Result Delivery)
    → JsMap.get id s.outbox ≡ some d
    → ((d' : Delivery) → r ≡ ok d' → IsValid d → IsValid d')
    → AllValues IsValid s.outbox
    → AllValues IsValid (write_delivery id s r).1.outbox
write_delivery-IsValid id s d (err e) found h v = v
write_delivery-IsValid id s d (ok d') found h v =
    AllValues-set IsValid id d' s.outbox v (h d' refl (AllValues-get IsValid id s.outbox v found))

write_delivery-IsBound :
    (actor : Actor) (id : String) (s : State) (d : Delivery) (r : Result Delivery)
    → JsMap.get id s.outbox ≡ some d
    → ((d' : Delivery) → r ≡ ok d' → Moves actor d d')
    → IsBound s.outbox
    → IsBound (write_delivery id s r).1.outbox
write_delivery-IsBound actor id s d (err e) found h b = b
write_delivery-IsBound actor id s d (ok d') found h b =
    replaced-IsBound id d d' s.outbox found (h d' refl) b

write_delivery-Recalls :
    (id : String) (s : State) (r : Result Delivery) → Recalls s (write_delivery id s r).1
write_delivery-Recalls id s (err e) j a found = found
write_delivery-Recalls id s (ok d) j a found = found

module _ (actor : Actor) (id : String) (f : Delivery → Result Delivery)
    (moves : (d d' : Delivery) → f d ≡ ok d' → Moves actor d d')
    (valid : (d d' : Delivery) → f d ≡ ok d' → IsValid d → IsValid d') where
  at_delivery-Moves :
      (s : State) (j : String) (o : Option Delivery)
      → JsMap.get id s.outbox ≡ o
      → Evolves actor (JsMap.get j s.outbox) (JsMap.get j (at_delivery id f s o).1.outbox)
  at_delivery-Moves s j none e = Evolves-refl actor _
  at_delivery-Moves s j (some d) e = write_delivery-Moves actor id j s d (f d) e (moves d)

  at_delivery-IsValid :
      (s : State) (o : Option Delivery)
      → JsMap.get id s.outbox ≡ o
      → AllValues IsValid s.outbox
      → AllValues IsValid (at_delivery id f s o).1.outbox
  at_delivery-IsValid s none e v = v
  at_delivery-IsValid s (some d) e v = write_delivery-IsValid id s d (f d) e (valid d) v

  at_delivery-IsBound :
      (s : State) (o : Option Delivery)
      → JsMap.get id s.outbox ≡ o
      → IsBound s.outbox
      → IsBound (at_delivery id f s o).1.outbox
  at_delivery-IsBound s none e b = b
  at_delivery-IsBound s (some d) e b = write_delivery-IsBound actor id s d (f d) e (moves d) b

  at_delivery-Recalls : (s : State) (o : Option Delivery) → Recalls s (at_delivery id f s o).1
  at_delivery-Recalls s none j a found = found
  at_delivery-Recalls s (some d) j a found = write_delivery-Recalls id s (f d) j a found

  pub update_delivery-Orderly : Orderly actor (update_delivery id f)
  unfolding update_delivery
  update_delivery-Orderly = record {
    moves = λ s j. at_delivery-Moves s j (JsMap.get id s.outbox) refl;
    valid = λ s v. at_delivery-IsValid s (JsMap.get id s.outbox) refl v;
    bound = λ s b. at_delivery-IsBound s (JsMap.get id s.outbox) refl b;
    recalls = λ s. at_delivery-Recalls s (JsMap.get id s.outbox);
  }

-- What a successful preparation shows.
verify_prepared-fresh :
    (seals : Seals) (tasks : JsMap Task) (subject : String) (actor : Actor) (d : Delivery)
    → verify_prepared_delivery seals tasks subject actor d ≡ ok tt
    → is_fresh d ≡ true
unfolding verify_prepared_delivery
verify_prepared-fresh seals tasks subject actor d e = ground arith

module _ (seals : Seals) (subject : String) (actor : Actor) (d : Delivery) where
  -- The outbox after a preparation: as it was, or with the new delivery behind it.
  pub prepare_delivery-cases :
      (s : State)
      → ((prepare_delivery seals subject actor d s).1.outbox ≡ s.outbox)
        ⊎ (((prepare_delivery seals subject actor d s).1.outbox ≡ JsMap.set d.id d s.outbox)
            × (is_fresh d ≡ true)
            × (JsMap.get d.id s.outbox ≡ none)
            × (any (same_binding d) (JsMap.values s.outbox) ≡ false))
  unfolding prepare_delivery
  prepare_delivery-cases s = ground (arith, verify_prepared-fresh seals s.tasks subject actor d)

  prepare_delivery-recalls :
      (s : State)
      → (prepare_delivery seals subject actor d s).1.accepted_invocations ≡ s.accepted_invocations
  unfolding prepare_delivery
  prepare_delivery-recalls s = ground arith

  pub prepare_delivery-Orderly : Orderly actor (prepare_delivery seals subject actor d)
  prepare_delivery-Orderly = record {
    moves = λ s j. elim (prepare_delivery-cases s) [
      | inl same ↦
          subst (λ o. Evolves actor (JsMap.get j s.outbox) (JsMap.get j o)) (sym same)
            (Evolves-refl actor _)
      | inr (new, fresh, free, _) ↦
          subst (λ o. Evolves actor (JsMap.get j s.outbox) (JsMap.get j o)) (sym new)
            (rw (get-set d.id j d s.outbox) (elim (Bool-cases (d.id is j)) [
              | inl here ↦
                  let same : d.id ≡ j = ground (arith, eq_iff d.id j) in
                  rw (here, subst (λ k. JsMap.get k s.outbox ≡ none) same free) fresh
              | inr there ↦ rw there (Evolves-refl actor _)
            ]))
    ];
    valid = λ s v. elim (prepare_delivery-cases s) [
      | inl same ↦ subst (AllValues IsValid) (sym same) v
      | inr (new, fresh, free, _) ↦
          subst (AllValues IsValid) (sym new)
            (AllValues-set IsValid d.id d s.outbox v (is_fresh-IsValid d fresh))
    ];
    bound = λ s b. elim (prepare_delivery-cases s) [
      | inl same ↦ subst IsBound (sym same) b
      | inr (new, fresh, free, other) ↦ subst IsBound (sym new) (added-IsBound d s.outbox other b)
    ];
    recalls = λ s id a found.
        subst (λ o. JsMap.get id o ≡ some a) (sym (prepare_delivery-recalls s)) found;
  }
