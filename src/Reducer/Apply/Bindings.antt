-- ===== src/Reducer/Apply/Bindings.antt =====
-- The keys of the outbox: a delivery is stored under its own id, and no two have the same
-- idempotency binding.
use fdos_genesis.Prelude.{
  ◌≡◌, refl, sym, ap, ◌∙◌, inl, inr, false, String, Option, none, some, [], ◌∷◌, arith, eq_iff,
  ◌is◌, any, Bool-cases,
}
use fdos_genesis.Kernel.JsMap.{JsMap, get-set}
use fdos_genesis.Kernel.JsMap
use fdos_genesis.Kernel.EventLog.{Actor}
use fdos_genesis.Model.{Delivery}
use fdos_genesis.Reducer.Deliveries.Moves.{Moves}
use fdos_genesis.Reducer.Outbox.{same_binding}

pub record IsBound (o : JsMap Delivery) : Type 0 where
  pub filed : (i : String) (d : Delivery) → JsMap.get i o ≡ some d → d.id ≡ i
  pub unique :
      (i j : String) (d e : Delivery)
      → JsMap.get i o ≡ some d
      → JsMap.get j o ≡ some e
      → d.intent.idempotency_digest ≡ e.intent.idempotency_digest
      → i ≡ j

pub IsBound-[] : IsBound []
unfolding JsMap.get
IsBound-[] = record { filed = λ i d e. cc; unique = λ i j d d' e e' same. cc }

-- An entry with the id and the binding of the one before it.
abbrev Traced : Option Delivery → Delivery → Type 0
Traced none e = ⊥
Traced (some d) e = (e.id ≡ d.id) × (e.intent.idempotency_digest ≡ d.intent.idempotency_digest)

-- A delivery that replaces one with the same id and binding.
module _ (id : String) (d d' : Delivery) (o : JsMap Delivery) (found : JsMap.get id o ≡ some d)
    {actor : Actor} (m : Moves actor d d') where
  traced :
      (i : String) (e : Delivery)
      → JsMap.get i (JsMap.set id d' o) ≡ some e
      → Traced (JsMap.get i o) e
  traced i e p = elim (Bool-cases (id is i)) [
    | inl here ↦
        let same : id ≡ i = ground (arith, eq_iff id i) in
        let is_new : d' ≡ e = ground (arith, rw (get-set id i d' o, here) at p) in
        rw (sym same, found, sym is_new) (m.same_id, ap (λ x. x.idempotency_digest) m.same_intent)
    | inr there ↦
        let old : JsMap.get i o ≡ some e = rw (get-set id i d' o, there) at p in rw old (refl, refl)
  ]

  from_Traced :
      (i j : String) (x y : Option Delivery) (e f : Delivery)
      → IsBound o
      → JsMap.get i o ≡ x
      → JsMap.get j o ≡ y
      → Traced x e
      → Traced y f
      → (e.id ≡ i) × (e.intent.idempotency_digest ≡ f.intent.idempotency_digest → i ≡ j)
  from_Traced i j none y e f b p q t u = elim t [ ]
  from_Traced i j (some x) none e f b p q t u = elim u [ ]
  from_Traced i j (some x) (some y) e f b p q t u =
      (t.0 ∙ b.filed i x p, λ same. b.unique i j x y p q (sym t.1 ∙ same ∙ u.1))

  pub replaced-IsBound : IsBound o → IsBound (JsMap.set id d' o)
  replaced-IsBound b = record {
    filed = λ i e p. (from_Traced i i _ _ e e b refl refl (traced i e p) (traced i e p)).0;
    unique = λ i j e f p q. (from_Traced i j _ _ e f b refl refl (traced i e p) (traced j f q)).1;
  }

-- A new delivery whose key and binding no other has.
any-false :
    (i : String) (d e : Delivery) (o : JsMap Delivery)
    → any (same_binding d) (JsMap.values o) ≡ false
    → JsMap.get i o ≡ some e
    → (d.intent.idempotency_digest ≡ e.intent.idempotency_digest)
    → ⊥
unfolding JsMap.get
any-false i d e [] h p same = cc
any-false i d e ((j, f) ∷ o) h p same =
    ground
      (arith, any-false i d e o, eq_iff f.intent.idempotency_digest d.intent.idempotency_digest)

pub added-IsBound :
    (d : Delivery) (o : JsMap Delivery)
    → any (same_binding d) (JsMap.values o) ≡ false
    → IsBound o
    → IsBound (JsMap.set d.id d o)
added-IsBound d o h b = record {
  filed = λ i e p. ground (arith, get-set d.id i d o, eq_iff d.id i, b.filed i e);
  unique = λ i j e f p q same. ground (
    arith,
    get-set d.id i d o,
    get-set d.id j d o,
    eq_iff d.id i,
    eq_iff d.id j,
    b.unique i j e f,
    any-false i d e o h,
    any-false j d f o h,
  );
}
