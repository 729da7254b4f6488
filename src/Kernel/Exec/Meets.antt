-- ===== src/Kernel/Exec/Meets.antt =====
-- What a computation makes of a state in which a condition holds, when it returns and when it throws.
use fdos_genesis.Prelude.{
  ◌≡◌, refl, sym, subst, Bool, true, false, Bool-cases, inl, inr, Option, none, some, List, [], ◌∷◌,
  arith,
}
use fdos_genesis.Kernel.Result.{FdosError, Result, ok, err, or_throw}
use fdos_genesis.Kernel.Exec.{
  Exec, ◌>>=◌, continue, pure, lift, reading, modify, throw_if, attempt, caught, zoom, for_each,
}

abbrev pub After :
    {S A : Type 0} → (A → S → Type 0) → (FdosError → S → Type 0) → Result A → S → Type 0
After Q E (ok a) s = Q a s
After Q E (err e) s = E e s

pub record Meets {S A : Type 0} (P : S → Type 0) (m : Exec S A) (Q : A → S → Type 0)
    (E : FdosError → S → Type 0) : Type 0 where
  pub at : (s : S) → P s → After Q E (m s).0 (m s).1

-- The condition holds afterwards, whatever happens.
abbrev pub Keeps : {S A : Type 0} → (S → Type 0) → Exec S A → Type 0
Keeps P m = Meets P m (λ _. P) (λ _. P)

module _ {S A : Type 0} (P : S → Type 0) where
  After_both : (r : Result A) (s : S) → After (λ _. P) (λ _. P) r s → P s
  After_both (ok a) s h = h
  After_both (err e) s h = h

  After-same : (r : Result A) (s : S) → P s → After (λ _. P) (λ _. P) r s
  After-same (ok a) s h = h
  After-same (err e) s h = h

module _ {S A : Type 0} {P : S → Type 0} where
  pub Keeps_at : (m : Exec S A) → Keeps P m → (s : S) → P s → P (m s).1
  Keeps_at m k s h = After_both P (m s).0 (m s).1 (k.at s h)

  pub Keeps-from : (m : Exec S A) → ((s : S) → P s → P (m s).1) → Keeps P m
  Keeps-from m k = record { at = λ s h. After-same P (m s).0 (m s).1 (k s h) }

  -- A condition that holds afterwards in either case, of a state with another one.
  pub Keeps_when :
      {P' : S → Type 0} (m : Exec S A) → ((s : S) → P' s → P (m s).1) → Meets P' m (λ _. P) (λ _. P)
  Keeps_when m k = record { at = λ s h. After-same P (m s).0 (m s).1 (k s h) }

  pub Keeps-pure : (a : A) → Keeps P (pure {S = S} a)
  Keeps-pure a = record { at = λ s h. h }

  pub Keeps-lift : (r : Result A) → Keeps P (lift {S = S} r)
  Keeps-lift r = Keeps-from (lift r) (λ s h. h)

  pub Keeps-reading : (f : S → Result A) → Keeps P (reading f)
  Keeps-reading f = Keeps-from (reading f) (λ s h. h)

module _ {S : Type 0} {P : S → Type 0} where
  pub Keeps-modify : (f : S → S) → ((s : S) → P s → P (f s)) → Keeps P (modify f)
  Keeps-modify f h = record { at = h }

  pub Keeps-throw_if : (test : S → Bool) (e : FdosError) → Keeps P (throw_if test e)
  Keeps-throw_if test e = record {
    at = λ s h. elim (Bool-cases (test s)) [
      | inl p ↦ rw (p, throw_if) h
      | inr p ↦ rw (p, throw_if) h
    ];
  }

module _ {S A : Type 0} {Q R : A → S → Type 0} {E F : FdosError → S → Type 0} where
  After-weaken :
      (r : Result A) (s : S)
      → ((a : A) (s : S) → Q a s → R a s)
      → ((e : FdosError) (s : S) → E e s → F e s)
      → After Q E r s
      → After R F r s
  After-weaken (ok a) s q e h = q a s h
  After-weaken (err x) s q e h = e x s h

  pub Meets_weaken :
      {P : S → Type 0} (m : Exec S A)
      → Meets P m Q E
      → ((a : A) (s : S) → Q a s → R a s)
      → ((e : FdosError) (s : S) → E e s → F e s)
      → Meets P m R F
  Meets_weaken m h q e = record { at = λ s p. After-weaken (m s).0 (m s).1 q e (h.at s p) }

module _ {S A : Type 0} {P P' : S → Type 0} {Q : A → S → Type 0} {E : FdosError → S → Type 0} where
  pub Meets_before : (m : Exec S A) → ((s : S) → P' s → P s) → Meets P m Q E → Meets P' m Q E
  Meets_before m p h = record { at = λ s p'. h.at s (p s p') }

module _ {S A B : Type 0} {Q : A → S → Type 0} {R : B → S → Type 0}
    {E : FdosError → S → Type 0} where
  After-continue :
      (r : Result A) (s : S) (f : A → Exec S B)
      → ((a : A) → Meets (Q a) (f a) R E)
      → After Q E r s
      → After R E (continue r f s).0 (continue r f s).1
  After-continue (ok a) s f k h = (k a).at s h
  After-continue (err e) s f k h = h

  pub Meets-bind :
      {P : S → Type 0} (m : Exec S A) (f : A → Exec S B)
      → Meets P m Q E
      → ((a : A) → Meets (Q a) (f a) R E)
      → Meets P (m >>= f) R E
  Meets-bind m f h k = record { at = λ s p. After-continue (m s).0 (m s).1 f k (h.at s p) }

pub Keeps-bind :
    {S A B : Type 0} {P : S → Type 0} (m : Exec S A) (f : A → Exec S B)
    → Keeps P m
    → ((a : A) → Keeps P (f a))
    → Keeps P (m >>= f)
Keeps-bind m f h k = Meets-bind m f h k

module _ {S A : Type 0} {Q : A → S → Type 0} {E F : FdosError → S → Type 0} where
  After-caught :
      (r : Result A) (s : S) (handler : FdosError → Exec S A)
      → ((e : FdosError) → Meets (E e) (handler e) Q F)
      → After Q E r s
      → After Q F (caught r handler s).0 (caught r handler s).1
  After-caught (ok a) s handler k h = h
  After-caught (err e) s handler k h = (k e).at s h

  pub Meets-attempt :
      {P : S → Type 0} (m : Exec S A) (handler : FdosError → Exec S A)
      → Meets P m Q E
      → ((e : FdosError) → Meets (E e) (handler e) Q F)
      → Meets P (attempt m handler) Q F
  Meets-attempt m handler h k = record {
    at = λ s p. After-caught (m s).0 (m s).1 handler k (h.at s p);
  }

module _ {S T A : Type 0} (get : S → T) (put : T → S → S) where
  After-zoom :
      (Q : A → T → Type 0) (E : FdosError → T → Type 0) (r : Result A) (t : T) (s : S)
      → get (put t s) ≡ t
      → After Q E r t
      → After (λ a s. Q a (get s)) (λ e s. E e (get s)) r (put t s)
  After-zoom Q E (ok a) t s law h = subst (Q a) (sym law) h
  After-zoom Q E (err e) t s law h = subst (E e) (sym law) h

  -- A computation on a part, of a condition on that part.
  pub Meets-zoom :
      {P : T → Type 0} {Q : A → T → Type 0} {E : FdosError → T → Type 0} (m : Exec T A)
      → ((t : T) (s : S) → get (put t s) ≡ t)
      → Meets P m Q E
      → Meets (λ s. P (get s)) (zoom get put m) (λ a s. Q a (get s)) (λ e s. E e (get s))
  Meets-zoom {Q} {E} m law h = record {
    at = λ s p. After-zoom Q E (m (get s)).0 (m (get s)).1 s (law (m (get s)).1 s) (h.at (get s) p);
  }

module _ {S A : Type 0} where
  After-reading :
      (P : S → Type 0) (f : S → Result A) (s : S) (r : Result A)
      → f s ≡ r
      → P s
      → After (λ a s. P s × (f s ≡ ok a)) (λ e s. P s × (f s ≡ err e)) r s
  After-reading P f s (ok a) q h = (h, q)
  After-reading P f s (err e) q h = (h, q)

module _ {S A : Type 0} {P : S → Type 0} where
  -- What is read is what the state has.
  pub Meets-reading :
      (f : S → Result A)
      → Meets P (reading f) (λ a s. P s × (f s ≡ ok a)) (λ e s. P s × (f s ≡ err e))
  Meets-reading f = record { at = λ s h. After-reading P f s (f s) refl h }

  pub Meets-lift :
      (r : Result A) → Meets P (lift r) (λ a s. P s × (r ≡ ok a)) (λ e s. P s × (r ≡ err e))
  Meets-lift r = record { at = λ s h. After-reading P (λ _. r) s r refl h }

  -- A throw: whatever is asked of a value.
  pub Meets-throw : {Q : A → S → Type 0} (e : FdosError) → Meets P (lift (err e)) Q (λ _. P)
  Meets-throw e = record { at = λ s h. h }

module _ {S : Type 0} {P : S → Type 0} where
  pub Meets-throw_if :
      (test : S → Bool) (e : FdosError)
      → Meets P (throw_if test e) (λ _ s. P s × (test s ≡ false)) (λ _ s. P s × (test s ≡ true))
  Meets-throw_if test e = record {
    at = λ s h. elim (Bool-cases (test s)) [
      | inl p ↦ rw (p, throw_if) (h, p)
      | inr p ↦ rw (p, throw_if) (h, p)
    ];
  }

  pub Meets-modify :
      {Q : S → Type 0} {E : FdosError → S → Type 0} (f : S → S)
      → ((s : S) → P s → Q (f s))
      → Meets P (modify f) (λ _. Q) E
  Meets-modify f h = record { at = h }

-- A step by the state's own function, whose result and new state are known.
pub Meets_step :
    {S A : Type 0} {P : S → Type 0} {Q : A → S → Type 0} {E : FdosError → S → Type 0} (m : Exec S A)
    → ((s : S) → P s → After Q E (m s).0 (m s).1)
    → Meets P m Q E
Meets_step m h = record { at = h }

-- Nothing is asked of a throw.
pub Meets_drop :
    {S A : Type 0} {P : S → Type 0} {Q : A → S → Type 0} {E : FdosError → S → Type 0} {m : Exec S A}
    → Meets P m Q E
    → Meets P m Q (λ _ _. Unit)
Meets_drop {m} h = Meets_weaken m h (λ a s q. q) (λ e s q. tt)

pub After-or_throw :
    {S A : Type 0} (Q E : S → Type 0) (s : S) (o : Option A) (e : FdosError)
    → ((a : A) → o ≡ some a → Q s)
    → (o ≡ none → E s)
    → After (λ _. Q) (λ _. E) (or_throw o e) s
After-or_throw Q E s (some a) e returns throws = returns a refl
After-or_throw Q E s none e returns throws = throws refl

module _ {S A : Type 0} where
  After-ok :
      (Q : A → S → Type 0) (E : FdosError → S → Type 0) (r : Result A) (s : S) {a : A}
      → r ≡ ok a
      → After Q E r s
      → Q a s
  After-ok Q E (ok b) s {a} p h = let same : b ≡ a = ground arith in subst (λ x. Q x s) same h
  After-ok Q E (err e) s p h = cc

  After-err :
      (Q : A → S → Type 0) (E : FdosError → S → Type 0) (r : Result A) (s : S) {e : FdosError}
      → r ≡ err e
      → After Q E r s
      → E e s
  After-err Q E (ok b) s p h = cc
  After-err Q E (err f) s {e} p h = let same : f ≡ e = ground arith in subst (λ x. E x s) same h

  module _ {P : S → Type 0} {Q : A → S → Type 0} {E : FdosError → S → Type 0} where
    pub Meets_returned :
        (m : Exec S A) → Meets P m Q E → (s : S) {a : A} → P s → (m s).0 ≡ ok a → Q a (m s).1
    Meets_returned m h s p r = After-ok Q E (m s).0 (m s).1 r (h.at s p)

    pub Meets_threw :
        (m : Exec S A)
        → Meets P m Q E
        → (s : S) {e : FdosError} → P s
        → (m s).0 ≡ err e
        → E e (m s).1
    Meets_threw m h s p r = After-err Q E (m s).0 (m s).1 r (h.at s p)

pub for_each-Keeps :
    {S A : Type 0} {P : S → Type 0} (f : A → Exec S (Unit {0})) (items : List A)
    → ((a : A) → Keeps P (f a))
    → Keeps P (for_each f items)
unfolding for_each
for_each-Keeps f [] h = Keeps-pure tt
for_each-Keeps f (a ∷ rest) h =
    Keeps-bind (f a) (λ _. for_each f rest) (h a) (λ _. for_each-Keeps f rest h)

-- A fact that no state enters stays true when the computation returns.
module _ {S A : Type 0} (C : Type 0) (Q : A → S → Type 0) (E : FdosError → S → Type 0) where
  After-also : (r : Result A) (s : S) → C → After Q E r s → After (λ a s. Q a s × C) E r s
  After-also (ok a) s c h = (h, c)
  After-also (err e) s c h = h

module _ {S A : Type 0} {P : S → Type 0} {Q : A → S → Type 0} {E : FdosError → S → Type 0} where
  pub Meets_also :
      (C : Type 0) (m : Exec S A) → Meets P m Q E → Meets (λ s. P s × C) m (λ a s. Q a s × C) E
  Meets_also C m h = record { at = λ s p. After-also C Q E (m s).0 (m s).1 p.1 (h.at s p.0) }
