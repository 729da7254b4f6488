-- ===== src/Kernel/Exec/Leaves.antt =====
-- A step that leaves a part of the state alone, whether it returns or throws.
use fdos_genesis.Prelude.{
  ◌≡◌, refl, ap, ◌∙◌, Bool, true, false, Bool-cases, inl, inr, if◌then◌else◌,
}
use fdos_genesis.Kernel.Result.{FdosError, Result, ok, err}
use fdos_genesis.Kernel.Exec.{
  Exec, ◌>>=◌, continue, pure, lift, reading, modify, throw_if, attempt, caught,
}

pub record Leaves {S A X : Type 0} (part : S → X) (m : Exec S A) : Type 0 where
  pub at : (s : S) → part (m s).1 ≡ part s

module _ {S A X : Type 0} {part : S → X} where
  pub Leaves-pure : (a : A) → Leaves part (pure {S = S} a)
  Leaves-pure a = record { at = λ s. refl }

  pub Leaves-reading : (f : S → Result A) → Leaves part (reading f)
  Leaves-reading f = record { at = λ s. refl }

module _ {S X : Type 0} {part : S → X} where
  pub Leaves-throw_if : (test : S → Bool) (e : FdosError) → Leaves part (throw_if test e)
  Leaves-throw_if test e = record {
    at = λ s. elim (Bool-cases (test s)) [
      | inl p ↦ rw (p, throw_if) refl
      | inr p ↦ rw (p, throw_if) refl
    ];
  }

module _ {S A B X : Type 0} {part : S → X} where
  rest-Leaves :
      (s : S) (r : Result A) (s' : S) (f : A → Exec S B)
      → ((a : A) → Leaves part (f a))
      → part s' ≡ part s
      → part (continue r f s').1 ≡ part s
  rest-Leaves s (ok a) s' f k q = (k a).at s' ∙ q
  rest-Leaves s (err e) s' f k q = q

  pub Leaves-bind :
      (m : Exec S A) (f : A → Exec S B)
      → Leaves part m
      → ((a : A) → Leaves part (f a))
      → Leaves part (m >>= f)
  Leaves-bind m f h k = record { at = λ s. rest-Leaves s (m s).0 (m s).1 f k (h.at s) }

-- A part of a part.
pub Leaves-part :
    {S A X Y : Type 0} {part : S → X} (f : X → Y) (m : Exec S A)
    → Leaves part m
    → Leaves (λ s. f (part s)) m
Leaves-part f m h = record { at = λ s. ap f (h.at s) }

module _ {S A X : Type 0} {part : S → X} where
  pub Leaves-lift : (r : Result A) → Leaves part (lift {S = S} r)
  Leaves-lift r = record { at = λ s. refl }

  caught-Leaves :
      (s : S) (r : Result A) (s' : S) (handler : FdosError → Exec S A)
      → ((e : FdosError) → Leaves part (handler e))
      → part s' ≡ part s
      → part (caught r handler s').1 ≡ part s
  caught-Leaves s (ok a) s' handler k q = q
  caught-Leaves s (err e) s' handler k q = (k e).at s' ∙ q

  pub Leaves-attempt :
      (m : Exec S A) (handler : FdosError → Exec S A)
      → Leaves part m
      → ((e : FdosError) → Leaves part (handler e))
      → Leaves part (attempt m handler)
  Leaves-attempt m handler h k = record {
    at = λ s. caught-Leaves s (m s).0 (m s).1 handler k (h.at s);
  }

  pub Leaves-if :
      (b : Bool) (m n : Exec S A) → Leaves part m → Leaves part n → Leaves part (if b then m else n)
  Leaves-if true m n h k = h
  Leaves-if false m n h k = k

pub Leaves-modify :
    {S X : Type 0} {part : S → X} (f : S → S)
    → ((s : S) → part (f s) ≡ part s)
    → Leaves part (modify f)
Leaves-modify f h = record { at = h }
