-- ===== src/Kernel/Exec/Holds.antt =====
-- A condition that a computation keeps when it returns, with a weaker one for when it throws.
use fdos_genesis.Prelude.{Bool, true, false, Bool-cases, inl, inr, if◌then◌else◌, List, [], ◌∷◌}
use fdos_genesis.Kernel.Result.{FdosError, Result, ok, err}
use fdos_genesis.Kernel.Exec.{Exec, ◌>>=◌, pure, lift, reading, throw_if, for_each}
use fdos_genesis.Kernel.Exec.Meets.{After, Meets, Meets-bind}

abbrev pub Holds : {S A : Type 0} → (P E : S → Type 0) → Exec S A → Type 0
Holds P E m = Meets P m (λ _. P) (λ _. E)

pub record Weakens {S : Type 0} (P E : S → Type 0) : Type 0 where
  pub at : (s : S) → P s → E s

module _ {S A : Type 0} {P E : S → Type 0} where
  either_way : (r : Result A) (s : S) → Weakens P E → P s → After (λ _. P) (λ _. E) r s
  either_way (ok a) s w h = h
  either_way (err e) s w h = w.at s h

  pub Holds-pure : (a : A) → Holds P E (pure {S = S} a)
  Holds-pure a = record { at = λ s h. h }

  pub Holds-lift : (r : Result A) → Weakens P E → Holds P E (lift {S = S} r)
  Holds-lift r w = record { at = λ s h. either_way r s w h }

  pub Holds-reading : (f : S → Result A) → Weakens P E → Holds P E (reading f)
  Holds-reading f w = record { at = λ s h. either_way (f s) s w h }

  -- A step whose condition holds in either case.
  pub held_either_way : (m : Exec S A) → Weakens P E → ((s : S) → P s → P (m s).1) → Holds P E m
  held_either_way m w h = record { at = λ s p. either_way (m s).0 (m s).1 w (h s p) }

  pub Holds-if :
      (b : Bool) (m n : Exec S A) → Holds P E m → Holds P E n → Holds P E (if b then m else n)
  Holds-if true m n h k = h
  Holds-if false m n h k = k

module _ {S : Type 0} {P E : S → Type 0} where
  pub Holds-throw_if : (test : S → Bool) (e : FdosError) → Weakens P E → Holds P E (throw_if test e)
  Holds-throw_if test e w = record {
    at = λ s h. elim (Bool-cases (test s)) [
      | inl p ↦ rw (p, throw_if) (w.at s h)
      | inr p ↦ rw (p, throw_if) h
    ];
  }

  pub Holds-bind :
      {A B : Type 0} (m : Exec S A) (f : A → Exec S B)
      → Holds P E m
      → ((a : A) → Holds P E (f a))
      → Holds P E (m >>= f)
  Holds-bind m f h k = Meets-bind m f h k

  pub for_each-Holds :
      {A : Type 0} (f : A → Exec S (Unit {0})) (items : List A)
      → ((a : A) → Holds P E (f a))
      → Holds P E (for_each f items)
  unfolding for_each
  for_each-Holds f [] h = Holds-pure tt
  for_each-Holds f (a ∷ rest) h =
      Holds-bind (f a) (λ _. for_each f rest) (h a) (λ _. for_each-Holds f rest h)
