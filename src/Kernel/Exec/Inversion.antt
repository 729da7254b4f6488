-- ===== src/Kernel/Exec/Inversion.antt =====
-- A successful step of a computation, taken apart.
use fdos_genesis.Prelude.{◌≡◌, refl, arith}
use fdos_genesis.Kernel.Result.{Result, ok, err}
use fdos_genesis.Kernel.Exec.{Exec, ◌>>=◌, continue}

module _ {S A B : Type 0} where
  continue-eq-ok :
      (r : Result A) (s : S) (f : A → Exec S B) {b : B} {s' : S}
      → continue r f s ≡ (ok b, s')
      → (a : A) × (r ≡ ok a) × (f a s ≡ (ok b, s'))
  continue-eq-ok (ok a) s f h = (a, refl, h)
  continue-eq-ok (err e) s f h = cc

  pub bind-eq-ok :
      (m : Exec S A) (f : A → Exec S B) (s : S) {b : B} {s' : S}
      → (m >>= f) s ≡ (ok b, s')
      → (a : A) × ((m s).0 ≡ ok a) × (f a (m s).1 ≡ (ok b, s'))
  bind-eq-ok m f s h = continue-eq-ok (m s).0 (m s).1 f h

pub ok-injective : {A : Type 0} {a b : A} → ok a ≡ ok b → a ≡ b
ok-injective h = ground arith

module _ {S A B : Type 0} where
  continue_returned :
      (r : Result A) (s : S) (f : A → Exec S B) {b : B}
      → (continue r f s).0 ≡ ok b
      → (a : A) × (r ≡ ok a) × ((f a s).0 ≡ ok b)
  continue_returned (ok a) s f h = (a, refl, h)
  continue_returned (err e) s f h = cc

  -- The same, of what is returned only.
  pub bind_returned :
      (m : Exec S A) (f : A → Exec S B) (s : S) {b : B}
      → ((m >>= f) s).0 ≡ ok b
      → (a : A) × ((m s).0 ≡ ok a) × ((f a (m s).1).0 ≡ ok b)
  bind_returned m f s h = continue_returned (m s).0 (m s).1 f h
