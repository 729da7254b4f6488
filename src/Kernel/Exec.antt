-- ===== src/Kernel/Exec.antt =====
-- Code that changes a state and may throw: what was written before a throw stays written.
pub mod Leaves
pub mod Meets
pub mod Holds
pub mod Inversion
use fdos_genesis.Prelude.{Bool, true, false, List, [], ◌∷◌}
use fdos_genesis.Kernel.Result.{FdosError, Result, ok, err}

abbrev pub Exec {ℓ} : Type ℓ → Type ℓ → Type ℓ
Exec S A = S → Result A × S

module _ {ℓ} {S A : Type ℓ} where
  abbrev pub pure : A → Exec S A
  pure a s = (ok a, s)

  abbrev pub lift : Result A → Exec S A
  lift r s = (r, s)

abbrev pub modify : {S : Type 0} → (S → S) → Exec S (Unit {0})
modify f s = (ok tt, f s)

module _ {ℓ} {S A B : Type ℓ} where
  abbrev pub continue : Result A → (A → Exec S B) → Exec S B
  continue (ok a) f s = f a s
  continue (err e) f s = (err e, s)

  infixl 5 ◌>>=◌ ◌>>◌
  abbrev pub ◌>>=◌ : Exec S A → (A → Exec S B) → Exec S B
  ◌>>=◌ m f s = let (r, s') = m s in continue r f s'

  abbrev pub ◌>>◌ : Exec S A → Exec S B → Exec S B
  m >> n = m >>= λ _. n

-- `if (test) throw e`, of the state as it is then.
abbrev pub throw_if : {S : Type 0} → (S → Bool) → FdosError → Exec S (Unit {0})
throw_if test e s = elim (test s) [ true ↦ (err e, s) | false ↦ (ok tt, s) ]

-- A computation that reads the state.
abbrev pub reading : {S A : Type 0} → (S → Result A) → Exec S A
reading f s = (f s, s)

-- `try { … } catch (error) { … }`
module _ {ℓ} {S A : Type ℓ} where
  abbrev pub caught : Result A → (FdosError → Exec S A) → Exec S A
  caught (ok a) handler s = (ok a, s)
  caught (err e) handler s = handler e s

  abbrev pub attempt : Exec S A → (FdosError → Exec S A) → Exec S A
  attempt m handler s = let (r, s') = m s in caught r handler s'

-- A computation on a part of the state.
abbrev pub zoom : {S T A : Type 0} → (S → T) → (T → S → S) → Exec T A → Exec S A
zoom get put m s = let (r, t) = m (get s) in (r, put t s)

-- `for (const a of list) { … }`
unfoldable pub for_each : {S A : Type 0} → (A → Exec S (Unit {0})) → List A → Exec S (Unit {0})
for_each f [] = pure tt
for_each f (a ∷ rest) = f a >> for_each f rest
