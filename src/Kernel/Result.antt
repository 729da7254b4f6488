-- ===== src/Kernel/Result.antt =====
-- kernel/errors.js: the error classes, and computations that return a value or throw.
use fdos_genesis.Prelude.{◌≡◌, refl, Bool, true, false, Option, none, some, arith}

-- One constructor for each subclass of `FdosError`, the `TypeError` of a read through `null`, and
-- the error of a database call that nothing has wrapped.
pub data FdosError : Type 0 where
  validation authorization conflict integrity persistence not_found policy type_error : FdosError
  database_error : FdosError

pub data Result {ℓ} (A : Type ℓ) : Type ℓ where
  ok : A → Result A
  err : FdosError → Result A

infixl 5 ◌>>=◌ ◌>>◌
abbrev pub ◌>>=◌ {ℓ κ} : {A : Type ℓ} {B : Type κ} → Result A → (A → Result B) → Result B
ok a >>= f = f a
err e >>= f = err e

abbrev pub ◌>>◌ {ℓ κ} : {A : Type ℓ} {B : Type κ} → Result A → Result B → Result B
ok a >> r = r
err e >> r = err e

-- `if (!test) throw e`.
abbrev pub guard : Bool → FdosError → Result (Unit {0})
guard true e = ok tt
guard false e = err e

abbrev pub or_throw {ℓ} : {A : Type ℓ} → Option A → FdosError → Result A
or_throw none e = err e
or_throw (some a) e = ok a

-- A successful step of a chain, taken apart.
pub >>=-eq-ok {ℓ κ} :
    {A : Type ℓ} {B : Type κ} (r : Result A) (f : A → Result B) {b : B}
    → (r >>= f) ≡ ok b
    → (a : A) × (r ≡ ok a) × (f a ≡ ok b)
>>=-eq-ok (ok a) f h = (a, refl, h)
>>=-eq-ok (err e) f h = cc

pub >>-eq-ok {ℓ κ} :
    {A : Type ℓ} {B : Type κ} (r : Result A) (s : Result B) {b : B}
    → (r >> s) ≡ ok b
    → ((a : A) × (r ≡ ok a)) × (s ≡ ok b)
>>-eq-ok (ok a) s h = ((a, refl), h)
>>-eq-ok (err e) s h = cc

pub guard-eq-ok : (b : Bool) (e : FdosError) {u : Unit} → guard b e ≡ ok u → b ≡ true
guard-eq-ok true e h = refl
guard-eq-ok false e h = cc

pub or_throw-eq-ok {ℓ} :
    {A : Type ℓ} (o : Option A) (e : FdosError) {a : A} → or_throw o e ≡ ok a → o ≡ some a
or_throw-eq-ok none e h = cc
or_throw-eq-ok (some a) e h = ground arith
