-- ===== src/Kernel/JsMap.antt =====
-- The `Map` of the language, with texts for keys: `values()` goes by the order of insertion, and
-- `set` of a key that is there keeps its place.
use fdos_genesis.Prelude.{
  ◌≡◌, refl, Bool, String, Option, none, some, List, [], ◌∷◌, arith, eq_iff, ◌is◌, if◌then◌else◌,
  is_some, inl, inr, Bool-cases, subst,
}

abbrev pub JsMap {ℓ} : Type ℓ → Type ℓ
JsMap V = List (String × V)

module _ {ℓ} {V : Type ℓ} where
  unfoldable pub get : String → JsMap V → Option V
  get k [] = none
  get k ((j, v) ∷ m) = if j is k then some v else get k m

  unfoldable pub set : String → V → JsMap V → JsMap V
  set k v [] = (k, v) ∷ []
  set k v ((j, w) ∷ m) = if j is k then (j, v) ∷ m else (j, w) ∷ set k v m

  abbrev pub has : String → JsMap V → Bool
  has k m = is_some (get k m)

  abbrev pub values : JsMap V → List V
  values [] = []
  values ((k, v) ∷ m) = v ∷ values m

  pub get-set :
      (k j : String) (v : V) (m : JsMap V)
      → get j (set k v m) ≡ (if k is j then some v else get j m)
  unfolding get set
  get-set k j v [] = refl
  get-set k j v ((i, w) ∷ m) = ground (arith, eq_iff k j, eq_iff i k, eq_iff i j, get-set k j v m)

module _ {ℓ κ} {V : Type ℓ} (P : V → Type κ) where
  abbrev pub AllValues : JsMap V → Type κ
  AllValues [] = Unit
  AllValues ((k, v) ∷ m) = P v × AllValues m

  pub AllValues-get : (k : String) (m : JsMap V) {v : V} → AllValues m → get k m ≡ some v → P v
  unfolding get
  AllValues-get k [] h e = cc
  AllValues-get k ((j, w) ∷ m) {v} h e = elim (Bool-cases (j is k)) [
    | inl here ↦ let same : w ≡ v = ground arith in subst P same h.0
    | inr there ↦ AllValues-get k m h.1 (rw there at e)
  ]

  pub AllValues-set : (k : String) (v : V) (m : JsMap V) → AllValues m → P v → AllValues (set k v m)
  unfolding set
  AllValues-set k v [] h p = (p, tt)
  AllValues-set k v ((j, w) ∷ m) h p = elim (Bool-cases (j is k)) [
    | inl here ↦ rw here (p, h.1)
    | inr there ↦ rw there (h.0, AllValues-set k v m h.1 p)
  ]
