-- ===== src/Kernel/Text/Trim.antt =====
-- `trim` is a normal form: what it returns has no white space left to remove.
use Prim.Native.Char.{Char}
use fdos_genesis.Prelude.{◌≡◌, refl, inl, inr, false, String, Bool-cases}
use fdos_genesis.Kernel.Text.{is_space, trim_start, trim_end, trim, keep_unless_blank}

trim_end-keep :
    (c : Char) (t : String)
    → trim_end t ≡ t
    → trim_end (keep_unless_blank c t) ≡ keep_unless_blank c t
unfolding trim_end
trim_end-keep c String.[] h = elim (Bool-cases (is_space c)) [ inl e ↦ rw e | inr e ↦ rw e (rw e) ]
trim_end-keep c (String.◌∷◌ d t) h = rw h

trim_end_idem : (s : String) → trim_end (trim_end s) ≡ trim_end s
unfolding trim_end
trim_end_idem String.[] = refl
trim_end_idem (String.◌∷◌ c s) = trim_end-keep c (trim_end s) (trim_end_idem s)

trim_start-keep :
    (c : Char) (t : String)
    → is_space c ≡ false
    → trim_start (keep_unless_blank c t) ≡ keep_unless_blank c t
unfolding trim_start
trim_start-keep c String.[] e = rw e (rw e)
trim_start-keep c (String.◌∷◌ d t) e = rw e

trim_start-trim_end : (s : String) → trim_start (trim_end (trim_start s)) ≡ trim_end (trim_start s)
unfolding trim_start trim_end
trim_start-trim_end String.[] = refl
trim_start-trim_end (String.◌∷◌ c s) = elim (Bool-cases (is_space c)) [
  | inl e ↦ rw e (trim_start-trim_end s)
  | inr e ↦ rw e (trim_start-keep c (trim_end s) e)
]

pub trim_idem : (s : String) → trim (trim s) ≡ trim s
unfolding trim
trim_idem s = rw trim_start-trim_end (trim_end_idem (trim_start s))
