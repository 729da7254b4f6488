-- ===== src/Kernel/Text.antt =====
-- The operations on texts that the validators use: `trim`, `length`, `startsWith` and the
-- character classes and shapes of the regular expressions in kernel/validation.js, kernel/ids.js
-- and kernel/event-log.js.
pub mod Trim
use Prim.Native.Char.{Char, code}
use fdos_genesis.Prelude.{
  ℕ, zero, suc, ◌+◌, Bool, true, false, ◌&&◌, ◌||◌, String, Option, none, some, leb, ltb, ◌==◌,
  if◌then◌else◌,
}

-- `s.length`: a code point above 0xffff takes two units.
unfoldable pub text_length : String → ℕ
text_length String.[] = 0
text_length (String.◌∷◌ c s) = (if ltb (code c) 65536 then 1 else 2) + text_length s

-- What `trim` removes.
abbrev pub is_space : Char → Bool
is_space c =
    (leb 9 n && leb n 13)
    || n == 32
    || n == 160
    || n == 0x1680
    || (leb 0x2000 n && leb n 0x200a)
    || n == 0x2028
    || n == 0x2029
    || n == 0x202f
    || n == 0x205f
    || n == 0x3000
    || n == 0xfeff
  where
    n : ℕ
    n = code c

unfoldable pub trim_start : String → String
trim_start String.[] = String.[]
trim_start (String.◌∷◌ c s) = if is_space c then trim_start s else String.◌∷◌ c s

-- A character in front of a text whose white space at the end is gone.
abbrev pub keep_unless_blank : Char → String → String
keep_unless_blank c String.[] = if is_space c then String.[] else String.◌∷◌ c String.[]
keep_unless_blank c (String.◌∷◌ d t) = String.◌∷◌ c (String.◌∷◌ d t)

unfoldable pub trim_end : String → String
trim_end String.[] = String.[]
trim_end (String.◌∷◌ c s) = keep_unless_blank c (trim_end s)

unfoldable pub trim : String → String
unfolding trim_start trim_end
trim s = trim_end (trim_start s)

unfoldable pub starts_with : String → String → Bool
starts_with s String.[] = true
starts_with String.[] (String.◌∷◌ p q) = false
starts_with (String.◌∷◌ c s) (String.◌∷◌ p q) = code c == code p && starts_with s q

-- What follows the first `n` characters.
unfoldable pub skip : ℕ → String → String
skip zero s = s
skip (suc n) String.[] = String.[]
skip (suc n) (String.◌∷◌ c s) = skip n s

unfoldable pub every_char : (ℕ → Bool) → String → Bool
every_char p String.[] = true
every_char p (String.◌∷◌ c s) = p (code c) && every_char p s

abbrev pub is_lower : ℕ → Bool
is_lower n = leb b'a' n && leb n b'z'

abbrev pub is_upper : ℕ → Bool
is_upper n = leb b'A' n && leb n b'Z'

abbrev pub is_digit : ℕ → Bool
is_digit n = leb b'0' n && leb n b'9'

abbrev pub is_alnum : ℕ → Bool
is_alnum n = is_lower n || is_upper n || is_digit n

-- `^FIRST REST{lo,hi}$` for two character classes; a count without bound is a count of the text.
abbrev pub head_and_tail : (ℕ → Bool) → (ℕ → Bool) → ℕ → ℕ → String → Bool
head_and_tail first rest lo hi String.[] = false
head_and_tail first rest lo hi (String.◌∷◌ c s) =
    first (code c) && every_char rest s && leb lo (text_length s) && leb (text_length s) hi

-- /^sha256:[0-9a-f]{64}$/
unfoldable pub is_digest : String → Bool
unfolding starts_with skip every_char text_length
is_digest s =
    starts_with s "sha256:"
    && every_char (λ n. is_digit n || (leb b'a' n && leb n b'f')) (skip 7 s)
    && text_length (skip 7 s) == 64

-- The text before the first occurrence of a character, and the text after it.
unfoldable pub cut : ℕ → String → Option (String × String)
cut n String.[] = none
cut n (String.◌∷◌ c s) = if code c == n then some (String.[], s) else before c (cut n s)
  where
    before : Char → Option (String × String) → Option (String × String)
    before c none = none
    before c (some (a, b)) = some (String.◌∷◌ c a, b)
