-- ===== src/Kernel/Validation.antt =====
-- kernel/validation.js and kernel/ids.js: the validators of texts, identifiers and timestamps.
-- A field whose type in the model is an enumeration or a record needs no `enumValue` or
-- `assertPlainObject`: the values that these refuse are not values of the type.
use fdos_genesis.Prelude.{
  ℕ, ◌≡◌, Bool, true, false, ◌&&◌, ◌||◌, String, Option, none, some, List, [], ◌∷◌, not, length,
  contains, arith, leb, ◌==◌, ◌is◌, if◌then◌else◌, ◌≤◌,
}
use fdos_genesis.Kernel.Result.{Result, ok, err, validation, guard, ◌>>=◌, ◌>>◌}
use fdos_genesis.Kernel.Text.{
  text_length, trim, is_lower, is_digit, is_alnum, head_and_tail, cut, every_char, starts_with,
  skip,
}
use fdos_genesis.Kernel.Text.Trim.{trim_idem}

-- What `requiredString` tests of the trimmed text.
abbrev pub fits : ℕ → ℕ → (String → Bool) → String → Bool
fits min max pattern t = leb min (text_length t) && leb (text_length t) max && pattern t

unfoldable pub required_string : ℕ → ℕ → (String → Bool) → String → Result String
required_string min max pattern s =
    if fits min max pattern (trim s) then ok (trim s) else err validation

-- A validator with no pattern.
abbrev pub anything : String → Bool
anything s = true

-- The texts of a list, each validated.
unfoldable pub required_strings : ℕ → ℕ → (String → Bool) → List String → Result (List String)
required_strings min max pattern [] = ok []
required_strings min max pattern (s ∷ ss) = required_string min max pattern s >>= λ t.
    required_strings min max pattern ss >>= λ ts. ok (t ∷ ts)

-- `new Set(values).size === values.length`
abbrev pub no_duplicates : List String → Bool
no_duplicates [] = true
no_duplicates (s ∷ ss) = not (contains s ss) && no_duplicates ss

unfoldable pub unique_strings : (maximum : ℕ) → (String → Bool) → List String → Result (List String)
unfolding required_strings
unique_strings maximum pattern value = do
  normalized ← required_strings 1 200 pattern value
  guard (leb (length normalized) maximum && no_duplicates normalized) validation
  ok normalized

abbrev pub is_id_tail : ℕ → Bool
is_id_tail n = is_alnum n || n == b'_' || n == b'-'

abbrev pub is_prefix_tail : ℕ → Bool
is_prefix_tail n = is_lower n || is_digit n || n == b'-'

abbrev both_parts : Option (String × String) → Bool
both_parts none = false
both_parts (some (prefix, rest)) =
    head_and_tail is_lower is_prefix_tail 1 31 prefix && head_and_tail is_alnum is_id_tail 5 95 rest

-- ID_PATTERN: the prefix has no `_`, so the first one ends it.
unfoldable pub is_id : String → Bool
unfolding cut every_char text_length
is_id s = both_parts (cut b'_' s)

-- `^KIND:[a-z][a-z0-9-]{1,63}:[a-zA-Z0-9][a-zA-Z0-9._-]{1,63}$`, behind `KIND:`.
abbrev qualified : Option (String × String) → Bool
qualified none = false
qualified (some (group, name)) =
    head_and_tail is_lower is_prefix_tail 1 63 group
    && head_and_tail is_alnum (λ n. is_alnum n || n == b'.' || n == b'_' || n == b'-') 1 63 name

unfoldable pub is_connector_id : String → Bool
unfolding cut every_char text_length starts_with skip
is_connector_id s = starts_with s "connector:" && qualified (cut b':' (skip 10 s))

unfoldable pub is_agent_id : String → Bool
unfolding cut every_char text_length starts_with skip
is_agent_id s = starts_with s "agent:" && qualified (cut b':' (skip 6 s))

unfoldable pub assert_id : String → Result String
assert_id s = if is_id s then ok s else err validation

-- A timestamp field holds a text. What the code does with it depends only on whether the text is
-- what `toISOString` prints for an instant, another text that `Date.parse` reads, or neither.
-- Instants are milliseconds from 1970 on.
pub data Stamp : Type 0 where
  iso : ℕ → Stamp
  loose : String → ℕ → Stamp
  garbled : String → Stamp

-- `none` is `NaN`.
abbrev pub date_parse : Stamp → Option ℕ
date_parse (iso t) = some t
date_parse (loose s t) = some t
date_parse (garbled s) = none

-- The instant of a valid timestamp.
abbrev pub iso_date : Stamp → Result ℕ
iso_date (iso t) = ok t
iso_date (loose s t) = err validation
iso_date (garbled s) = err validation

-- `===` on the texts.
abbrev pub same_stamp : Stamp → Stamp → Bool
same_stamp (iso t) (iso u) = t == u
same_stamp (loose s t) (loose r u) = s is r && t == u
same_stamp (garbled s) (garbled r) = s is r
same_stamp _ _ = false

-- The validator accepts what it returns, and returns it unchanged.
pub required_string_idem :
    (min max : ℕ) (pattern : String → Bool) (s : String) {t : String}
    → required_string min max pattern s ≡ ok t
    → required_string min max pattern t ≡ ok t
unfolding required_string
required_string_idem min max pattern s {t} h = ground (arith, trim_idem s)

pub required_string_bounds :
    (min max : ℕ) (pattern : String → Bool) (s : String) {t : String}
    → required_string min max pattern s ≡ ok t
    → (t ≡ trim s) × (min ≤ text_length t) × (text_length t ≤ max) × (pattern t ≡ true)
unfolding required_string
required_string_bounds min max pattern s h = ground arith

pub assert_id-eq-ok : (s : String) {t : String} → assert_id s ≡ ok t → (t ≡ s) × (is_id s ≡ true)
unfolding assert_id
assert_id-eq-ok s h = ground arith
