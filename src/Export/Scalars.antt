-- ===== src/Export/Scalars.antt =====
-- `yaml_scalar` of crates/panops-portable/src/markdown_exporter.rs.
use panops.Base.{
  Bool, List, Option, Text, [], all, any, codes, false, if◌then◌else◌, is_digit, keep, leb, length,
  ltb, map, none, not, some, text_eq, trim, true, ℕ, ◌%◌, ◌&&◌, ◌++◌, ◌+◌, ◌-◌, ◌/◌, ◌==◌, ◌||◌,
  ◌∷◌,
}
use panops.Notes.Verifier.{leading_digits, strip_prefix}

abbrev pub is_lower : ℕ → Bool
is_lower c = leb b'a' c && leb c b'z'

abbrev pub is_upper : ℕ → Bool
is_upper c = leb b'A' c && leb c b'Z'

abbrev pub is_letter : ℕ → Bool
is_letter c = is_lower c || is_upper c

-- `char::to_ascii_lowercase`; what is asked of the reserved words is ASCII.
abbrev pub lower : ℕ → ℕ
lower c = if is_upper c then c + 32 else c

abbrev pub is_plain : ℕ → Bool
is_plain c =
    (is_letter c || is_digit c)
    || ((c == b' ' || c == b'.') || (c == b'_' || (c == b'/' || c == b'-')))

unfoldable pub ends_with_space : Text → Bool
ends_with_space [] = false
ends_with_space (c ∷ []) = c == b' '
ends_with_space (c ∷ d ∷ s) = ends_with_space (d ∷ s)

abbrev pub starts_plain : Text → Bool
starts_plain [] = false
starts_plain (c ∷ s) = is_letter c && all is_plain s

unfoldable pub matches_plain_pattern : Text → Bool
unfolding ends_with_space
matches_plain_pattern s = not (ends_with_space s) && starts_plain s

abbrev pub one_of : List Text → Text → Bool
one_of words s = any (λ w. text_eq w s) words

abbrev pub keywords : List Text
keywords =
    codes "true"
    ∷ codes "false"
    ∷ codes "null"
    ∷ codes "yes"
    ∷ codes "no"
    ∷ codes "on"
    ∷ codes "off"
    ∷ codes "y"
    ∷ codes "n"
    ∷ codes "~"
    ∷ codes ".inf"
    ∷ codes "-.inf"
    ∷ codes ".nan"
    ∷ []

unfoldable pub is_yaml_reserved : Text → Bool
is_yaml_reserved s = one_of keywords (map lower s)

abbrev pub strip_sign : Text → Text
strip_sign [] = []
strip_sign (c ∷ s) = if c == b'+' || c == b'-' then s else c ∷ s

abbrev pub after_digits : Text → Text
after_digits [] = []
after_digits (c ∷ s) = let rest = after_digits s in if is_digit c then rest else c ∷ s

abbrev pub is_nil : Text → Bool
is_nil [] = true
is_nil (c ∷ s) = false

abbrev pub is_digits : Text → Bool
is_digits s = not (is_nil s) && all is_digit s

abbrev pub is_exponent : Text → Bool
is_exponent [] = true
is_exponent (c ∷ s) = (c == b'e' || c == b'E') && is_digits (strip_sign s)

abbrev pub is_fraction : Bool → Text → Bool
is_fraction seen [] = seen
is_fraction seen (c ∷ s) =
    if c == b'.'
    then (seen || not (is_nil (leading_digits s))) && is_exponent (after_digits s)
    else seen && is_exponent (c ∷ s)

-- `str::parse::<f64>` succeeds, which it does wherever `str::parse::<i64>` does.
unfoldable pub parses_as_f64 : Text → Bool
unfolding leading_digits
parses_as_f64 s =
    let t = strip_sign s in
    one_of (codes "inf" ∷ codes "infinity" ∷ codes "nan" ∷ []) (map lower t)
    || is_fraction (not (is_nil (leading_digits t))) (after_digits t)

abbrev pub is_radix_digit : ℕ → ℕ → Bool
is_radix_digit radix c =
    (is_digit c && ltb (c - b'0') radix) || (is_lower c && ltb (c - b'a' + 10) radix)

abbrev pub radix_number : ℕ → Text → Bool
radix_number radix rest = not (is_nil rest) && all (λ c. c == b'_' || is_radix_digit radix c) rest

-- The first prefix that fits decides.
unfoldable pub radix_answer : List (Text × ℕ) → Text → Option Bool
unfolding strip_prefix
radix_answer [] s = none
radix_answer ((prefix, radix) ∷ ps) s =
    let later = radix_answer ps s in
    elim (strip_prefix prefix s) [ none ↦ later | some rest ↦ some (radix_number radix rest) ]

abbrev pub radix_prefixes : List (Text × ℕ)
radix_prefixes = (codes "0x", 16) ∷ (codes "0o", 8) ∷ (codes "0b", 2) ∷ []

-- Digits grouped by underscores, with at most one dot.
unfoldable pub is_grouped : Text → Text → Bool
is_grouped trimmed number =
    let cleaned = keep (λ c. not (c == b'_')) number in
    any (λ c. c == b'_') trimmed
    && (leb (length (keep (λ c. c == b'.') cleaned)) 1
        && is_digits (keep (λ c. not (c == b'.')) cleaned))

unfoldable pub looks_like_number : Text → Bool
unfolding parses_as_f64 radix_answer is_grouped
looks_like_number s =
    let trimmed = trim s in
    let number = strip_sign trimmed in
    if is_nil trimmed
    then false
    else if parses_as_f64 trimmed
    then true
    else elim (radix_answer radix_prefixes (map lower number)) [
      | some b ↦ b
      | none ↦ is_grouped trimmed number
    ]

unfoldable pub is_safe_plain_scalar : Text → Bool
unfolding matches_plain_pattern is_yaml_reserved looks_like_number
is_safe_plain_scalar s =
    matches_plain_pattern s && (not (is_yaml_reserved s) && not (looks_like_number s))

abbrev pub hex_digit : ℕ → ℕ
hex_digit d = if ltb d 10 then b'0' + d else b'a' + (d - 10)

-- The characters that are escaped have one byte.
unfoldable pub escape_byte : ℕ → Text
escape_byte c =
    if c == 92
    then 92 ∷ 92 ∷ []
    else if c == 34
    then 92 ∷ 34 ∷ []
    else if c == 10
    then 92 ∷ b'n' ∷ []
    else if c == 13
    then 92 ∷ b'r' ∷ []
    else if c == 9
    then 92 ∷ b't' ∷ []
    else if ltb c 32 || c == 127
    then 92 ∷ b'u' ∷ b'0' ∷ b'0' ∷ hex_digit (c / 16) ∷ hex_digit (c % 16) ∷ []
    else c ∷ []

unfoldable pub escaped : Text → Text
unfolding escape_byte
escaped [] = []
escaped (c ∷ s) = escape_byte c ++ escaped s

unfoldable pub yaml_scalar : Text → Text
unfolding is_safe_plain_scalar escaped
yaml_scalar s = if is_safe_plain_scalar s then s else 34 ∷ escaped s ++ 34 ∷ []
