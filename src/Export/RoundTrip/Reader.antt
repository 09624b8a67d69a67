-- ===== src/Export/RoundTrip/Reader.antt =====
-- A strict reader of the YAML scalars that the exporter may write.
use panops.Base.{
  Bool, Option, Text, [], all, false, if◌then◌else◌, leb, ltb, none, not, some, suc, true, zero, ℕ,
  ◌&&◌, ◌*◌, ◌+◌, ◌-◌, ◌==◌, ◌||◌, ◌∷◌, ◌≡◌, List, any, codes, text_eq,
}

-- A reader of double-quoted scalars, byte by byte: inside, after a backslash, inside an escape of four
-- hexadecimal digits of which some are left, and behind the closing quote.
pub data Place : Type 0 where
  inside after_backslash behind : Place
  in_hex : ℕ → ℕ → Place

abbrev pub hex_value : ℕ → ℕ
hex_value c = if ltb c 58 then c - b'0' else c - b'a' + 10

abbrev pub with_first : ℕ → Option Text → Option Text
with_first c none = none
with_first c (some s) = some (c ∷ s)

-- A printable character of ASCII.
abbrev pub is_printable : ℕ → Bool
is_printable c = leb 32 c && ltb c 127

abbrev pub IsPrintable : Text → Type 0
IsPrintable s = all is_printable s ≡ true

abbrev pub IsAscii : Text → Type 0
IsAscii s = all (λ c. ltb c 128) s ≡ true

-- What is not printable may not stand in the text, and of the escapes the reader knows the six that
-- are needed.
unfoldable pub read_from : Place → Text → Option Text
read_from behind [] = some []
read_from behind (c ∷ s) = none
read_from inside [] = none
read_from inside (c ∷ s) =
    let end = read_from behind s in
    let escape = read_from after_backslash s in
    let rest = read_from inside s in
    if c == 34
    then end
    else if c == 92
    then escape
    else if is_printable c
    then with_first c rest
    else none
read_from after_backslash [] = none
read_from after_backslash (c ∷ s) =
    let rest = read_from inside s in
    let hex = read_from (in_hex 3 0) s in
    if c == b'n'
    then with_first 10 rest
    else if c == b'r'
    then with_first 13 rest
    else if c == b't'
    then with_first 9 rest
    else if c == b'u'
    then hex
    else if c == 34 || c == 92
    then with_first c rest
    else none
read_from (in_hex k v) [] = none
read_from (in_hex zero v) (c ∷ s) = with_first (v * 16 + hex_value c) (read_from inside s)
read_from (in_hex (suc k) v) (c ∷ s) = read_from (in_hex k (v * 16 + hex_value c)) s

-- The plain scalars that YAML 1.1 or 1.2 reads as a truth value or as null and that start with a
-- letter.
abbrev pub yaml_words : List Text
yaml_words =
    codes "true"
    ∷ codes "True"
    ∷ codes "TRUE"
    ∷ codes "false"
    ∷ codes "False"
    ∷ codes "FALSE"
    ∷ codes "null"
    ∷ codes "Null"
    ∷ codes "NULL"
    ∷ codes "yes"
    ∷ codes "Yes"
    ∷ codes "YES"
    ∷ codes "no"
    ∷ codes "No"
    ∷ codes "NO"
    ∷ codes "on"
    ∷ codes "On"
    ∷ codes "ON"
    ∷ codes "off"
    ∷ codes "Off"
    ∷ codes "OFF"
    ∷ codes "y"
    ∷ codes "Y"
    ∷ codes "n"
    ∷ codes "N"
    ∷ []

abbrev pub is_alpha : ℕ → Bool
is_alpha c = (leb 65 c && leb c 90) || (leb 97 c && leb c 122)

-- Printable, and none of the characters that can end a plain scalar.
abbrev pub can_stand : ℕ → Bool
can_stand c = is_printable c && not (any (λ d. d == c) (codes ":#,[]{}"))

abbrev pub last_is_space : Bool → Text → Bool
last_is_space b [] = b
last_is_space b (c ∷ s) = last_is_space (c == 32) s

-- A plain scalar stands for itself if it starts with a letter, which no number does, ends in no space,
-- holds no character that could end it, and is no word that YAML reads as something else.
unfoldable pub read_plain : Text → Option Text
read_plain [] = none
read_plain (c ∷ s) =
    if (is_alpha c && all can_stand (c ∷ s))
      && (not (last_is_space false (c ∷ s)) && not (any (λ w. text_eq w (c ∷ s)) yaml_words))
    then some (c ∷ s)
    else none

unfoldable pub read_scalar : Text → Option Text
unfolding read_from read_plain
read_scalar [] = none
read_scalar (c ∷ s) =
    let quoted = read_from inside s in
    let plain = read_plain (c ∷ s) in if c == 34 then quoted else plain
