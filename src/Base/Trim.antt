-- ===== src/Base/Trim.antt =====
-- `str::trim` on UTF-8 bytes: the Unicode white space in its encodings.
use panops.Base.Tests.{◌==◌, if◌then◌else◌, leb}
use panops.Base.Bytes.{Text}
use Prim.Native.Nat.{ℕ, zero, suc}
use mathlib.Core.Bool.{Bool, ◌&&◌, ◌||◌}
use mathlib.Core.List.{[], ◌∷◌}

-- One byte: the controls from tab to carriage return, and the space.
abbrev pub space1 : ℕ → Bool
space1 a = (leb 9 a && leb a 13) || a == 32

-- Two bytes: U+0085 and U+00A0.
abbrev space2 : ℕ → ℕ → Bool
space2 a b = a == 0xC2 && (b == 0x85 || b == 0xA0)

-- Three bytes: U+1680, U+2000 to U+200A, U+2028, U+2029, U+202F, U+205F and U+3000.
abbrev space3 : ℕ → ℕ → ℕ → Bool
space3 a b c =
    (a == 0xE1 && (b == 0x9A && c == 0x80))
    || ((a == 0xE2
          && (b == 0x80 && ((leb 0x80 c && leb c 0x8A) || (c == 0xA8 || (c == 0xA9 || c == 0xAF)))))
        || ((a == 0xE2 && (b == 0x81 && c == 0x9F)) || (a == 0xE3 && (b == 0x80 && c == 0x80))))

-- How many bytes of white space a text starts with, of one character.
abbrev pub space_length : Text → ℕ
space_length [] = 0
space_length (a ∷ []) = if space1 a then 1 else 0
space_length (a ∷ b ∷ []) = if space1 a then 1 else if space2 a b then 2 else 0
space_length (a ∷ b ∷ c ∷ s) =
    if space1 a then 1 else if space2 a b then 2 else if space3 a b c then 3 else 0

-- The same from the other end, on the bytes in reverse.
abbrev pub space_length_back : Text → ℕ
space_length_back [] = 0
space_length_back (a ∷ []) = if space1 a then 1 else 0
space_length_back (a ∷ b ∷ []) = if space1 a then 1 else if space2 b a then 2 else 0
space_length_back (a ∷ b ∷ c ∷ s) =
    if space1 a then 1 else if space2 b a then 2 else if space3 c b a then 3 else 0

abbrev pub drop_bytes : ℕ → Text → Text
drop_bytes zero s = s
drop_bytes (suc n) [] = []
drop_bytes (suc n) (c ∷ s) = drop_bytes n s

-- Strip while white space is at the front; the text's length is enough fuel.
abbrev pub strip : (Text → ℕ) → Text → Text → Text
strip at [] s = s
strip at (f ∷ fuel) s = elim (at s) [ zero ↦ s | suc n ↦ strip at fuel (drop_bytes (suc n) s) ]

abbrev pub reverse_bytes : Text → Text → Text
reverse_bytes [] acc = acc
reverse_bytes (c ∷ s) acc = reverse_bytes s (c ∷ acc)

unfoldable pub trim : Text → Text
trim s =
    let front = strip space_length s s in
    let back = reverse_bytes front [] in reverse_bytes (strip space_length_back back back) []
