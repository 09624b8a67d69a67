-- ===== src/Notes/RawTranscript/Stamps.antt =====
-- Time stamps of notes/raw_transcript.rs are read back.
use panops.Base.{
  All, All-append, Text, [], arith, decimal, decimal-All_digits, false, if◌then◌else◌, is_digit,
  length, refl, suc, true, value_from, value_from-decimal, zero, ℕ, ◌%◌, ◌*◌, ◌++◌, ◌+◌, ◌-◌, ◌/◌,
  ◌==◌, ◌∷◌, ◌≡◌, ◌∙◌, Option, some, none, all, ◌&&◌, ◌≤◌, ap, length-append, length-decimal,
  ==_refl, decimal-ne-nil, Bool,
}
use panops.Notes.RawTranscript.{format_ts, padded, zeros}

-- A text up to the first byte `stop`, and what follows that byte.
unfoldable upto : ℕ → Text → Text
upto stop [] = []
upto stop (c ∷ s) = if c == stop then [] else c ∷ upto stop s

unfoldable past : ℕ → Text → Text
past stop [] = []
past stop (c ∷ s) = if c == stop then s else past stop s

abbrev pub is_filled : Text → Bool
is_filled [] = false
is_filled (c ∷ t) = true

-- Digits, and as many as there must be.
abbrev pub is_field : ℕ → Text → Bool
is_field width t = length t == width && all is_digit t

-- The milliseconds that `m:ss.mmm` stands for: minutes of at least one digit, seconds of two and
-- milliseconds of three.
unfoldable pub read_ts : Text → Option ℕ
unfolding upto past
read_ts t =
    let m = upto b':' t in
    let s = upto b'.' (past b':' t) in
    let ms = past b'.' (past b':' t) in
    if (is_filled m && all is_digit m) && (is_field 2 s && is_field 3 ms)
    then some ((value_from 0 m * 60 + value_from 0 s) * 1000 + value_from 0 ms)
    else none

abbrev Digits : Text → Type 0
Digits t = All (λ c. is_digit c ≡ true) t

upto-stop :
    (stop : ℕ) (s t : Text) → is_digit stop ≡ false → Digits s → upto stop (s ++ stop ∷ t) ≡ s
unfolding upto
upto-stop stop [] t other h = ground arith
upto-stop stop (c ∷ s) t other h =
    let rest = upto-stop stop s t other h.1 in let here = h.0 in ground (arith, rest, here)

past-stop :
    (stop : ℕ) (s t : Text) → is_digit stop ≡ false → Digits s → past stop (s ++ stop ∷ t) ≡ t
unfolding past
past-stop stop [] t other h = ground arith
past-stop stop (c ∷ s) t other h =
    let rest = past-stop stop s t other h.1 in let here = h.0 in ground (arith, rest, here)

value_from-zeros : (k : ℕ) (t : Text) → value_from 0 (zeros k ++ t) ≡ value_from 0 t
unfolding value_from
value_from-zeros zero t = refl
value_from-zeros (suc k) t = value_from-zeros k t

zeros-Digits : (k : ℕ) → Digits (zeros k)
zeros-Digits zero = tt
zeros-Digits (suc k) = (refl, zeros-Digits k)

value_from-padded : (width n : ℕ) → value_from 0 (padded width n) ≡ n
unfolding padded
value_from-padded width n =
    rw (value_from-zeros (width - length (decimal n)) (decimal n)) (value_from-decimal n)

padded-Digits : (width n : ℕ) → Digits (padded width n)
unfolding padded
padded-Digits width n =
    All-append _ (zeros (width - length (decimal n))) (decimal n)
      (zeros-Digits (width - length (decimal n))) (decimal-All_digits n)

Digits-all : (t : Text) → Digits t → all is_digit t ≡ true
Digits-all [] h = refl
Digits-all (c ∷ t) h = rw h.0 (Digits-all t h.1)

length-zeros : (k : ℕ) → length (zeros k) ≡ k
length-zeros zero = refl
length-zeros (suc k) = ap suc (length-zeros k)

padded-is_field :
    (width n : ℕ) → length (decimal n) ≤ width → is_field width (padded width n) ≡ true
unfolding padded
padded-is_field width n h =
    let all_digits = Digits-all (padded width n) (padded-Digits width n) in
    let long : length (padded width n) ≡ width =
      length-append (zeros (width - length (decimal n))) (decimal n)
      ∙ rw (length-zeros (width - length (decimal n))) (omega arith) in
    rw (long, all_digits) (ground (arith, ==_refl width))

read_ts-parts :
    (m s u : Text)
    → ¬ (m ≡ [])
    → Digits m
    → Digits s
    → is_field 2 s ≡ true
    → is_field 3 u ≡ true
    → read_ts (m ++ b':' ∷ (s ++ b'.' ∷ u))
      ≡ some ((value_from 0 m * 60 + value_from 0 s) * 1000 + value_from 0 u)
unfolding read_ts
read_ts-parts [] s u filled hm hs two three = absurd (filled refl)
read_ts-parts (c ∷ m) s u filled hm hs two three =
    let digits = Digits-all (c ∷ m) hm in
    rw (upto-stop b':' (c ∷ m) (s ++ b'.' ∷ u) refl hm) (
      rw (past-stop b':' (c ∷ m) (s ++ b'.' ∷ u) refl hm) (
        rw (upto-stop b'.' s u refl hs)
          (rw (past-stop b'.' s u refl hs) (rw (digits, two, three) refl))))

-- A reader that asks for two digits of seconds and three of milliseconds gets the milliseconds back
-- from the time stamp of a line.
pub read_ts-format_ts : (ms : ℕ) → read_ts (format_ts ms) ≡ some ms
unfolding format_ts
read_ts-format_ts ms =
    let total_s = ms / 1000 in
    read_ts-parts (decimal (total_s / 60)) (padded 2 (total_s % 60)) (padded 3 (ms % 1000))
      (decimal-ne-nil (total_s / 60)) (decimal-All_digits (total_s / 60))
      (padded-Digits 2 (total_s % 60))
      (padded-is_field 2 (total_s % 60) (length-decimal 1 (total_s % 60) (omega arith)))
      (padded-is_field 3 (ms % 1000) (length-decimal 2 (ms % 1000) (omega arith)))
    ∙ ap some (
        rw (value_from-decimal (total_s / 60)) (
          rw (value_from-padded 2 (total_s % 60))
            (rw (value_from-padded 3 (ms % 1000)) (omega arith))))
