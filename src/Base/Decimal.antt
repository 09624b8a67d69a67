-- ===== src/Base/Decimal.antt =====
-- Unsigned decimal numbers, as `Display` writes and `parse` reads them.
use panops.Base.Tests.{Bool-cases, if◌then◌else◌, leb, ltb}
use panops.Base.Lists.{All, All-append, length, length-append}
use panops.Base.Bytes.{Text}
use Prim.Native.Nat.{ℕ, zero, suc, ◌+◌, ◌-◌, ◌*◌, ◌/◌, ◌%◌, ◌<◌, ◌≤◌}
use mathlib.Core.Path.{◌≡◌, refl, ◌∙◌, ap, sym}
use mathlib.Core.Logic.{inl, inr}
use mathlib.Core.Bool.{Bool, true, false, ◌&&◌}
use mathlib.Core.List.{[], ◌∷◌, ◌++◌}
use native.Mathlib.Omega.{arith}

abbrev pub is_digit : ℕ → Bool
is_digit c = leb b'0' c && leb c b'9'

digits : ℕ → ℕ → Text
digits zero n = []
digits (suc fuel) n =
    let rest = digits fuel (n / 10) in (if ltb n 10 then [] else rest) ++ (b'0' + n % 10) ∷ []

-- `n` has at most `n + 1` digits.
unfoldable pub decimal : ℕ → Text
unfolding digits
decimal n = digits (suc n) n

unfoldable pub value_from : ℕ → Text → ℕ
value_from acc [] = acc
value_from acc (c ∷ cs) = value_from (acc * 10 + (c - b'0')) cs

value_from-append :
    (acc : ℕ) (s t : Text) → value_from acc (s ++ t) ≡ value_from (value_from acc s) t
unfolding value_from
value_from-append acc [] t = refl
value_from-append acc (c ∷ s) t = value_from-append (acc * 10 + (c - b'0')) s t

value_from-digits : (fuel n : ℕ) → n < fuel → value_from 0 (digits fuel n) ≡ n
unfolding value_from digits
value_from-digits zero n h = absurd (omega arith)
value_from-digits (suc fuel) n h = elim (Bool-cases (ltb n 10)) [
  | inl small ↦ rw small (ground arith)
  | inr large ↦ rw large (
      value_from-append 0 (digits fuel (n / 10)) ((b'0' + n % 10) ∷ [])
      ∙ rw (value_from-digits fuel (n / 10) (ground arith)) (omega arith))
]

-- Reading what was written gives the number back.
pub value_from-decimal : (n : ℕ) → value_from 0 (decimal n) ≡ n
unfolding decimal
value_from-decimal n = value_from-digits (suc n) n (omega arith)

pub decimal-injective : (m n : ℕ) → decimal m ≡ decimal n → m ≡ n
decimal-injective m n e = sym (value_from-decimal m) ∙ ap (value_from 0) e ∙ value_from-decimal n

All-digits : (fuel n : ℕ) → All (λ c. is_digit c ≡ true) (digits fuel n)
unfolding digits
All-digits zero n = tt
All-digits (suc fuel) n =
    All-append _ (if ltb n 10 then [] else digits fuel (n / 10)) ((b'0' + n % 10) ∷ [])
      (elim (ltb n 10)
        as (λ b. All (λ c. is_digit c ≡ true) (if b then [] else digits fuel (n / 10))) [
          | true ↦ tt
          | false ↦ All-digits fuel (n / 10)
        ])
      (ground arith, tt)

pub decimal-All_digits : (n : ℕ) → All (λ c. is_digit c ≡ true) (decimal n)
unfolding decimal
decimal-All_digits n = All-digits (suc n) n

pub decimal-ne-nil : (n : ℕ) → ¬ (decimal n ≡ [])
unfolding decimal digits
decimal-ne-nil n e = elim (Bool-cases (ltb n 10)) [
  | inl small ↦ cc (rw small at e)
  | inr large ↦ absurd (snoc-ne-nil (digits n (n / 10)) (b'0' + n % 10) (rw large at e))
]
  where
    snoc-ne-nil : (s : Text) (c : ℕ) → ¬ (s ++ c ∷ [] ≡ [])
    snoc-ne-nil [] c e = cc
    snoc-ne-nil (d ∷ s) c e = cc

abbrev pub pow10 : ℕ → ℕ
pow10 zero = 1
pow10 (suc k) = 10 * pow10 k

length-digits : (w fuel n : ℕ) → n < pow10 (suc w) → length (digits fuel n) ≤ suc w
unfolding digits
length-digits w zero n h = omega arith
length-digits zero (suc fuel) n h = ground arith
length-digits (suc w) (suc fuel) n h = elim (Bool-cases (ltb n 10)) [
  | inl small ↦ rw small (omega arith)
  | inr large ↦ rw large (
      rw (length-append (digits fuel (n / 10)) ((b'0' + n % 10) ∷ []))
        (omega (arith, length-digits w fuel (n / 10) (omega (arith, h)))))
]

-- A number has at most as many digits as the power of ten that it is below.
pub length-decimal : (w n : ℕ) → n < pow10 (suc w) → length (decimal n) ≤ suc w
unfolding decimal
length-decimal w n h = length-digits w (suc n) n h
