-- ===== src/Transcript/Float.antt =====
-- IEEE 754 single precision by bit pattern: the comparisons that the program makes, and the
-- operations with rounding as an interface.
use panops.Base.{Bool, if◌then◌else◌, ltb, not, u32_mod, ℕ, ◌%◌, ◌&&◌, ◌+◌, ◌-◌}

abbrev sign_bit : ℕ
sign_bit = 2_147_483_648

-- A pattern's place in the numeric order; both zeros have the same.
f32_value : ℕ → ℕ
f32_value b = if ltb b sign_bit then sign_bit + b else sign_bit - (b - sign_bit)

f32_is_nan : ℕ → Bool
f32_is_nan b = ltb 2_139_095_040 (b % sign_bit)

-- `a < b` on `f32`: false where either is not a number.
unfoldable pub f32_lt : ℕ → ℕ → Bool
unfolding f32_value f32_is_nan
f32_lt a b = not (f32_is_nan a) && (not (f32_is_nan b) && ltb (f32_value a) (f32_value b))

-- `f32::total_cmp` compares these.
unfoldable pub total_key : ℕ → ℕ
total_key b = if ltb b sign_bit then sign_bit + b else u32_mod - 1 - b

-- The two operations that round: a number as `f32`, and division.
pub record Rounding : Type 0 where
  pub of_u64 : ℕ → ℕ
  pub div : ℕ → ℕ → ℕ

-- 0.10, 0.5 and 0.0.
abbrev pub f32_tenth : ℕ
f32_tenth = 0x3DCCCCCD

abbrev pub f32_half : ℕ
f32_half = 0x3F000000

abbrev pub f32_zero : ℕ
f32_zero = 0
