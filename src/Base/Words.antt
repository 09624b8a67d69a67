-- ===== src/Base/Words.antt =====
-- Machine integers as numbers below their modulus. Release builds of the program have no overflow
-- checks, so `+` and `-` on `u64` wrap around.
use Prim.Native.Nat.{ℕ, ◌+◌, ◌-◌, ◌%◌}

abbrev pub u64_mod : ℕ
u64_mod = 18_446_744_073_709_551_616

abbrev pub u32_mod : ℕ
u32_mod = 4_294_967_296

abbrev pub add64 : ℕ → ℕ → ℕ
add64 a b = (a + b) % u64_mod

abbrev pub sub64 : ℕ → ℕ → ℕ
sub64 a b = (a + u64_mod - b) % u64_mod
