-- ===== src/Models/Progress.antt =====
-- What crates/panops-portable/src/model.rs says of a download that is under way, in whole numbers.
use native.Mathlib.Nat.{div-add-mod', le_of_mul-le-mul_right, mul-le-mul_right}
use native.Mathlib.Omega.{mod_fact}
use panops.Base.{
  refl, zero, suc, leb→le, ◌<◌, Bool-cases, Option, Text, codes, decimal, if◌then◌else◌, inl, inr,
  leb, none, some, suc, ℕ, ◌%◌, ◌*◌, ◌++◌, ◌+◌, ◌-◌, ◌/◌, ◌<◌, ◌==◌, ◌||◌, ◌≡◌, ◌≤◌, ◌⊎◌, all,
  arith,
}

unfoldable pub eta_secs : ℕ → ℕ → ℕ → Option ℕ
eta_secs done total bytes_per_sec =
    if leb total done
    then some 0
    else if total == 0 || bytes_per_sec == 0
    then none
    else some
        ((total - done) / bytes_per_sec + (if (total - done) % bytes_per_sec == 0 then 0 else 1))

unfoldable pub format_duration_secs : ℕ → Text
format_duration_secs seconds =
    if seconds / 60 == 0
    then decimal (seconds % 60) ++ codes "s"
    else decimal (seconds / 60) ++ (codes "m " ++ (decimal (seconds % 60) ++ codes "s"))

abbrev IsCeiling : ℕ → ℕ → ℕ → Type 0
IsCeiling rest rate n = (rest ≤ n * rate) × ((m : ℕ) → rest ≤ m * rate → n ≤ m)

ceiling_lem :
    (rest k : ℕ) → IsCeiling rest (suc k) (rest / suc k + (if rest % suc k == 0 then 0 else 1))
ceiling_lem rest k =
    let whole_part = div-add-mod' rest (suc k) in
    let small = mod_fact rest k in
    elim (Bool-cases (rest % suc k == 0)) [
      | inl whole ↦
          let none_left : rest % suc k ≡ 0 = ground arith in
          let exact : rest / suc k * suc k ≡ rest = omega (arith, whole_part, none_left) in
          rw whole (
            omega (arith, exact),
            λ m h.
                let fits : rest / suc k ≤ m =
                  le_of_mul-le-mul_right {k = suc k} (omega (arith, exact)) (omega arith) in
                omega (arith, fits),
          )
      | inr part ↦
          let some_left : 0 < rest % suc k = ground arith in
          rw part (
            omega (arith, whole_part, small),
            λ m h. elim (Bool-cases (leb m (rest / suc k))) [
              | inr above ↦ ground arith
              | inl below ↦
                  let short = mul-le-mul_right (suc k) (leb→le m (rest / suc k) below) in
                  absurd (omega (arith, short, whole_part, some_left))
            ],
          )
    ]

-- The time that is left at a rate is the least whole number of seconds in which the rest comes in; it
-- is not known exactly if there is a rest and nothing comes in.
pub eta_secs-IsLeast :
    (done total rate : ℕ)
    → ((eta_secs done total rate ≡ none) × (done < total) × (rate ≡ 0))
      ⊎ ((n : ℕ) × (eta_secs done total rate ≡ some n)
          × (total ≤ done + n * rate)
          × ((m : ℕ) → total ≤ done + m * rate → n ≤ m))
unfolding eta_secs
eta_secs-IsLeast done total zero = elim (Bool-cases (leb total done)) [
  | inl all ↦ inr (0, rw all refl, ground arith, λ m h. omega arith)
  | inr part ↦ inl (ground arith, ground arith, refl)
]
eta_secs-IsLeast done total (suc k) = elim (Bool-cases (leb total done)) [
  | inl all ↦ inr (0, rw all refl, ground arith, λ m h. omega arith)
  | inr part ↦
      let (enough, least) = ceiling_lem (total - done) k in
      let n = (total - done) / suc k + (if (total - done) % suc k == 0 then 0 else 1) in
      inr (n, ground arith, omega (arith, enough), λ m h. least m (omega arith))
]
