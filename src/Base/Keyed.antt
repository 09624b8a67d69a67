-- ===== src/Base/Keyed.antt =====
-- A `HashMap` with integer keys as an association list, as in Maps for texts.
use panops.Base.Tests.{◌==◌, if◌then◌else◌}
use panops.Base.Lists.{All, keep}
use Prim.Native.Nat.{ℕ, ◌<◌, ◌+◌}
use mathlib.Core.Path.{◌≡◌, refl, ap}
use mathlib.Core.Bool.{not, false}
use mathlib.Core.Option.{Option, none, some}
use mathlib.Core.List.{List, [], ◌∷◌, map}
use native.Mathlib.Omega.{arith}

abbrev pub Rows {ℓ} : Type ℓ → Type ℓ
Rows V = List (ℕ × V)

module _ {ℓ} {V : Type ℓ} where
  unfoldable pub find_row : ℕ → Rows V → Option V
  find_row k [] = none
  find_row k ((j, v) ∷ m) = if j == k then some v else find_row k m

  unfoldable pub insert_row : ℕ → V → Rows V → Rows V
  insert_row k v m = (k, v) ∷ keep (λ e. not (e.0 == k)) m

  -- A write through `m.get_mut(k)`.
  unfoldable pub modify_row : ℕ → (V → V) → Rows V → Rows V
  modify_row k f [] = []
  modify_row k f ((j, v) ∷ m) = (j, (if j == k then f v else v)) ∷ modify_row k f m

  abbrev pub row_values : Rows V → List V
  row_values m = map (λ e. e.1) m

  -- Every key was given out before the counter's value.
  abbrev pub Before : ℕ → Rows V → Type 0
  Before next m = All (λ e. e.0 < next) m

  keep-Before : (next : ℕ) (m : Rows V) → Before next m → keep (λ e. not (e.0 == next)) m ≡ m
  keep-Before next [] h = refl
  keep-Before next ((j, v) ∷ m) h =
      let other : (j == next) ≡ false = ground (arith, h.0) in
      ground (arith, keep-Before next m h.1)

  -- Nothing is overwritten by a row under the next number.
  pub insert_row-next :
      (next : ℕ) (v : V) (m : Rows V) → Before next m → insert_row next v m ≡ (next, v) ∷ m
  unfolding insert_row
  insert_row-next next v m h = ap (λ r. (next, v) ∷ r) (keep-Before next m h)

  pub Before-later : (next : ℕ) (m : Rows V) → Before next m → Before (next + 1) m
  Before-later next [] h = tt
  Before-later next (e ∷ m) h = (ground (arith, h.0), Before-later next m h.1)

  pub Before-insert_row :
      (next : ℕ) (v : V) (m : Rows V) → Before next m → Before (next + 1) (insert_row next v m)
  unfolding insert_row
  Before-insert_row next v m h = (ground arith, drop_rows m (Before-later next m h))
    where
      drop_rows :
          (m : Rows V) → Before (next + 1) m → Before (next + 1) (keep (λ e. not (e.0 == next)) m)
      drop_rows [] h = tt
      drop_rows ((j, v) ∷ m) h = ground (arith, h.0, drop_rows m h.1)

  pub Before-modify_row :
      (next k : ℕ) (f : V → V) (m : Rows V) → Before next m → Before next (modify_row k f m)
  unfolding modify_row
  Before-modify_row next k f [] h = tt
  Before-modify_row next k f (e ∷ m) h = (h.0, Before-modify_row next k f m h.1)

  pub find_row-insert :
      (k j : ℕ) (v : V) (m : Rows V)
      → find_row j (insert_row k v m) ≡ (if k == j then some v else find_row j m)
  unfolding find_row insert_row
  find_row-insert k j v m = ground (arith, others m)
    where
      others :
          (m : Rows V) → (k == j) ≡ false → find_row j (keep (λ e. not (e.0 == k)) m) ≡ find_row j m
      others [] ne = refl
      others ((i, w) ∷ m) ne = ground (arith, others m ne)

  pub find_row-modify :
      (k j : ℕ) (f : V → V) (m : Rows V)
      → find_row j (modify_row k f m) ≡ (
          if k == j
          then elim (find_row j m) [ none ↦ none | some v ↦ some (f v) ]
          else find_row j m)
  unfolding find_row modify_row
  find_row-modify k j f [] = ground arith
  find_row-modify k j f ((i, v) ∷ m) = ground (arith, find_row-modify k j f m)
