-- ===== src/Vad/Merging.antt =====
-- `merge_adjacent_regions` leaves regions that are apart and cover what it was given.
use panops.Base.{
  All, All-mono, All-of-sort_by_key, Bool-cases, IsSortedBy, List, [], ap, arith, inl, inr, leb,
  max, refl, sort_by_key, sort_by_key-IsSortedBy, ℕ, ◌+◌, ◌-◌, ◌<◌, ◌∷◌, ◌≡◌, ◌≤◌, ◌⊎◌, subst, sym,
}
use panops.Vad.{SpeechRegion, merge_adjacent_regions, merge_loop, merge_sorted, start_of}

-- Each region starts more than the gap after the one before it ends.
abbrev pub Apart : ℕ → List SpeechRegion → Type 0
Apart gap_ms [] = Unit
Apart gap_ms (x ∷ []) = Unit
Apart gap_ms (x ∷ y ∷ ys) = (x.end_ms + gap_ms < y.start_ms) × Apart gap_ms (y ∷ ys)

abbrev pub Inside : List SpeechRegion → SpeechRegion → Type 0
Inside [] r = ⊥
Inside (x ∷ xs) r = ((x.start_ms ≤ r.start_ms) × (r.end_ms ≤ x.end_ms)) ⊎ Inside xs r

-- What the loop returns starts where its first region does, and keeps the regions apart.
merge_loop-head :
    (gap_ms : ℕ) (last : SpeechRegion) (rs : List SpeechRegion)
    → (x : SpeechRegion) × (xs : List SpeechRegion) × (merge_loop gap_ms last rs ≡ x ∷ xs)
      × (x.start_ms ≡ last.start_ms)
      × Apart gap_ms (x ∷ xs)
unfolding merge_loop
merge_loop-head gap_ms last [] = (last, [], refl, refl, tt)
merge_loop-head gap_ms last (r ∷ rs) = elim (Bool-cases (leb (r.start_ms - last.end_ms) gap_ms)) [
  | inl near ↦
      let grown : SpeechRegion = record last { end_ms = max last.end_ms r.end_ms } in
      rw near (merge_loop-head gap_ms grown rs)
  | inr far ↦
      let (y, ys, e, starts, apart) = merge_loop-head gap_ms r rs in
      (last, y ∷ ys, rw far (ap (λ l. last ∷ l) e), refl, (ground (arith, far, starts), apart))
]

Inside-mono :
    (out : List SpeechRegion) (r t : SpeechRegion)
    → r.start_ms ≤ t.start_ms
    → t.end_ms ≤ r.end_ms
    → Inside out r
    → Inside out t
Inside-mono [] r t s e h = absurd h
Inside-mono (x ∷ xs) r t s e (inl h) = inl (omega (arith, s, h.0), omega (arith, e, h.1))
Inside-mono (x ∷ xs) r t s e (inr h) = inr (Inside-mono xs r t s e h)

merge_loop-covers :
    (gap_ms : ℕ) (last : SpeechRegion) (rs : List SpeechRegion)
    → IsSortedBy start_of (last ∷ rs)
    → All (Inside (merge_loop gap_ms last rs)) (last ∷ rs)
unfolding merge_loop
merge_loop-covers gap_ms last [] s = (inl (omega arith, omega arith), tt)
merge_loop-covers gap_ms last (r ∷ rs) s =
    elim (Bool-cases (leb (r.start_ms - last.end_ms) gap_ms)) [
      | inl near ↦
          let grown : SpeechRegion = record last { end_ms = max last.end_ms r.end_ms } in
          let out = merge_loop gap_ms grown rs in
          let (first, others) = merge_loop-covers gap_ms grown rs (s.0.1, s.1.1) in
          let same : merge_loop gap_ms last (r ∷ rs) ≡ out = rw near refl in
          subst (λ o. All (Inside o) (last ∷ r ∷ rs)) (sym same)
            (
              Inside-mono out grown last (omega arith) (omega arith) first,
              (Inside-mono out grown r s.0.0 (omega arith) first, others),
            )
      | inr far ↦
          let same : merge_loop gap_ms last (r ∷ rs) ≡ last ∷ merge_loop gap_ms r rs =
            rw far refl in
          subst (λ o. All (Inside o) (last ∷ r ∷ rs)) (sym same)
            (
              inl (omega arith, omega arith),
              All-mono _ _ (r ∷ rs) (λ t h. inr h) (merge_loop-covers gap_ms r rs s.1),
            )
    ]

-- The regions that are returned are more than the gap apart, and each given region lies inside one
-- of them.
pub merge_adjacent_regions-Apart :
    (regions : List SpeechRegion) (gap_ms : ℕ)
    → Apart gap_ms (merge_adjacent_regions regions gap_ms)
      × All (Inside (merge_adjacent_regions regions gap_ms)) regions
unfolding merge_adjacent_regions merge_sorted
merge_adjacent_regions-Apart regions gap_ms =
    let sorted = sort_by_key start_of regions in
    (
      merge_sorted-Apart sorted,
      All-of-sort_by_key start_of _ regions
          (merge_sorted-covers sorted (sort_by_key-IsSortedBy start_of regions)),
    )
  where
    merge_sorted-Apart : (rs : List SpeechRegion) → Apart gap_ms (merge_sorted gap_ms rs)
    merge_sorted-Apart [] = tt
    merge_sorted-Apart (r ∷ rs) =
        let (x, xs, e, starts, apart) = merge_loop-head gap_ms r rs in rw e apart

    merge_sorted-covers :
        (rs : List SpeechRegion) → IsSortedBy start_of rs → All (Inside (merge_sorted gap_ms rs)) rs
    merge_sorted-covers [] s = tt
    merge_sorted-covers (r ∷ rs) s = merge_loop-covers gap_ms r rs s
