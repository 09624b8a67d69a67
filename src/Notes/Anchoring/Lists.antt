-- ===== src/Notes/Anchoring/Lists.antt =====
-- `anchor_screenshots` gives each section its own screenshots in order, and loses none.
use mathlib.Core.List.{Perm, perm_middle}
use mathlib.Core.List.Perm
use panops.Base.{
  All, Bool-cases, List, [], ap, append-nil, append_assoc, arith, concat, get_elem?, inl, inr, keep,
  length, refl, some, some_inj, suc, u64_mod, zero, ℕ, ◌++◌, ◌<◌, ◌==◌, ◌∙◌, ◌∷◌, ◌≡◌, ◌≢◌, ==_iff,
  length-map,
}
use panops.Notes.Topics.{RawSection}
use panops.Notes.Anchoring.{
  Screenshot, anchor_loop, push_at, section_for_timestamp, anchor_screenshots, empty_lists,
}
use panops.Notes.Anchoring.Nearest.{section_for_timestamp-lt}

push_at-get_self :
    (out : List (List Screenshot)) (i : ℕ) (a : Screenshot) {xs : List Screenshot}
    → get_elem? out i ≡ some xs
    → get_elem? (push_at out i a) i ≡ some (xs ++ a ∷ [])
unfolding push_at
push_at-get_self [] i a e = cc
push_at-get_self (ys ∷ out) zero a e = ap (λ zs. some (zs ++ a ∷ [])) (some_inj e)
push_at-get_self (ys ∷ out) (suc i) a e = push_at-get_self out i a e

push_at-get_at :
    (out : List (List Screenshot)) (i j : ℕ) (a : Screenshot) {xs : List Screenshot}
    → i ≡ j
    → get_elem? out j ≡ some xs
    → get_elem? (push_at out i a) j ≡ some (xs ++ a ∷ [])
push_at-get_at out i j a same e = rw same (push_at-get_self out j a e)

push_at-get_ne :
    (out : List (List Screenshot)) (i j : ℕ) (a : Screenshot)
    → i ≢ j
    → get_elem? (push_at out i a) j ≡ get_elem? out j
unfolding push_at
push_at-get_ne [] i j a h = refl
push_at-get_ne (ys ∷ out) zero zero a h = absurd (h refl)
push_at-get_ne (ys ∷ out) zero (suc j) a h = refl
push_at-get_ne (ys ∷ out) (suc i) zero a h = refl
push_at-get_ne (ys ∷ out) (suc i) (suc j) a h = push_at-get_ne out i j a (λ e. h (ap suc e))

push_at-perm :
    (out : List (List Screenshot)) (i : ℕ) (a : Screenshot)
    → i < length out
    → Perm (concat (push_at out i a)) (a ∷ concat out)
unfolding push_at
push_at-perm [] i a h = absurd (omega arith)
push_at-perm (ys ∷ out) zero a h =
    rw (append_assoc ys (a ∷ []) (concat out)) (perm_middle ys (concat out))
push_at-perm (ys ∷ out) (suc i) a h =
    Perm.trans (Perm.append_left ys (push_at-perm out i a (omega arith)))
      (perm_middle ys (concat out))

push_at-length :
    (out : List (List Screenshot)) (i : ℕ) (a : Screenshot) → length (push_at out i a) ≡ length out
unfolding push_at
push_at-length [] i a = refl
push_at-length (ys ∷ out) zero a = refl
push_at-length (ys ∷ out) (suc i) a = ap suc (push_at-length out i a)

module _ (s : RawSection) (rest : List RawSection) where
  abbrev sections : List RawSection
  sections = s ∷ rest

  -- The screenshots of the section with index `j`.
  abbrev pub anchored_at : ℕ → List Screenshot → List Screenshot
  anchored_at j shots =
      keep (λ (x : Screenshot). section_for_timestamp (s ∷ rest) x.ms_since_start == j) shots

  anchor_loop-get :
      (shots : List Screenshot) (out : List (List Screenshot)) (j : ℕ) (xs : List Screenshot)
      → get_elem? out j ≡ some xs
      → get_elem? (anchor_loop sections shots out) j ≡ some (xs ++ anchored_at j shots)
  unfolding anchor_loop
  anchor_loop-get [] out j xs e = rw (append-nil xs) e
  anchor_loop-get (x ∷ shots) out j xs e =
      elim (Bool-cases (section_for_timestamp sections x.ms_since_start == j)) [
        | inl here ↦ rw here (
            rw (append_assoc xs (x ∷ []) (anchored_at j shots)) at (
              anchor_loop-get shots
                (push_at out (section_for_timestamp sections x.ms_since_start) x) j (xs ++ x ∷ [])
                (push_at-get_at out _ j x ((==_iff _ j).0 here) e)))
        | inr other ↦ rw other (
            anchor_loop-get shots (push_at out (section_for_timestamp sections x.ms_since_start) x)
              j xs (push_at-get_ne out _ j x (ground arith) ∙ e))
      ]

  anchor_loop-perm :
      (shots : List Screenshot) (out : List (List Screenshot))
      → length out ≡ length sections
      → All (λ (x : Screenshot). x.ms_since_start < u64_mod) shots
      → Perm (concat (anchor_loop sections shots out)) (shots ++ concat out)
  unfolding anchor_loop
  anchor_loop-perm [] out e h = Perm.rfl
  anchor_loop-perm (x ∷ shots) out e h =
      let i = section_for_timestamp sections x.ms_since_start in
      let fits = section_for_timestamp-lt s rest x.ms_since_start h.0 in
      Perm.trans (anchor_loop-perm shots (push_at out i x) (push_at-length out i x ∙ e) h.1) (
        Perm.trans (Perm.append_left shots (push_at-perm out i x (omega (arith, fits))))
          (perm_middle shots (concat out)))

  empty_lists-get :
      (ts : List RawSection) (j : ℕ) → j < length ts → get_elem? (empty_lists ts) j ≡ some []
  empty_lists-get [] j h = absurd (omega arith)
  empty_lists-get (t ∷ ts) zero h = refl
  empty_lists-get (t ∷ ts) (suc j) h = empty_lists-get ts j (omega arith)

  concat-empty_lists : (ts : List RawSection) → concat (empty_lists ts) ≡ []
  concat-empty_lists [] = refl
  concat-empty_lists (t ∷ ts) = concat-empty_lists ts

  -- With at least one section and timestamps of 64 bits: the list for the section with index `j`
  -- holds the screenshots whose timestamp chooses that index, in their order, and all lists together
  -- are a rearrangement of the screenshots.
  pub anchor_screenshots-lem :
      (shots : List Screenshot)
      → All (λ (x : Screenshot). x.ms_since_start < u64_mod) shots
      → (j : ℕ) → j < length (s ∷ rest)
      → (get_elem? (anchor_screenshots (s ∷ rest) shots) j ≡ some (anchored_at j shots))
        × Perm (concat (anchor_screenshots (s ∷ rest) shots)) shots
  unfolding anchor_screenshots
  anchor_screenshots-lem shots h j lt = (
    anchor_loop-get shots (empty_lists sections) j [] (empty_lists-get sections j lt),
    rw (append-nil shots) at (
        rw (concat-empty_lists sections) at
          (anchor_loop-perm shots (empty_lists sections) (length-map _ sections) h)),
  )
