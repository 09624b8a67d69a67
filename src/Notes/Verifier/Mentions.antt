-- ===== src/Notes/Verifier/Mentions.antt =====
-- What the check of attributions reports, and that no plain mention escapes it.
use panops.Base.{
  ==_iff, ==_refl, All, Bool, Bool-cases, List, Option-cases, Text, [], ap, arith, decimal,
  decimal-All_digits, decimal-ne-nil, false, inl, inr, is_digit, lt→ltb, none, not, refl, some,
  subst, true, u32_mod, value_from, value_from-decimal, ℕ, ◌&&◌, ◌++◌, ◌<◌, ◌==◌, ◌||◌, ◌∙◌, ◌∷◌,
  ◌≡◌,
}
use panops.Notes.Verifier.{
  ActionItem, VerifierReport, all_allowed, contains_id, disallowed_speakers, is_word,
  leading_digits, mention, note_id, note_ids, note_owners, owner_id, parse_u32, report, scan_from,
  scan_speaker_ids, speaker_prefix, strip_prefix, verify_section_attribution,
}

-- The ids that a section's owners refer to.
abbrev pub owner_ids : List ActionItem → List ℕ
owner_ids [] = []
owner_ids (item ∷ items) = elim (owner_id item) [
  | none ↦ owner_ids items
  | some id ↦ id ∷ owner_ids items
]

abbrev pub reported : VerifierReport → List ℕ
reported all_allowed = []
reported (disallowed_speakers ids) = ids

reported-report : (ids : List ℕ) → reported (report ids) ≡ ids
reported-report [] = refl
reported-report (id ∷ ids) = refl

-- `j` is reported if it was before, or if it is referred to and not allowed.
abbrev Reports : List ℕ → ℕ → List ℕ → List ℕ → List ℕ → Type 0
Reports allowed j before ids after =
    contains_id j after
    ≡ (contains_id j before || (contains_id j ids && not (contains_id j allowed)))

note_id-Reports :
    (allowed before : List ℕ) (id j : ℕ)
    → Reports allowed j before (id ∷ []) (note_id allowed before id)
note_id-Reports allowed before id j = elim (Bool-cases (id == j)) [
  | inl same ↦
      subst (λ k. Reports allowed k before (id ∷ []) (note_id allowed before id))
        ((==_iff id j).0 same) (ground (arith, ==_refl id))
  | inr other ↦ ground (arith, other)
]

note_ids-Reports :
    (allowed before ids : List ℕ) (j : ℕ)
    → Reports allowed j before ids (note_ids allowed before ids)
unfolding note_ids
note_ids-Reports allowed before [] j = ground arith
note_ids-Reports allowed before (id ∷ ids) j = ground (
  arith,
  note_id-Reports allowed before id j,
  note_ids-Reports allowed (note_id allowed before id) ids j,
)

note_owners-Reports :
    (allowed before : List ℕ) (items : List ActionItem) (j : ℕ)
    → Reports allowed j before (owner_ids items) (note_owners allowed before items)
unfolding note_owners
note_owners-Reports allowed before [] j = ground arith
note_owners-Reports allowed before (item ∷ items) j = elim (Option-cases (owner_id item)) [
  | inl e ↦ rw (e, owner_ids) (note_owners-Reports allowed before items j)
  | inr (id, e) ↦
      rw (e, owner_ids)
        (ground (
          arith,
          note_id-Reports allowed before id j,
          note_owners-Reports allowed (note_id allowed before id) items j,
        ))
]

reported_lem :
    (narrative_md : Text) (items : List ActionItem) (allowed : List ℕ) (j : ℕ)
    → contains_id j (reported (verify_section_attribution narrative_md items allowed)) ≡ (
        (contains_id j (scan_speaker_ids narrative_md) || contains_id j (owner_ids items))
        && not (contains_id j allowed))
unfolding verify_section_attribution
reported_lem narrative_md items allowed j =
    let first = note_ids allowed [] (scan_speaker_ids narrative_md) in
    rw (reported-report (note_owners allowed first items)) (
      ground (
        arith,
        note_ids-Reports allowed [] (scan_speaker_ids narrative_md) j,
        note_owners-Reports allowed first items j,
      ))

-- The narrative or an owner refers to the id, and it is not allowed.
abbrev pub is_disallowed : Text → List ActionItem → List ℕ → ℕ → Bool
is_disallowed narrative_md items allowed j =
    (contains_id j (scan_speaker_ids narrative_md) || contains_id j (owner_ids items))
    && not (contains_id j allowed)

-- Whether a word character stands at a text's end, or before it where it is empty.
abbrev pub ends_in_word : Bool → Text → Bool
ends_in_word after_word [] = after_word
ends_in_word after_word (c ∷ cs) = ends_in_word (is_word c) cs

abbrev pub starts_with_digit : Text → Bool
starts_with_digit [] = false
starts_with_digit (c ∷ cs) = is_digit c

leading_digits-append :
    (ds post : Text)
    → All (λ c. is_digit c ≡ true) ds
    → starts_with_digit post ≡ false
    → leading_digits (ds ++ post) ≡ ds
unfolding leading_digits
leading_digits-append [] [] h p = refl
leading_digits-append [] (c ∷ post) h p = rw p refl
leading_digits-append (d ∷ ds) post h p =
    rw h.0 (ap (λ r. d ∷ r) (leading_digits-append ds post h.1 p))

parse_u32-digits :
    (ds : Text) → ¬ (ds ≡ []) → value_from 0 ds < u32_mod → parse_u32 ds ≡ some (value_from 0 ds)
unfolding parse_u32
parse_u32-digits [] filled h = absurd (filled refl)
parse_u32-digits (d ∷ ds) filled h = rw (lt→ltb _ _ h) refl

parse_u32-decimal : (n : ℕ) → n < u32_mod → parse_u32 (decimal n) ≡ some n
parse_u32-decimal n h =
    parse_u32-digits (decimal n) (decimal-ne-nil n) (rw (value_from-decimal n) h)
    ∙ ap some (value_from-decimal n)

mention-decimal :
    (n : ℕ) (post : Text)
    → n < u32_mod
    → starts_with_digit post ≡ false
    → mention (speaker_prefix ++ decimal n ++ post) ≡ some n
unfolding mention strip_prefix
mention-decimal n post h p =
    rw (leading_digits-append (decimal n) post (decimal-All_digits n) p) (parse_u32-decimal n h)

scan-head :
    (c : ℕ) (cs : Text) (id : ℕ)
    → mention (c ∷ cs) ≡ some id
    → contains_id id (scan_from false (c ∷ cs)) ≡ true
unfolding scan_from
scan-head c cs id e = rw (e, scan_from) (ground (arith, ==_refl id))

scan-tail :
    (after_word : Bool) (c : ℕ) (cs : Text) (id : ℕ)
    → contains_id id (scan_from (is_word c) cs) ≡ true
    → contains_id id (scan_from after_word (c ∷ cs)) ≡ true
unfolding scan_from
scan-tail after_word c cs id h = ground arith

no_mention : (n : ℕ) → ¬ (mention [] ≡ some n)
unfolding mention strip_prefix
no_mention n e = cc

scan-finds :
    (after_word : Bool) (pre t : Text) (n : ℕ)
    → mention t ≡ some n
    → ends_in_word after_word pre ≡ false
    → contains_id n (scan_from after_word (pre ++ t)) ≡ true
scan-finds after_word [] [] n e w = absurd (no_mention n e)
scan-finds after_word [] (c ∷ cs) n e w = rw w (scan-head c cs n e)
scan-finds after_word (c ∷ pre) t n e w =
    scan-tail after_word c (pre ++ t) n (scan-finds (is_word c) pre t n e w)

-- Wherever `speaker_n` stands in the narrative, for an `n` below 2^32 that is not allowed, with no
-- word character before it and no digit after it, `n` is reported.
pub verify_section_attribution-mention :
    (pre : Text) (n : ℕ) (post : Text) (items : List ActionItem) (allowed : List ℕ)
    → n < u32_mod
    → ends_in_word false pre ≡ false
    → starts_with_digit post ≡ false
    → contains_id n allowed ≡ false
    → contains_id n (
        reported
          (verify_section_attribution (pre ++ (speaker_prefix ++ decimal n ++ post)) items allowed))
      ≡ true
unfolding scan_speaker_ids
verify_section_attribution-mention pre n post items allowed h w p bad =
    let narrative_md = pre ++ (speaker_prefix ++ decimal n ++ post) in
    let found : contains_id n (scan_speaker_ids narrative_md) ≡ true =
      scan-finds false pre (speaker_prefix ++ decimal n ++ post) n (mention-decimal n post h p) w in
    reported_lem narrative_md items allowed n ∙ rw (found, bad) refl
