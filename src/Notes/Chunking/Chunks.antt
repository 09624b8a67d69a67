-- ===== src/Notes/Chunking/Chunks.antt =====
-- The chunks are the section, in order, and as small as the limit where they can be.
use panops.Base.{
  All, All-append, Bool-cases, List, [], ap, append-nil, append_assoc, arith, concat, concat-append,
  false, inl, inr, leb, length, ltb, not, refl, sym, true, ℕ, ◌&&◌, ◌++◌, ◌+◌, ◌∙◌, ◌∷◌, ◌≡◌, ◌≤◌,
  ◌⊎◌,
}
use panops.Transcript.{Segment}
use panops.Notes.Chunking.{
  Split, estimate_transcript_chars, finish, flush, flush_at_boundary, flush_full, is_boundary,
  is_empty, push, seg_chars, split_loop, split_segments_for_chunking, nothing_yet,
}

-- Not empty, and within the limit unless it is a single segment.
abbrev pub Fits : ℕ → List Segment → Type 0
Fits max_chars c =
    (is_empty c ≡ false) × ((estimate_transcript_chars c ≤ max_chars) ⊎ (length c ≡ 1))

estimate-append :
    (xs ys : List Segment)
    → estimate_transcript_chars (xs ++ ys)
      ≡ estimate_transcript_chars xs + estimate_transcript_chars ys
unfolding estimate_transcript_chars
estimate-append [] ys = omega arith
estimate-append (x ∷ xs) ys = omega (arith, estimate-append xs ys)

-- What the loop has at hand: everything so far in order, and chunks that fit.
record IsSplit (max_chars : ℕ) (done : List Segment) (st : Split) : Type 0 where
  whole : concat st.chunks ++ st.current ≡ done
  chunks_fit : All (Fits max_chars) st.chunks
  current_fits : (st.current ≡ []) ⊎ Fits max_chars st.current
  counted : st.current_chars ≡ estimate_transcript_chars st.current

concat-flush :
    (cs : List (List Segment)) (c : List Segment) → concat (cs ++ c ∷ []) ++ [] ≡ concat cs ++ c
concat-flush cs c =
    append-nil _ ∙ concat-append cs (c ∷ []) ∙ ap (λ r. concat cs ++ r) (append-nil c)

flush-IsSplit :
    (max_chars : ℕ) (done : List Segment) (st : Split)
    → IsSplit max_chars done st
    → is_empty st.current ≡ false
    → IsSplit max_chars done (flush st)
unfolding estimate_transcript_chars
flush-IsSplit max_chars done st i filled = record {
  whole = concat-flush st.chunks st.current ∙ i.whole;
  chunks_fit =
      All-append _ st.chunks (st.current ∷ []) i.chunks_fit
        (elim i.current_fits [ inl e ↦ cc (rw e at filled) | inr f ↦ (f, tt) ]);
  current_fits = inl refl;
  counted = refl;
}

-- There is room for the segment.
abbrev Ready : ℕ → Segment → Split → Type 0
Ready max_chars seg st = (st.current ≡ []) ⊎ (st.current_chars + seg_chars seg ≤ max_chars)

empty_nil : (c : List Segment) → is_empty c ≡ true → c ≡ []
empty_nil [] e = refl
empty_nil (s ∷ ss) e = cc

flush_full-IsSplit :
    (max_chars : ℕ) (seg : Segment) (done : List Segment) (st : Split)
    → IsSplit max_chars done st
    → IsSplit max_chars done (flush_full max_chars seg st)
      × Ready max_chars seg (flush_full max_chars seg st)
unfolding flush_full
flush_full-IsSplit max_chars seg done st i = elim (Bool-cases (is_empty st.current)) [
  | inl nil ↦
      let stays : flush_full max_chars seg st ≡ st = ground (arith, nil) in
      rw stays (i, inl (empty_nil st.current nil))
  | inr filled ↦ elim (Bool-cases (ltb max_chars (st.current_chars + seg_chars seg))) [
    | inl full ↦ rw (full, filled, flush_full) (flush-IsSplit max_chars done st i filled, inl refl)
    | inr room ↦ rw (room, flush_full) (i, inr (ground (arith, room)))
  ]
]

flush_at_boundary-IsSplit :
    (target_chars max_chars : ℕ) (seg : Segment) (done : List Segment) (st : Split)
    → IsSplit max_chars done st
    → Ready max_chars seg st
    → IsSplit max_chars done (flush_at_boundary target_chars seg st)
      × Ready max_chars seg (flush_at_boundary target_chars seg st)
unfolding flush_at_boundary
flush_at_boundary-IsSplit target_chars max_chars seg done st i r =
    elim (Bool-cases (
      leb target_chars st.current_chars
      && (not (is_empty st.current) && is_boundary st.current seg))) [
        | inl flushes ↦
            rw (flushes, flush_at_boundary)
              (flush-IsSplit max_chars done st i (ground (arith, flushes)), inl refl)
        | inr stays ↦ rw (stays, flush_at_boundary) (i, r)
      ]

push-Fits :
    (max_chars : ℕ) (seg : Segment) (c : List Segment)
    → (c ≡ []) ⊎ (estimate_transcript_chars c + seg_chars seg ≤ max_chars)
    → Fits max_chars (c ++ seg ∷ [])
unfolding estimate_transcript_chars
push-Fits max_chars seg c (inl e) = rw e (refl, inr refl)
push-Fits max_chars seg [] (inr h) = (refl, inr refl)
push-Fits max_chars seg (s ∷ ss) (inr h) =
    (refl, inl (omega (arith, h, estimate-append ss (seg ∷ []))))

push-IsSplit :
    (max_chars : ℕ) (seg : Segment) (done : List Segment) (st : Split)
    → IsSplit max_chars done st
    → Ready max_chars seg st
    → IsSplit max_chars (done ++ seg ∷ []) (push seg st)
unfolding estimate_transcript_chars
push-IsSplit max_chars seg done st i r = record {
  whole =
      sym (append_assoc (concat st.chunks) st.current (seg ∷ [])) ∙ ap (λ d. d ++ seg ∷ []) i.whole;
  chunks_fit = i.chunks_fit;
  current_fits = inr (push-Fits max_chars seg st.current (rw i.counted at r));
  counted = omega (arith, i.counted, estimate-append st.current (seg ∷ []));
}

split_loop-IsSplit :
    (target_chars max_chars : ℕ) (segs done : List Segment) (st : Split)
    → IsSplit max_chars done st
    → IsSplit max_chars (done ++ segs) (split_loop target_chars max_chars segs st)
unfolding split_loop
split_loop-IsSplit target_chars max_chars [] done st i = rw (append-nil done) i
split_loop-IsSplit target_chars max_chars (seg ∷ segs) done st i =
    let (i1, r1) = flush_full-IsSplit max_chars seg done st i in
    let (i2, r2) =
      flush_at_boundary-IsSplit target_chars max_chars seg done (flush_full max_chars seg st) i1
        r1 in
    let next = push seg (flush_at_boundary target_chars seg (flush_full max_chars seg st)) in
    rw⁻¹ (append_assoc done (seg ∷ []) segs) (
      split_loop-IsSplit target_chars max_chars segs (done ++ seg ∷ []) next (
        push-IsSplit max_chars seg done
          (flush_at_boundary target_chars seg (flush_full max_chars seg st)) i2 r2))

abbrev AreChunks : ℕ → List Segment → List (List Segment) → Type 0
AreChunks max_chars segments chunks = (concat chunks ≡ segments) × All (Fits max_chars) chunks

finish-AreChunks :
    (max_chars : ℕ) (done : List Segment) (st : Split)
    → IsSplit max_chars done st
    → AreChunks max_chars done (finish st)
finish-AreChunks max_chars done st i = elim (Bool-cases (is_empty st.current)) [
  | inl nil ↦ rw nil (
    sym (append-nil (concat st.chunks))
        ∙ ap (λ c. concat st.chunks ++ c) (sym (empty_nil st.current nil))
        ∙ i.whole,
    i.chunks_fit,
  )
  | inr filled ↦
      let j = flush-IsSplit max_chars done st i filled in
      rw filled (sym (append-nil _) ∙ j.whole, j.chunks_fit)
]

-- The chunks that `split_segments_for_chunking` returns, one after another, are the section. No
-- chunk is empty, and a chunk of more than one segment is estimated at no more than the limit.
pub split_segments_for_chunking-AreChunks :
    (segments : List Segment) (target_chars max_chars : ℕ)
    → (concat (split_segments_for_chunking segments target_chars max_chars) ≡ segments)
      × All (Fits max_chars) (split_segments_for_chunking segments target_chars max_chars)
unfolding split_segments_for_chunking estimate_transcript_chars
split_segments_for_chunking-AreChunks [] target_chars max_chars = (refl, tt)
split_segments_for_chunking-AreChunks (s ∷ ss) target_chars max_chars =
    elim (Bool-cases (leb (estimate_transcript_chars (s ∷ ss)) max_chars)) [
      | inl small ↦ rw small (append-nil (s ∷ ss), ((refl, inl (ground (arith, small))), tt))
      | inr large ↦ rw large (
          finish-AreChunks max_chars (s ∷ ss) _ (
            split_loop-IsSplit target_chars max_chars (s ∷ ss) [] nothing_yet
              (record { whole = refl; chunks_fit = tt; current_fits = inl refl; counted = refl })))
    ]
