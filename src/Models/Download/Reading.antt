-- ===== src/Models/Download/Reading.antt =====
-- The loop of reads of a download: it ends, and what it leaves.
use panops.Base.{
  Text, false, length, length-append, lookup, lookup-modify, ok, refl, some, text_eq, text_eq_refl,
  ℕ, ◌++◌, ◌+◌, ◌∙◌, ◌≡◌, ◌≤◌, Bool-cases, Option-cases, Result-cases, [], arith, codes, err, inl,
  inr, lookup-remove, ltb, ok_inj, some_inj, suc, sym, zero, ◌<◌, ◌∷◌, ap, subst, append_assoc,
  append-nil,
}
use panops.Asr.{AsrError}
use panops.Models.{File, Files, Host, Response, Step, remove_quietly, with_message}
use panops.Models.Download.{append_to, download_size_limit, download_loop, exceeded, take}

-- A read fills at most the buffer.
abbrev pub IsBuffered : Response → Type 0
IsBuffered reader = (k : ℕ) (buf : Text) → reader.read k ≡ ok buf → length buf ≤ 65536

-- From the k-th read on, the response gives pieces that make up this text, and then its end.
abbrev pub Rest : Response → ℕ → ℕ → Text → Type 0
Rest reader k zero t = (reader.read k ≡ ok []) × (t ≡ [])
Rest reader k (suc m) t =
    (buf : Text) × (rest : Text) × (reader.read k ≡ ok buf)
    × (t ≡ buf ++ rest)
    × Rest reader (suc k) m rest

-- The whole body of the response.
abbrev pub IsBody : Response → Text → Type 0
IsBody reader t = (m : ℕ) × Rest reader 0 m t

-- The file that is being written, and what it holds.
abbrev pub Holds : Text → Text → Files → Type 0
Holds path t files = (f : File) × (lookup path files ≡ some f) × (f.contents ≡ t)

-- What the loop of reads leaves, from these files, before its k-th read and with `pre` in the file.
pub record Received (reader : Response) (tmp : Text) (k : ℕ) (pre : Text) (files : Files)
    (r : Step ℕ) : Type 0 where
  pub others : (j : Text) → text_eq tmp j ≡ false → lookup j r.1 ≡ lookup j files
  pub bounded :
      (f : File)
      → lookup tmp r.1 ≡ some f
      → length f.contents ≤ download_size_limit reader.content_length + 65536
  pub whole :
      (n : ℕ)
      → r.0 ≡ ok n
      → (rest : Text) × (m : ℕ) × Rest reader k m rest
        × Holds tmp (pre ++ rest) r.1
        × (length (pre ++ rest) ≡ n)

length-take : (n : ℕ) (s : Text) → length (take n s) ≤ length s
length-take zero s = omega arith
length-take (suc n) [] = omega arith
length-take (suc n) (c ∷ s) = omega (arith, length-take n s)

append-Holds :
    (host : Host) (tmp buf : Text) (files : Files) (t : Text)
    → Holds tmp t files
    → Holds tmp (t ++ buf) (append_to host tmp buf files)
unfolding append_to
append-Holds host tmp buf files t (f, there, e) = (
  record { contents = f.contents ++ buf; mtime = host.now },
  lookup-modify tmp tmp _ files ∙ rw (text_eq_refl tmp) (rw there refl),
  ap (λ x. x ++ buf) e,
)

append-others :
    (host : Host) (tmp buf : Text) (files : Files) (j : Text)
    → text_eq tmp j ≡ false
    → lookup j (append_to host tmp buf files) ≡ lookup j files
unfolding append_to
append-others host tmp buf files j h = lookup-modify tmp j _ files ∙ rw h refl

-- The loop stops with an error, and with this in the file.
stops :
    (reader : Response) (tmp : Text) (k : ℕ) (pre t : Text) (files files' : Files) (e : AsrError)
    → Holds tmp t files'
    → length t ≤ download_size_limit reader.content_length + 65536
    → ((j : Text) → text_eq tmp j ≡ false → lookup j files' ≡ lookup j files)
    → Received reader tmp k pre files (err e, files')
stops reader tmp k pre t files files' e (f, there, same) small others = record {
  others = others;
  bounded = λ f' there'. rw (← (some_inj (sym there ∙ there'))) (rw same small);
  whole = λ m h. cc;
}

removed :
    (host : Host) (reader : Response) (tmp : Text) (k : ℕ) (pre t : Text) (files files' : Files)
    (e : AsrError)
    → Holds tmp t files'
    → length t ≤ download_size_limit reader.content_length + 65536
    → ((j : Text) → text_eq tmp j ≡ false → lookup j files' ≡ lookup j files)
    → Received reader tmp k pre files (err e, remove_quietly host tmp files')
unfolding remove_quietly
removed host reader tmp k pre t files files' e held small others =
    elim (Option-cases (host.remove_file tmp)) [
      | inr (m, failure) ↦
          rw (failure, remove_quietly) (stops reader tmp k pre t files files' e held small others)
      | inl fine ↦
          rw (fine, remove_quietly)
            (record {
              others = λ j h. lookup-remove tmp j files' ∙ rw h (others j h);
              bounded = λ f h. cc (rw (lookup-remove tmp tmp files', text_eq_refl tmp) at h);
              whole = λ m h. cc;
            })
    ]

-- One more piece before what a later read leaves.
later :
    (reader : Response) (tmp : Text) (k : ℕ) (pre buf : Text) (files written : Files) (r : Step ℕ)
    → reader.read k ≡ ok buf
    → ((j : Text) → text_eq tmp j ≡ false → lookup j written ≡ lookup j files)
    → Received reader tmp (suc k) (pre ++ buf) written r
    → Received reader tmp k pre files r
later reader tmp k pre buf files written r got others received = record {
  others = λ j h. received.others j h ∙ others j h;
  bounded = received.bounded;
  whole = λ n h.
      let (rest, m, more, held, long) = received.whole n h in
      let same = append_assoc pre buf rest in
      (
        buf ++ rest,
        suc m,
        (buf, rest, got, refl, more),
        subst (λ t. Holds tmp t r.1) same held,
        subst (λ t. length t ≡ n) same long,
      );
}

abbrev pub Loops : Host → Response → Text → ℕ → ℕ → Type 0
Loops host reader tmp fuel k =
    (pre : Text) (n : ℕ) (files : Files)
    → Holds tmp pre files
    → length pre ≡ n
    → n ≤ download_size_limit reader.content_length
    → download_size_limit reader.content_length < fuel + n
    → (r : Step ℕ) × (download_loop host reader tmp fuel k n files ≡ some r)
      × Received reader tmp k pre files r

-- One read that succeeds, and the loop after it.
read_lem :
    (host : Host) (reader : Response) (tmp : Text) (fuel k : ℕ) (pre : Text) (n : ℕ) (files : Files)
    → IsBuffered reader
    → Loops host reader tmp fuel (suc k)
    → Holds tmp pre files
    → length pre ≡ n
    → n ≤ download_size_limit reader.content_length
    → download_size_limit reader.content_length < suc fuel + n
    → (buf : Text) → reader.read k ≡ ok buf
    → (r : Step ℕ) × (download_loop host reader tmp (suc fuel) k n files ≡ some r)
      × Received reader tmp k pre files r
unfolding download_loop
read_lem host reader tmp fuel k pre n files buffered again held long small enough [] got = (
  (ok n, files),
  rw (got, download_loop) refl,
  record {
    others = λ j h. refl;
    bounded = λ f h. rw (← (some_inj (sym held.1 ∙ h))) (rw held.2 (omega (arith, long, small)));
    whole = λ m h. (
      [],
      0,
      (got, refl),
      subst (λ t. Holds tmp t files) (sym (append-nil pre)) held,
      ap length (append-nil pre) ∙ (long ∙ ok_inj h),
    );
  },
)
read_lem host reader tmp fuel k pre n files buffered again held long small enough (c ∷ cs) got =
    elim (Option-cases (host.write_all k)) [
      | inr ((e, m), failure) ↦
          let message = with_message (codes "write " ++ (host.debug tmp ++ codes ": ")) e in
          let part = take m (c ∷ cs) in
          (
            (err message, append_to host tmp part files),
            rw (got, failure, download_loop) refl,
            stops reader tmp k pre (pre ++ part) files (append_to host tmp part files) message
                (append-Holds host tmp part files pre held)
                (rw (length-append pre part)
                  (omega (arith, long, small, buffered k (c ∷ cs) got, length-take m (c ∷ cs))))
                (append-others host tmp part files),
          )
      | inl fine ↦
          let written = append_to host tmp (c ∷ cs) files in
          let total = n + length (c ∷ cs) in
          let held' = append-Holds host tmp (c ∷ cs) files pre held in
          let long' : length (pre ++ c ∷ cs) ≡ total =
            length-append pre (c ∷ cs) ∙ ap (λ l. l + length (c ∷ cs)) long in
          let others = append-others host tmp (c ∷ cs) files in
          elim (Bool-cases (ltb (download_size_limit reader.content_length) total)) [
            | inl over ↦ (
              (
                err (exceeded total (download_size_limit reader.content_length)),
                remove_quietly host tmp written,
              ),
              rw (got, fine, over, download_loop) refl,
              removed host reader tmp k pre (pre ++ c ∷ cs) files written _ held'
                  (rw long' (omega (arith, small, buffered k (c ∷ cs) got))) others,
            )
            | inr within ↦
                let (r, same, rest) =
                  again (pre ++ c ∷ cs) total written held' long' (ground arith) (omega arith) in
                (
                  r,
                  rw (got, fine, within, download_loop) same,
                  later reader tmp k pre (c ∷ cs) files written r got others rest,
                )
          ]
    ]

pub loop_lem :
    (host : Host) (reader : Response) (tmp : Text)
    → IsBuffered reader
    → (fuel k : ℕ) → Loops host reader tmp fuel k
unfolding download_loop
loop_lem host reader tmp buffered zero k pre n files held long small enough =
    absurd (omega (arith, small, enough))
loop_lem host reader tmp buffered (suc fuel) k pre n files held long small enough =
    elim (Result-cases (reader.read k)) [
      | inr (e, failure) ↦ (
        _,
        rw (failure, download_loop) refl,
        stops reader tmp k pre pre files files (with_message (codes "download read: ") e) held
            (omega (arith, long, small)) (λ j h. refl),
      )
      | inl (buf, got) ↦
          read_lem host reader tmp fuel k pre n files buffered
            (loop_lem host reader tmp buffered fuel (suc k)) held long small enough buf got
    ]
