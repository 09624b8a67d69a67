-- ===== src/Models/Download/Receiving.antt =====
-- One response that is received: what it leaves of the files.
use panops.Base.{
  Bool-cases, Option-cases, Text, [], arith, codes, err, false, inl, inr, insert, length, lookup,
  lookup-insert, lookup-remove, ok, ok_inj, refl, remove, some, some_inj, suc, sym, text_eq,
  text_eq_iff, text_eq_refl, ℕ, ◌++◌, ◌+◌, ◌∙◌, ◌≡◌, ◌≤◌, ◌⊎◌, ap, subst,
}
use panops.Asr.{AsrError}
use panops.Models.{File, Files, Host, Response, Step, with_message}
use panops.Models.Download.{after_loop, download_size_limit, partial_path, receive, rename}
use panops.Models.Download.Reading.{IsBody, IsBuffered, Received, Rest, loop_lem}

abbrev pub HoldsAtMost : ℕ → Files → Files → Type 0
HoldsAtMost limit before after =
    (j : Text) (f : File)
    → lookup j after ≡ some f
    → (lookup j before ≡ some f) ⊎ (length f.contents ≤ limit)

-- What a download leaves of the files: each is as it was or bounded; a download that succeeds has
-- written a body whole, and one that fails has left the destination alone.
pub record Downloaded (Sent : Text → Type 0) (limit : ℕ) (dest : Text) (before : Files) (r : Step ℕ)
    : Type 0 where
  pub bounded : HoldsAtMost limit before r.1
  pub ok_whole :
      (n : ℕ)
      → r.0 ≡ ok n
      → (f : File) × (lookup dest r.1 ≡ some f) × (length f.contents ≡ n) × Sent f.contents
  pub err_leaves :
      (e : AsrError)
      → text_eq (partial_path dest) dest ≡ false
      → r.0 ≡ err e
      → lookup dest r.1 ≡ lookup dest before

pub stays :
    (Sent : Text → Type 0) (limit : ℕ) (dest : Text) (files : Files) (e : AsrError)
    → Downloaded Sent limit dest files (err e, files)
stays Sent limit dest files e = record {
  bounded = λ j f h. inl h;
  ok_whole = λ n h. cc;
  err_leaves = λ e distinct h. refl;
}

-- A failure after the loop.
fails :
    (reader : Response) (dest : Text) (files : Files) (r : Step ℕ) (e : AsrError)
    → Received reader (partial_path dest) 0 [] files r
    → Downloaded
        (IsBody reader)
        (download_size_limit reader.content_length + 65536)
        dest
        files
        (err e, r.1)
fails reader dest files r e received = record {
  bounded = λ j f h. elim (Bool-cases (text_eq (partial_path dest) j)) [
    | inl same ↦ inr (received.bounded f (rw ((text_eq_iff (partial_path dest) j).0 same) h))
    | inr other ↦ inl (sym (received.others j other) ∙ h)
  ];
  ok_whole = λ n h. cc;
  err_leaves = λ e distinct h. received.others dest distinct;
}

renamed :
    (host : Host) (reader : Response) (dest : Text) (files after : Files) (n : ℕ)
    → Received reader (partial_path dest) 0 [] files (ok n, after)
    → Downloaded
        (IsBody reader)
        (download_size_limit reader.content_length + 65536)
        dest
        files
        (rename host (partial_path dest) dest n after)
unfolding rename
renamed host reader dest files after n received =
    let tmp = partial_path dest in
    let (rest, k, body, (f, there, same), long) = received.whole n refl in
    elim (Option-cases (host.rename tmp dest)) [
      | inr (e, failure) ↦ rw (failure, rename) (fails reader dest files (ok n, after) _ received)
      | inl fine ↦
          rw (fine, rename)
            (rw there (record {
              bounded = λ j g h. elim (Bool-cases (text_eq dest j)) [
                | inl same ↦ inr (
                    rw (← (some_inj (rw (lookup-insert dest j f (remove tmp after), same) at h)))
                      (received.bounded f there))
                | inr other ↦
                    let h' =
                      rw
                        (
                          lookup-insert dest j f (remove tmp after),
                          other,
                          lookup-remove tmp j after,
                        )
                        at h in
                    elim (Bool-cases (text_eq tmp j)) [
                      | inl gone ↦ cc (rw gone at h')
                      | inr kept ↦ inl (sym (received.others j kept) ∙ rw kept at h')
                    ]
              ];
              ok_whole = λ m h. (
                f,
                lookup-insert dest dest f (remove tmp after) ∙ rw (text_eq_refl dest) refl,
                (ap length same ∙ long) ∙ ok_inj h,
                (k, subst (Rest reader 0 k) (sym same) body),
              );
              err_leaves = λ e distinct h. cc;
            }))
    ]

after_loop_lem :
    (host : Host) (reader : Response) (dest : Text) (files : Files) (r : Step ℕ)
    → Received reader (partial_path dest) 0 [] files r
    → (r' : Step ℕ) × (after_loop host (partial_path dest) dest r ≡ some r')
      × Downloaded (IsBody reader) (download_size_limit reader.content_length + 65536) dest files r'
unfolding after_loop
after_loop_lem host reader dest files (err e, after) received =
    ((err e, after), refl, fails reader dest files (err e, after) e received)
after_loop_lem host reader dest files (ok n, after) received =
    elim (Option-cases (host.sync_all (partial_path dest))) [
      | inr (e, failure) ↦
          let message =
            with_message (codes "fsync " ++ (host.debug (partial_path dest) ++ codes ": ")) e in
          (
            (err message, after),
            rw (failure, after_loop) refl,
            fails reader dest files (ok n, after) message received,
          )
      | inl fine ↦ (
        rename host (partial_path dest) dest n after,
        rw (fine, after_loop) refl,
        renamed host reader dest files after n received,
      )
    ]

pub receive_lem :
    (host : Host) (reader : Response) (dest : Text) (files : Files)
    → IsBuffered reader
    → (r : Step ℕ) × (receive host reader dest files ≡ some r)
      × Downloaded (IsBody reader) (download_size_limit reader.content_length + 65536) dest files r
unfolding receive
receive_lem host reader dest files buffered =
    let tmp = partial_path dest in
    let empty : File = record { contents = []; mtime = host.now } in
    elim (Option-cases (host.create tmp)) [
      | inr (e, failure) ↦
          let message = with_message (codes "create " ++ (host.debug tmp ++ codes ": ")) e in
          (
            (err message, files),
            rw (failure, receive) refl,
            stays (IsBody reader) _ dest files message,
          )
      | inl fine ↦
          let (r, same, received) =
            loop_lem host reader tmp buffered (suc (download_size_limit reader.content_length)) 0 []
              0 (insert tmp empty files)
              (empty, lookup-insert tmp tmp empty files ∙ rw (text_eq_refl tmp) refl, refl) refl
              (omega arith) (omega arith) in
          let (r', same', rest) = after_loop_lem host reader dest files r (record {
            others = λ j h. received.others j h ∙ (lookup-insert tmp j empty files ∙ rw h refl);
            bounded = received.bounded;
            whole = received.whole;
          }) in
          (r', rw (fine, receive) (rw same same'), rest)
    ]
