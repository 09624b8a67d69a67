-- ===== src/Models/Download/Bounded.antt =====
-- How much a download of a model writes, whatever the server sends.
use panops.Base.{
  Bool-cases, Option, Option-cases, Result-cases, Text, arith, codes, err, inl, inr, ltb, none, ok,
  refl, some, true, ℕ, ◌+◌, ◌∙◌, ◌≡◌, ◌≤◌, ◌⊎◌,
}
use panops.Asr.{AsrError}
use panops.Models.{Files, Host, Response, Step, mirror_url_from_upstream, with_message}
use panops.Models.Download.{
  download, download_size_limit, download_with_fallback, max_model_download_bytes, receive,
  too_large,
}
use panops.Models.Download.Reading.{IsBuffered, IsBody}
use panops.Models.Download.Receiving.{Downloaded, receive_lem, stays}

limit_lem : (total : Option ℕ) → download_size_limit total ≤ max_model_download_bytes
unfolding download_size_limit
limit_lem none = omega arith
limit_lem (some t) = omega arith

abbrev pub most : ℕ
most = max_model_download_bytes + 65536

-- The whole body of the response to this URL.
abbrev pub IsSent : Host → Text → Text → Type 0
IsSent host url t = (reader : Response) × (host.get url ≡ ok reader) × IsBody reader t

-- It came from the mirror or from upstream.
abbrev pub IsFetched : Host → Text → Text → Type 0
IsFetched host url t = IsSent host (mirror_url_from_upstream url) t ⊎ IsSent host url t

weaken :
    (host : Host) (url : Text) (reader : Response) (dest : Text) (files : Files) (r : Step ℕ)
    → host.get url ≡ ok reader
    → Downloaded (IsBody reader) (download_size_limit reader.content_length + 65536) dest files r
    → Downloaded (IsSent host url) most dest files r
weaken host url reader dest files r got d = record {
  bounded = λ j f h. elim (d.bounded j f h) [
    | inl before ↦ inl before
    | inr small ↦ inr (omega (arith, limit_lem reader.content_length))
  ];
  ok_whole =
      λ n h. let (f, there, long, body) = d.ok_whole n h in (f, there, long, (reader, got, body));
  err_leaves = d.err_leaves;
}

-- Every read of every response fills at most the buffer.
abbrev pub IsServer : Host → Type 0
IsServer host = (url : Text) (reader : Response) → host.get url ≡ ok reader → IsBuffered reader

abbrev Outcome : Host → Text → Text → Files → Type 0
Outcome host url dest files =
    (r : Step ℕ) × (download host url dest files ≡ some r)
    × Downloaded (IsSent host url) most dest files r

accepted_lem :
    (host : Host) (url dest : Text) (files : Files) (reader : Response) (r : Step ℕ)
    → host.create_parents dest ≡ none
    → host.get url ≡ ok reader
    → reader.is_success ≡ true
    → receive host reader dest files ≡ some r
    → Downloaded (IsBody reader) (download_size_limit reader.content_length + 65536) dest files r
    → Outcome host url dest files
unfolding download
accepted_lem host url dest files reader r fine got accepted same d =
    elim (Option-cases reader.content_length) [
      | inl open_ended ↦ (
        r,
        rw (fine, download) (rw got (rw accepted (rw open_ended same))),
        weaken host url reader dest files r got d,
      )
      | inr (total, known) ↦ elim (Bool-cases (ltb max_model_download_bytes total)) [
        | inl big ↦ (
          (err (too_large total), files),
          rw (fine, download) (rw got (rw accepted (rw known (rw big refl)))),
          stays (IsSent host url) most dest files (too_large total),
        )
        | inr fits ↦ (
          r,
          rw (fine, download) (rw got (rw accepted (rw known (rw fits same)))),
          weaken host url reader dest files r got d,
        )
      ]
    ]

download_lem :
    (host : Host) (url dest : Text) (files : Files) → IsServer host → Outcome host url dest files
unfolding download
download_lem host url dest files server = elim (Option-cases (host.create_parents dest)) [
  | inr (e, failure) ↦ (
    (err (AsrError.io e), files),
    rw (failure, download) refl,
    stays (IsSent host url) most dest files _,
  )
  | inl fine ↦ elim (Result-cases (host.get url)) [
    | inr (e, lost) ↦
        let message = with_message (codes "download failed: ") e in
        (
          (err message, files),
          rw (fine, download) (rw lost refl),
          stays (IsSent host url) most dest files message,
        )
    | inl (reader, got) ↦
        let (r, same, d) = receive_lem host reader dest files (server url reader got) in
        elim (Bool-cases reader.is_success) [
          | inr refused ↦
              let message = with_message (codes "download HTTP ") reader.status in
              (
                (err message, files),
                rw (fine, download) (rw got (rw refused refl)),
                stays (IsSent host url) most dest files message,
              )
          | inl accepted ↦ accepted_lem host url dest files reader r fine got accepted same d
        ]
  ]
]

fallback_lem :
    (host : Host) (url dest : Text) (files : Files) (r : Step ℕ)
    → IsServer host
    → download host (mirror_url_from_upstream url) dest files ≡ some r
    → Downloaded (IsSent host (mirror_url_from_upstream url)) most dest files r
    → (r' : Step ℕ) × (download_with_fallback host url dest files ≡ some r')
      × Downloaded (IsFetched host url) most dest files r'
unfolding download_with_fallback
fallback_lem host url dest files r server same d = elim (Result-cases r.0) [
  | inl (n, fine) ↦ (
    (ok n, r.1),
    rw (same, download_with_fallback) (rw fine refl),
    record {
      bounded = d.bounded;
      ok_whole =
          λ m h. let (f, there, long, sent) = d.ok_whole m (fine ∙ h) in (f, there, long, inl sent);
      err_leaves = λ e distinct h. cc;
    },
  )
  | inr (e, failure) ↦
      let (r', same', d') = download_lem host url dest r.1 server in
      (
        r',
        rw (same, download_with_fallback) (rw failure same'),
        record {
          bounded = λ j f h. elim (d'.bounded j f h) [
            | inl before ↦ d.bounded j f before
            | inr small ↦ inr small
          ];
          ok_whole =
              λ m h. let (f, there, long, sent) = d'.ok_whole m h in (f, there, long, inr sent);
          err_leaves =
              λ e' distinct h. d'.err_leaves e' distinct h ∙ d.err_leaves e distinct failure;
        },
      )
]

-- Whatever two servers send, for a mirror and an upstream whose reads fill at most the buffer of
-- 64 KiB, the download with its fallback comes to an end. Every file that it leaves is as it was before
-- or has at most 6 GiB and 64 KiB. A success of n bytes leaves at the destination n bytes that are the
-- whole body that the mirror or upstream sent: all that its reads gave, in order, up to its end. An error
-- leaves the destination as it was, if the name of the partial file is another one.
pub download_with_fallback-Downloaded :
    (host : Host) (url dest : Text) (files : Files)
    → IsServer host
    → (r : Step ℕ) × (download_with_fallback host url dest files ≡ some r)
      × Downloaded (IsFetched host url) most dest files r
download_with_fallback-Downloaded host url dest files server =
    let (r, same, d) = download_lem host (mirror_url_from_upstream url) dest files server in
    fallback_lem host url dest files r server same d
