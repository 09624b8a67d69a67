-- ===== src/Models/Ensure/Verified.antt =====
-- What is known of a model's file once `ensure_model` has answered.
use panops.Base.{
  Bool-cases, Option-cases, Result-cases, Text, codes, err, false, if◌then◌else◌, inl, inr, lookup,
  lookup-remove, none, not, ok, ok_inj, refl, remove, some, sym, text_eq, text_eq_refl, true, ℕ,
  ◌&&◌, ◌∙◌, ◌≡◌, ap, some_inj,
}
use panops.Asr.{AsrError}
use panops.Models.{
  Files, Host, ModelInfo, Step, attempt-none, exists, is_some, lookup_model, remove_quietly,
  with_message, File,
}
use panops.Models.Markers.{mark_verified, verification_cache_valid, verify_sha256}
use panops.Models.Download.{partial_path}
use panops.Models.Download.Receiving.{Downloaded}
use panops.Models.Download.Bounded.{IsServer, download_with_fallback-Downloaded, most, IsFetched}
use panops.Models.Ensure.{ensure, ensure_model, fetched, skip_checksum, verify_cached, verify_new}
use panops.Models.Ensure.Honest.{
  HasHash, IsChecked, IsHonest, absent-Honest, mark-lookup, verify_lem, valid_lem,
}

-- What an answer means.
pub record Ensured (host : Host) (info : ModelInfo) (override_var dest : Text) (files : Files)
    (r : Step Text) : Type 0 where
  pub honest : IsHonest host info.sha256 dest r.1
  pub ok_verified :
      (path : Text)
      → r.0 ≡ ok path
      → (path ≡ dest)
        × (exists dest r.1 ≡ true)
        × (IsChecked host override_var → HasHash host info.sha256 dest r.1)
  pub err_leaves : (e : AsrError) → r.0 ≡ err e → lookup dest r.1 ≡ lookup dest files

-- A file that was verified and marked.
marked :
    (host : Host) (info : ModelInfo) (override_var dest : Text) (files after : Files)
    → HasHash host info.sha256 dest after
    → Ensured host info override_var dest files (ok dest, mark_verified host dest info.sha256 after)
unfolding exists
marked host info override_var dest files after (f, there, hash) =
    let there' = mark-lookup host dest info.sha256 after ∙ there in
    record {
      honest = λ g there'' said.
          ap host.sha256 (ap (λ (x : File). x.contents) (some_inj (sym there'' ∙ there'))) ∙ hash;
      ok_verified = λ path h. (sym (ok_inj h), rw there' refl, λ checked. (f, there', hash));
      err_leaves = λ e h. cc;
    }

cached_lem :
    (host : Host) (info : ModelInfo) (override_var dest : Text) (files : Files)
    → exists dest files ≡ true
    → IsHonest host info.sha256 dest files
    → Ensured host info override_var dest files (verify_cached host info dest files)
unfolding verify_cached
cached_lem host info override_var dest files there honest =
    elim (Bool-cases (verification_cache_valid host dest info.sha256 files)) [
      | inl valid ↦
          rw (valid, verify_cached)
            (record {
              honest = honest;
              ok_verified = λ path h. (
                sym (ok_inj h),
                there,
                λ checked.
                    let (f, found, said) = valid_lem host info.sha256 dest files valid in
                    (f, found, honest f found said),
              );
              err_leaves = λ e h. cc;
            })
      | inr stale ↦ elim (Result-cases (verify_sha256 host dest info.sha256 files)) [
        | inr (e, bad) ↦
            rw (stale, verify_cached)
              (rw bad
                (record { honest = honest; ok_verified = λ path h. cc; err_leaves = λ e h. refl }))
        | inl (u, good) ↦
            rw (stale, verify_cached)
              (rw good (
                marked host info override_var dest files files
                  (verify_lem host dest info.sha256 files u good)))
      ]
    ]

new_lem :
    (host : Host) (info : ModelInfo) (override_var dest : Text) (files after : Files)
    → host.remove_file dest ≡ none
    → lookup dest files ≡ none
    → Ensured host info override_var dest files (verify_new host info dest after)
unfolding verify_new remove_quietly
new_lem host info override_var dest files after removes absent =
    elim (Result-cases (verify_sha256 host dest info.sha256 after)) [
      | inl (u, good) ↦
          rw (good, verify_new)
            (marked host info override_var dest files after
              (verify_lem host dest info.sha256 after u good))
      | inr (e, bad) ↦
          let gone : lookup dest (remove dest after) ≡ none =
            lookup-remove dest dest after ∙ rw (text_eq_refl dest) refl in
          rw (bad, verify_new)
            (rw (removes, remove_quietly)
              (record {
                honest = absent-Honest host info.sha256 dest (remove dest after) gone;
                ok_verified = λ path h. cc;
                err_leaves = λ e h. gone ∙ sym absent;
              }))
    ]

-- No file, and an error.
nothing :
    (host : Host) (info : ModelInfo) (override_var dest : Text) (files after : Files) (e : AsrError)
    → lookup dest files ≡ none
    → lookup dest after ≡ lookup dest files
    → Ensured host info override_var dest files (err e, after)
nothing host info override_var dest files after e absent same = record {
  honest = absent-Honest host info.sha256 dest after (same ∙ absent);
  ok_verified = λ path h. cc;
  err_leaves = λ e h. same;
}

fetched_lem :
    (host : Host) (info : ModelInfo) (override_var dest : Text) (files : Files) (r : Step ℕ)
    → host.remove_file dest ≡ none
    → text_eq (partial_path dest) dest ≡ false
    → lookup dest files ≡ none
    → Downloaded (IsFetched host info.url) most dest files r
    → (r' : Step Text) × (fetched host info dest r ≡ some r')
      × Ensured host info override_var dest files r'
fetched_lem host info override_var dest files (err e, after) removes distinct absent d = (
  (err e, after),
  refl,
  nothing host info override_var dest files after e absent (d.err_leaves e distinct refl),
)
fetched_lem host info override_var dest files (ok n, after) removes distinct absent d =
    (_, refl, new_lem host info override_var dest files after removes absent)

present_lem :
    (host : Host) (info : ModelInfo) (override_var dest : Text) (files : Files)
    → exists dest files ≡ true
    → IsHonest host info.sha256 dest files
    → Ensured host info override_var dest files (
        if not (is_some (host.var override_var)) && not (skip_checksum host)
        then verify_cached host info dest files
        else (ok dest, files))
present_lem host info override_var dest files there honest =
    elim (Bool-cases (not (is_some (host.var override_var)) && not (skip_checksum host))) [
      | inl checked ↦ rw checked (cached_lem host info override_var dest files there honest)
      | inr trusted ↦ rw trusted (record {
        honest = honest;
        ok_verified =
            λ path h. (sym (ok_inj h), there, λ checked. cc (rw (checked.0, checked.1) at trusted));
        err_leaves = λ e h. refl;
      })
    ]

ensure_lem :
    (host : Host) (info : ModelInfo) (override_var dest : Text) (files : Files)
    → IsServer host
    → host.remove_file dest ≡ none
    → text_eq (partial_path dest) dest ≡ false
    → IsHonest host info.sha256 dest files
    → (r : Step Text) × (ensure host info override_var dest files ≡ some r)
      × Ensured host info override_var dest files r
unfolding ensure exists
ensure_lem host info override_var dest files server removes distinct honest =
    elim (Option-cases (lookup dest files)) [
      | inr (f, there) ↦ (
        _,
        rw (there, ensure) refl,
        present_lem host info override_var dest files (rw there refl) honest,
      )
      | inl absent ↦ elim (Option-cases host.http_client) [
        | inr (e, failure) ↦
            let message = with_message (codes "http client: ") e in
            (
              (err message, files),
              rw (absent, ensure) (rw failure refl),
              nothing host info override_var dest files files message absent refl,
            )
        | inl fine ↦
            let (r, same, d) = download_with_fallback-Downloaded host info.url dest files server in
            let (r', same', rest) =
              fetched_lem host info override_var dest files r removes distinct absent d in
            (
              r',
              rw (absent, ensure) (attempt-none host.http_client _ files _ fine ∙ rw same same'),
              rest,
            )
      ]
    ]

-- For a registered model and whatever the network sends in reads of at most 64 KiB, ensure_model comes
-- to an end. It needs that the destination can be removed (the source ignores a failure to), that the
-- partial file has another name, and that the marker is true: if it names the registered SHA-256 and
-- has the file's size and time, then the file has that hash. Then the marker is still true; an answer
-- is the destination, where there is a file, which has the registered SHA-256 unless the user named a
-- file of their own or switched the check off; and an error leaves the destination as it was, so a
-- file that was just downloaded and failed its check is gone.
pub ensure_model-Ensured :
    (host : Host) (name dest : Text) (files : Files) (info : ModelInfo)
    → lookup_model name ≡ ok info
    → IsServer host
    → host.remove_file dest ≡ none
    → text_eq (partial_path dest) dest ≡ false
    → IsHonest host info.sha256 dest files
    → (r : Step Text) × (ensure_model host name dest files ≡ some r)
      × Ensured host info (codes "PANOPS_MODEL") dest files r
unfolding ensure_model
ensure_model-Ensured host name dest files info known server removes distinct honest =
    let (r, same, rest) =
      ensure_lem host info (codes "PANOPS_MODEL") dest files server removes distinct honest in
    (r, rw (known, ensure_model) same, rest)
