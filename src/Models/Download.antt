-- ===== src/Models/Download.antt =====
-- `download` and `download_with_fallback` of crates/panops-portable/src/model.rs. The log of the
-- progress is left out.
pub mod Reading
pub mod Receiving
pub mod Bounded
use panops.Base.{
  Bool, Option, Text, [], codes, decimal, err, false, if◌then◌else◌, insert, length, lookup, ltb,
  max, min, modify, none, not, ok, remove, some, suc, true, zero, ℕ, ◌&&◌, ◌++◌, ◌+◌, ◌==◌, ◌||◌,
  ◌∷◌,
}
use panops.Asr.{AsrError}
use panops.Models.{
  Files, Host, Response, Step, attempt, mirror_url_from_upstream, remove_quietly, reversed,
  with_message, no_such_file,
}

abbrev pub download_size_grace : ℕ
download_size_grace = 1048576

abbrev pub max_model_download_bytes : ℕ
max_model_download_bytes = 6442450944

-- `Path::with_extension("partial")`, on the bytes in reverse. Slashes and single dots at the end of
-- the path do not count.
unfoldable pub without_tail : Text → Text
without_tail [] = []
without_tail (c ∷ []) = c ∷ []
without_tail (c ∷ d ∷ s) =
    let shorter = without_tail (d ∷ s) in
    if c == b'/' || (c == b'.' && d == b'/') then shorter else c ∷ d ∷ s

-- The name in reverse up to its last dot, if that is not its first byte.
unfoldable pub stem : Text → Option Text
stem [] = none
stem (c ∷ s) =
    let rest = stem s in
    if c == b'/' then none else if c == b'.' then (if ends_name s then none else some s) else rest
  where
    ends_name : Text → Bool
    ends_name [] = true
    ends_name (d ∷ t) = d == b'/'

abbrev pub has_no_name : Text → Bool
has_no_name [] = true
has_no_name (c ∷ []) = c == b'/' || c == b'.'
has_no_name (c ∷ d ∷ []) = c == b'.' && d == b'.'
has_no_name (c ∷ d ∷ e ∷ s) = c == b'.' && (d == b'.' && e == b'/')

unfoldable pub partial_path : Text → Text
unfolding without_tail stem reversed
partial_path dest =
    let path = without_tail (reversed [] dest) in
    if has_no_name path then dest else elim (stem path) [
      | none ↦ reversed [] path ++ codes ".partial"
      | some s ↦ reversed [] s ++ codes ".partial"
    ]

unfoldable pub download_size_limit : Option ℕ → ℕ
download_size_limit none = max_model_download_bytes
download_size_limit (some t) =
    min (min (t + download_size_grace) 18446744073709551615) max_model_download_bytes

unfoldable pub append_to : Host → Text → Text → Files → Files
append_to host path buf files =
    modify path (λ f. record { contents = f.contents ++ buf; mtime = host.now }) files

abbrev pub exceeded : ℕ → ℕ → AsrError
exceeded bytes_written limit = AsrError.model (
    codes "download exceeded size limit ("
    ++ (decimal bytes_written ++ (codes " > " ++ (decimal limit ++ codes " bytes); aborting"))))

abbrev pub take : ℕ → Text → Text
take zero s = []
take (suc n) [] = []
take (suc n) (c ∷ s) = c ∷ take n s

-- The loop of reads; none only if the fuel is not enough.
unfoldable pub download_loop : Host → Response → Text → ℕ → ℕ → ℕ → Files → Option (Step ℕ)
download_loop host reader tmp zero k bytes_written files = none
download_loop host reader tmp (suc fuel) k bytes_written files = elim (reader.read k) [
  | err e ↦ some (err (with_message (codes "download read: ") e), files)
  | ok buf ↦ elim buf [
    | [] ↦ some (ok bytes_written, files)
    | c ∷ cs ↦ elim (host.write_all k) [
      | some (e, n) ↦ some (
        err (with_message (codes "write " ++ (host.debug tmp ++ codes ": ")) e),
        append_to host tmp (take n (c ∷ cs)) files,
      )
      | none ↦
          let written = append_to host tmp (c ∷ cs) files in
          let total = bytes_written + length (c ∷ cs) in
          elim (ltb (download_size_limit reader.content_length) total) [
            | true ↦ some (
              err (exceeded total (download_size_limit reader.content_length)),
              remove_quietly host tmp written,
            )
            | false ↦ download_loop host reader tmp fuel (suc k) total written
          ]
    ]
  ]
]

abbrev pub too_large : ℕ → AsrError
too_large total = AsrError.model (
    codes "server Content-Length "
    ++ (decimal total
        ++ (codes " exceeds max "
            ++ (decimal max_model_download_bytes ++ codes " bytes; aborting"))))

unfoldable pub rename : Host → Text → Text → ℕ → Files → Step ℕ
rename host tmp dest bytes_written files =
    let message =
      codes "rename " ++ (host.debug tmp ++ (codes " -> " ++ (host.debug dest ++ codes ": "))) in
    elim (host.rename tmp dest) [
      | some e ↦ (err (with_message message e), files)
      | none ↦ elim (lookup tmp files) [
        | none ↦ (err (with_message message no_such_file), files)
        | some f ↦ (ok bytes_written, insert dest f (remove tmp files))
      ]
    ]

-- After the loop.
unfoldable pub after_loop : Host → Text → Text → Step ℕ → Option (Step ℕ)
unfolding rename
after_loop host tmp dest (err e, files) = some (err e, files)
after_loop host tmp dest (ok bytes_written, files) =
    attempt (host.sync_all tmp) (with_message (codes "fsync " ++ (host.debug tmp ++ codes ": ")))
      files (some (rename host tmp dest bytes_written files))

abbrev pub and_then : {A B : Type 0} → Option A → (A → Option B) → Option B
and_then none f = none
and_then (some a) f = f a

unfoldable pub receive : Host → Response → Text → Files → Option (Step ℕ)
unfolding download_loop after_loop
receive host resp dest files =
    let tmp = partial_path dest in
    attempt (host.create tmp) (with_message (codes "create " ++ (host.debug tmp ++ codes ": ")))
      files
      (and_then
        (download_loop host resp tmp (suc (download_size_limit resp.content_length)) 0 0
          (insert tmp (record { contents = []; mtime = host.now }) files))
        (after_loop host tmp dest))

unfoldable pub download : Host → Text → Text → Files → Option (Step ℕ)
unfolding receive
download host url dest files =
    attempt (host.create_parents dest) AsrError.io files (elim (host.get url) [
      | err e ↦ some (err (with_message (codes "download failed: ") e), files)
      | ok resp ↦
          if not resp.is_success
          then some (err (with_message (codes "download HTTP ") resp.status), files)
          else elim resp.content_length [
            | none ↦ receive host resp dest files
            | some total ↦
                if ltb max_model_download_bytes total
                then some (err (too_large total), files)
                else receive host resp dest files
          ]
    ])

unfoldable pub download_with_fallback : Host → Text → Text → Files → Option (Step ℕ)
unfolding download
download_with_fallback host upstream_url dest files =
    and_then (download host (mirror_url_from_upstream upstream_url) dest files)
      λ r. elim r.0 [ ok n ↦ some (ok n, r.1) | err e ↦ download host upstream_url dest r.1 ]
