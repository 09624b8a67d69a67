-- ===== src/Models/Ensure/Diarization.antt =====
-- `ensure_diar_models` of crates/panops-portable/src/model.rs: a bare model, and one in an archive.
use panops.Base.{
  Bool, Option, Text, codes, err, false, if◌then◌else◌, lookup, none, not, ok, some, true, ◌&&◌,
  ◌++◌, ◌||◌,
}
use panops.Asr.{AsrError}
use panops.Models.{
  Files, Host, ModelInfo, Step, attempt, embedding_name, exists, is_some, lookup_model,
  no_such_file, remove_quietly, segmentation_name, with_message,
}
use panops.Models.Markers.{mark_verified, verification_cache_valid, verify_sha256}
use panops.Models.Download.{download_with_fallback}
use panops.Models.Ensure.{data_dir, default_diar_emb_path, default_diar_seg_path, skip_checksum}
use panops.Engine.Paths.{join}

-- Goes on after a success.
abbrev pub and_go :
    {A B : Type 0} → Option (Step A) → (A → Files → Option (Step B)) → Option (Step B)
and_go none next = none
and_go (some (err e, files)) next = some (err e, files)
and_go (some (ok a, files)) next = next a files

unfoldable pub fetch_missing : Host → ModelInfo → Text → Bool → Files → Option (Step (Unit {0}))
fetch_missing host info path existed_before files = elim existed_before [
  | true ↦ some (ok tt, files)
  | false ↦
      attempt host.http_client (with_message (codes "http client: ")) files
        (and_go (download_with_fallback host info.url path files) λ n after. some (ok tt, after))
]

-- The file is checked unless a marker shows that it was; only a file that was just downloaded is
-- removed.
unfoldable pub settle : Host → ModelInfo → Text → Bool → Files → Step (Unit {0})
settle host info path existed_before files =
    if verification_cache_valid host path info.sha256 files
    then (ok tt, files)
    else elim (verify_sha256 host path info.sha256 files) [
      | err e ↦ (err e, (if existed_before then files else remove_quietly host path files))
      | ok u ↦ (ok tt, mark_verified host path info.sha256 files)
    ]

unfoldable pub ensure_embedding : Host → Text → Files → Option (Step (Unit {0}))
unfolding fetch_missing settle
ensure_embedding host emb files = elim (lookup_model embedding_name) [
  | err e ↦ some (err e, files)
  | ok info ↦
      let existed_before = exists emb files in
      let user_override = is_some (host.var (codes "PANOPS_DIAR_EMB")) in
      attempt (if existed_before then none else host.create_parents emb) AsrError.io files (
        and_go (fetch_missing host info emb existed_before files) λ u after. some (
          if not (skip_checksum host) && (not existed_before || not user_override)
          then settle host info emb existed_before after
          else (ok tt, after)))
]

abbrev pub points_nowhere : Host → Text → AsrError
points_nowhere host seg = AsrError.model (
    codes "PANOPS_DIAR_SEG points to "
    ++ (host.debug seg
        ++ (codes " but the file does not exist; pre-extract the segmentation tarball there"
            ++ codes " or unset the env var to use the default data dir")))

abbrev pub layout_changed : Host → Text → AsrError
layout_changed host seg = AsrError.model (
    codes "expected "
    ++ (host.debug seg ++ codes " after extracting tarball; archive layout changed?"))

-- The archive is read and extracted, and the model has to be there.
unfoldable pub extract : Host → Text → Text → Text → Files → Step (Unit {0})
extract host seg dir tar_path files =
    let opening = codes "open " ++ (host.debug tar_path ++ codes ": ") in
    elim (host.open_and_read tar_path) [
      | some e ↦ (err (with_message opening e), files)
      | none ↦ elim (lookup tar_path files) [
        | none ↦ (err (with_message opening no_such_file), files)
        | some f ↦
            let r = host.unpack f.contents dir files in
            elim r.0 [
              | some e ↦ (
                err (with_message (codes "untar " ++ (host.debug tar_path ++ codes ": ")) e),
                r.1,
              )
              | none ↦ if exists seg r.1 then (ok tt, r.1) else (err (layout_changed host seg), r.1)
            ]
      ]
    ]

unfoldable pub from_tarball : Host → Text → ModelInfo → Text → Files → Option (Step (Unit {0}))
unfolding fetch_missing settle extract
from_tarball host seg info dir files =
    let tar_path = join dir (codes "sherpa-onnx-pyannote-segmentation-3-0.tar.bz2") in
    let existed_before = exists tar_path files in
    attempt (host.create_parents tar_path) AsrError.io files (
      and_go (fetch_missing host info tar_path existed_before files) λ u fetched.
        and_go
          (some (
            if skip_checksum host
            then (ok tt, fetched)
            else settle host info tar_path existed_before fetched))
          λ v settled. some (extract host seg dir tar_path settled))

unfoldable pub ensure_segmentation : Host → Text → Files → Option (Step (Unit {0}))
unfolding from_tarball
ensure_segmentation host seg files = elim (exists seg files) [
  | true ↦ some (ok tt, files)
  | false ↦
      if is_some (host.var (codes "PANOPS_DIAR_SEG"))
      then some (err (points_nowhere host seg), files)
      else elim (lookup_model segmentation_name) [
        | err e ↦ some (err e, files)
        | ok info ↦ elim (data_dir host) [
          | err e ↦ some (err e, files)
          | ok dir ↦ from_tarball host seg info dir files
        ]
      ]
]

unfoldable pub ensure_diar_models : Host → Files → Option (Step (Text × Text))
unfolding ensure_embedding ensure_segmentation
ensure_diar_models host files = elim (default_diar_seg_path host) [
  | err e ↦ some (err e, files)
  | ok seg ↦ elim (default_diar_emb_path host) [
    | err e ↦ some (err e, files)
    | ok emb ↦ and_go (ensure_embedding host emb files) λ u with_emb.
        and_go (ensure_segmentation host seg with_emb) λ v after. some (ok (seg, emb), after)
  ]
]
