-- ===== src/Models/Ensure.antt =====
-- The default paths of crates/panops-portable/src/model.rs and `ensure_model`, `ensure_vad_model` and
-- `ensure_diar_models`: the model is there, or it is downloaded and checked.
pub mod Honest
pub mod Verified
pub mod Diarization
use panops.Base.{
  Bool, Option, Result, Text, codes, err, false, if◌then◌else◌, none, not, ok, some, true, ℕ, ◌&&◌,
  ◌++◌, ◌>>=◌,
}
use panops.Asr.{AsrError}
use panops.Models.{
  Files, Host, ModelInfo, Step, attempt, embedding_name, exists, is_some, lookup_model,
  remove_quietly, segmentation_name, silero, with_message,
}
use panops.Models.Markers.{mark_verified, verification_cache_valid, verify_sha256}
use panops.Models.Download.{and_then, download_with_fallback}
use panops.Engine.Paths.{join}

unfoldable pub data_dir : Host → Result AsrError Text
data_dir host = elim host.project_data_dir [
  | none ↦ err (AsrError.model (codes "could not resolve project dirs"))
  | some dir ↦ ok (join dir (codes "models"))
]

abbrev pub path_or : Host → Text → (Text → Text) → Result AsrError Text
path_or host name path = elim (host.var name) [
  | some p ↦ ok p
  | none ↦ data_dir host >>= λ dir. ok (path dir)
]

unfoldable pub default_model_path : Host → Result AsrError Text
default_model_path host =
    path_or host (codes "PANOPS_MODEL") λ dir. join dir (codes "ggml-large-v3-turbo-q5_0.bin")

unfoldable pub default_diar_seg_path : Host → Result AsrError Text
default_diar_seg_path host =
    path_or host (codes "PANOPS_DIAR_SEG")
      λ dir. join (join dir segmentation_name) (codes "model.onnx")

unfoldable pub default_diar_emb_path : Host → Result AsrError Text
default_diar_emb_path host =
    path_or host (codes "PANOPS_DIAR_EMB") λ dir. join dir (embedding_name ++ codes ".onnx")

unfoldable pub default_vad_model_path : Host → Result AsrError Text
default_vad_model_path host =
    path_or host (codes "PANOPS_VAD_MODEL") λ dir. join dir (silero.name ++ codes ".bin")

abbrev pub skip_checksum : Host → Bool
skip_checksum host = is_some (host.var (codes "PANOPS_SKIP_MODEL_CHECKSUM"))

-- The file is checked unless a marker shows that it was.
unfoldable pub verify_cached : Host → ModelInfo → Text → Files → Step Text
verify_cached host info dest files =
    if verification_cache_valid host dest info.sha256 files
    then (ok dest, files)
    else elim (verify_sha256 host dest info.sha256 files) [
      | err e ↦ (err e, files)
      | ok u ↦ (ok dest, mark_verified host dest info.sha256 files)
    ]

-- A file that fails its check right after the download is removed.
unfoldable pub verify_new : Host → ModelInfo → Text → Files → Step Text
verify_new host info dest files = elim (verify_sha256 host dest info.sha256 files) [
  | err e ↦ (err e, remove_quietly host dest files)
  | ok u ↦ (ok dest, mark_verified host dest info.sha256 files)
]

abbrev pub fetched : Host → ModelInfo → Text → Step ℕ → Option (Step Text)
fetched host info dest (err e, files) = some (err e, files)
fetched host info dest (ok n, files) = some (verify_new host info dest files)

-- The common body of `ensure_model` and `ensure_vad_model`; `override_var` is the variable that stands
-- for the user's own file. None only if a download runs out of fuel.
unfoldable pub ensure : Host → ModelInfo → Text → Text → Files → Option (Step Text)
unfolding verify_cached verify_new
ensure host info override_var dest files = elim (exists dest files) [
  | true ↦ some (
      if not (is_some (host.var override_var)) && not (skip_checksum host)
      then verify_cached host info dest files
      else (ok dest, files))
  | false ↦
      attempt host.http_client (with_message (codes "http client: ")) files
        (and_then (download_with_fallback host info.url dest files) (fetched host info dest))
]

unfoldable pub ensure_model : Host → Text → Text → Files → Option (Step Text)
unfolding ensure
ensure_model host name dest files = elim (lookup_model name) [
  | err e ↦ some (err e, files)
  | ok info ↦ ensure host info (codes "PANOPS_MODEL") dest files
]

unfoldable pub ensure_vad_model : Host → Text → Files → Option (Step Text)
unfolding ensure
ensure_vad_model host dest files = ensure host silero (codes "PANOPS_VAD_MODEL") dest files
