-- ===== src/Models.antt =====
-- crates/panops-portable/src/model.rs: the registry of the models that are downloaded, and the disk and
-- the network around them.
pub mod Markers
pub mod Download
pub mod Ensure
pub mod Progress
use panops.Base.{
  refl, ◌≡◌, Bool, Dict, List, Option, Result, Text, [], codes, err, false, if◌then◌else◌, lookup,
  none, ok, remove, some, text_eq, true, ℕ, ◌++◌, ◌==◌, ◌∷◌,
}
use panops.Asr.{AsrError}

pub record ModelInfo : Type 0 where
  pub name : Text
  pub url : Text
  pub sha256 : Text
  pub approx_size_mb : ℕ

-- The piece after the last slash, from a text in reverse.
unfoldable pub last_piece : Text → Text → Text
last_piece piece [] = piece
last_piece piece (c ∷ s) = if c == b'/' then piece else last_piece (c ∷ piece) s

unfoldable pub reversed : Text → Text → Text
reversed done [] = done
reversed done (c ∷ s) = reversed (c ∷ done) s

unfoldable pub mirror_url_from_upstream : Text → Text
unfolding last_piece reversed
mirror_url_from_upstream upstream_url =
    codes "https://github.com/vfmatzkin/panops/releases/download/models-v1/"
    ++ last_piece [] (reversed [] upstream_url)

abbrev pub models : List ModelInfo
models =
    record {
      name = codes "ggml-tiny-q5_1";
      url = codes "https://huggingface.co/ggerganov/whisper.cpp/resolve/main/ggml-tiny-q5_1.bin";
      sha256 = codes "818710568da3ca15689e31a743197b520007872ff9576237bda97bd1b469c3d7";
      approx_size_mb = 31;
    }
    ∷ record {
      name = codes "ggml-base-q5_1";
      url = codes "https://huggingface.co/ggerganov/whisper.cpp/resolve/main/ggml-base-q5_1.bin";
      sha256 = codes "422f1ae452ade6f30a004d7e5c6a43195e4433bc370bf23fac9cc591f01a8898";
      approx_size_mb = 57;
    }
    ∷ record {
      name = codes "ggml-large-v3-turbo-q5_0";
      url =
          codes
            "https://huggingface.co/ggerganov/whisper.cpp/resolve/main/ggml-large-v3-turbo-q5_0.bin";
      sha256 = codes "394221709cd5ad1f40c46e6031ca61bce88931e6e088c188294c6d5a55ffa7e2";
      approx_size_mb = 547;
    }
    ∷ []

abbrev pub segmentation_name : Text
segmentation_name = codes "sherpa-onnx-pyannote-segmentation-3-0"

abbrev pub embedding_name : Text
embedding_name = codes "3dspeaker_speech_eres2net_base_sv_zh-cn_3dspeaker_16k"

abbrev pub diar_models : List ModelInfo
diar_models =
    record {
      name = segmentation_name;
      url =
          codes
            "https://github.com/k2-fsa/sherpa-onnx/releases/download/speaker-segmentation-models/"
          ++ codes "sherpa-onnx-pyannote-segmentation-3-0.tar.bz2";
      sha256 = codes "24615ee884c897d9d2ba09bb4d30da6bb1b15e685065962db5b02e76e4996488";
      approx_size_mb = 7;
    }
    ∷ record {
      name = embedding_name;
      url =
          codes
            "https://github.com/k2-fsa/sherpa-onnx/releases/download/speaker-recongition-models/"
          ++ codes "3dspeaker_speech_eres2net_base_sv_zh-cn_3dspeaker_16k.onnx";
      sha256 = codes "1a331345f04805badbb495c775a6ddffcdd1a732567d5ec8b3d5749e3c7a5e4b";
      approx_size_mb = 38;
    }
    ∷ []

abbrev pub silero : ModelInfo
silero = record {
  name = codes "ggml-silero-v6.2.0";
  url = codes "https://huggingface.co/ggml-org/whisper-vad/resolve/main/ggml-silero-v6.2.0.bin";
  sha256 = codes "2aa269b785eeb53a82983a20501ddf7c1d9c48e33ab63a41391ac6c9f7fb6987";
  approx_size_mb = 1;
}

abbrev pub vad_models : List ModelInfo
vad_models = silero ∷ []

unfoldable pub find_model : Text → List ModelInfo → Result AsrError ModelInfo
find_model name [] = err (AsrError.model (codes "no registered model named " ++ name))
find_model name (m ∷ ms) = if text_eq m.name name then ok m else find_model name ms

unfoldable pub lookup_model : Text → Result AsrError ModelInfo
unfolding find_model
lookup_model name = find_model name (models ++ (diar_models ++ vad_models))

-- A time since the epoch in seconds and nanoseconds, none before it.
abbrev pub SystemTime : Type 0
SystemTime = Option (ℕ × ℕ)

pub record File : Type 0 where
  pub contents : Text
  pub mtime : SystemTime

abbrev pub Files : Type 0
Files = Dict File

pub record VerificationMarker : Type 0 where
  pub sha256 : Text
  pub size : ℕ
  pub mtime_secs : ℕ
  pub mtime_nanos : ℕ

-- A response; `read` is what the reads of its body give in turn.
pub record Response : Type 0 where
  pub status : Text
  pub is_success : Bool
  pub content_length : Option ℕ
  pub read : ℕ → Result Text Text

-- Libraries, environment, network and disk. A call of the disk that gives none succeeds, else it
-- gives its error and leaves the files as they are, except that a `write_all` that fails says how many
-- bytes it had written; metadata can be read of every file there is.
pub record Host : Type 0 where
  pub var : Text → Option Text
  pub project_data_dir : Option Text
  pub sha256 : Text → Text
  pub to_json : VerificationMarker → Text
  pub from_json : Text → Option VerificationMarker
  pub debug : Text → Text
  pub now : SystemTime
  pub http_client : Option Text
  pub get : Text → Result Text Response
  pub create_parents : Text → Option Text
  pub create : Text → Option Text
  pub write_all : ℕ → Option (Text × ℕ)
  pub sync_all : Text → Option Text
  pub rename : Text → Text → Option Text
  pub remove_file : Text → Option Text
  pub open_and_read : Text → Option Text
  pub write : Text → Option Text
  pub unpack : Text → Text → Files → Option Text × Files

-- What a call answers, and the files after it.
abbrev pub Step : Type 0 → Type 0
Step A = Result AsrError A × Files

-- A call of the disk whose error ends the function.
abbrev pub attempt :
    {A : Type 0} → Option Text → (Text → AsrError) → Files → Option (Step A) → Option (Step A)
attempt none wrap files next = next
attempt (some e) wrap files next = some (err (wrap e), files)

pub attempt-none :
    {A : Type 0} (fault : Option Text) (wrap : Text → AsrError) (files : Files)
    (next : Option (Step A))
    → fault ≡ none
    → attempt fault wrap files next ≡ next
attempt-none fault wrap files next h = rw h refl

abbrev pub with_message : Text → Text → AsrError
with_message message e = AsrError.model (message ++ e)

abbrev pub is_some {ℓ} : {A : Type ℓ} → Option A → Bool
is_some none = false
is_some (some a) = true

-- What the operating system says of a path that is not there.
abbrev pub no_such_file : Text
no_such_file = codes "No such file or directory (os error 2)"

unfoldable pub exists : Text → Files → Bool
exists path files = is_some (lookup path files)

-- `fs::remove_file` with its error ignored.
unfoldable pub remove_quietly : Host → Text → Files → Files
remove_quietly host path files = elim (host.remove_file path) [
  | none ↦ remove path files
  | some e ↦ files
]
