-- ===== src/Tests/Downloads.antt =====
-- The theorems on model files at concrete inputs.
use panops.Base.{
  List, Result, Text, [], arith, codes, length, map, none, ok, ok_inj, refl, some, subst, suc,
  text_eq, true, zero, ℕ, ◌∷◌, ◌≡◌, ◌≤◌, insert, lookup, modify,
}
use panops.Models.{Host, ModelInfo, Response, Step, lookup_model, exists}
use panops.Models.Markers.{verify_sha256, mark_verified}
use panops.Models.Download.{download_with_fallback, partial_path, append_to, download_size_limit}
use panops.Models.Download.Reading.{IsBuffered}
use panops.Models.Download.Bounded.{IsServer, download_with_fallback-Downloaded, most, IsFetched}
use panops.Models.Download.Receiving.{Downloaded}
use panops.Models.Ensure.{ensure_model}
use panops.Models.Ensure.Honest.{absent-Honest}
use panops.Models.Ensure.Verified.{Ensured, ensure_model-Ensured}

abbrev tiny_hash : Text
tiny_hash = codes "818710568da3ca15689e31a743197b520007872ff9576237bda97bd1b469c3d7"

abbrev body_of : ℕ → Result Text Text
body_of zero = ok (1 ∷ 2 ∷ 3 ∷ [])
body_of (suc k) = ok []

abbrev response : Response
response = record {
  status = codes "200 OK";
  is_success = true;
  content_length = some 3;
  read = body_of;
}

-- A server that sends three bytes, whose hash is the registered one.
abbrev host : Host
host = record {
  var = λ name. none;
  project_data_dir = some (codes "/data");
  sha256 = λ bytes. tiny_hash;
  to_json = λ marker. marker.sha256;
  from_json = λ text. none;
  debug = λ path. path;
  now = some (7, 0);
  http_client = none;
  get = λ url. ok response;
  create_parents = λ path. none;
  create = λ path. none;
  write_all = λ k. none;
  sync_all = λ path. none;
  rename = λ p q. none;
  remove_file = λ path. none;
  open_and_read = λ path. none;
  write = λ path. none;
  unpack = λ bytes dir files. (none, files);
}

body_lem : (k : ℕ) (buf : Text) → body_of k ≡ ok buf → length buf ≤ 65536
body_lem zero buf h = rw (← (ok_inj h)) (omega arith)
body_lem (suc k) buf h = rw (← (ok_inj h)) (omega arith)

host-IsServer : IsServer host
host-IsServer url reader h = subst IsBuffered (ok_inj h) body_lem

download_with_fallback-Downloaded_example :
    (r : Step ℕ) × (download_with_fallback host (codes "https://x/m.bin") (codes "/m/m.bin") []
      ≡ some r)
    × Downloaded (IsFetched host (codes "https://x/m.bin")) most (codes "/m/m.bin") [] r
download_with_fallback-Downloaded_example =
    download_with_fallback-Downloaded host (codes "https://x/m.bin") (codes "/m/m.bin") []
      host-IsServer

abbrev tiny : ModelInfo
tiny = record {
  name = codes "ggml-tiny-q5_1";
  url = codes "https://huggingface.co/ggerganov/whisper.cpp/resolve/main/ggml-tiny-q5_1.bin";
  sha256 = tiny_hash;
  approx_size_mb = 31;
}

ensure_model-Ensured_example :
    (r : Step Text) × (ensure_model host (codes "ggml-tiny-q5_1") (codes "/m/tiny.bin") [] ≡ some r)
    × Ensured host tiny (codes "PANOPS_MODEL") (codes "/m/tiny.bin") [] r
unfolding lookup_model partial_path text_eq lookup
ensure_model-Ensured_example =
    ensure_model-Ensured host (codes "ggml-tiny-q5_1") (codes "/m/tiny.bin") [] tiny refl
      host-IsServer refl refl (absent-Honest host tiny_hash (codes "/m/tiny.bin") [] refl)

-- The whole way of a first download.
first_download :
    ensure_model host (codes "ggml-tiny-q5_1") (codes "/m/tiny.bin") []
    ≡ some (
      ok (codes "/m/tiny.bin"),
      (codes "/m/tiny.bin.verified", record { contents = tiny_hash; mtime = some (7, 0) })
          ∷ (codes "/m/tiny.bin", record { contents = 1 ∷ 2 ∷ 3 ∷ []; mtime = some (7, 0) })
          ∷ [],
    )
unfolding ensure_model lookup_model text_eq exists lookup download_with_fallback download_size_limit
    append_to modify insert partial_path verify_sha256 mark_verified
first_download = refl

abbrev names : List Text
names =
    codes "/m/a.bin" ∷ codes "a" ∷ codes ".bashrc" ∷ codes "a.b/" ∷ codes "x/.." ∷ codes "/" ∷ []

partial_names :
    map partial_path names
    ≡ codes "/m/a.partial"
      ∷ codes "a.partial"
      ∷ codes ".bashrc.partial"
      ∷ codes "a.partial"
      ∷ codes "x/.."
      ∷ codes "/"
      ∷ []
unfolding partial_path
partial_names = refl
