-- ===== src/Models/Markers.antt =====
-- The `.verified` markers of crates/panops-portable/src/model.rs and the check of a file's hash.
use panops.Base.{
  Bool, Option, Result, Text, codes, err, false, if◌then◌else◌, insert, length, lookup, none, not,
  ok, some, text_eq, ℕ, ◌&&◌, ◌++◌, ◌==◌,
}
use panops.Asr.{AsrError}
use panops.Models.{File, Files, Host, SystemTime, VerificationMarker, no_such_file}

abbrev pub verification_marker_path : Text → Text
verification_marker_path model_path = model_path ++ codes ".verified"

unfoldable pub read_verification_marker : Host → Text → Files → Option VerificationMarker
read_verification_marker host marker_path files = elim (lookup marker_path files) [
  | none ↦ none
  | some f ↦ host.from_json f.contents
]

abbrev pub mtime_parts : SystemTime → ℕ × ℕ
mtime_parts none = (0, 0)
mtime_parts (some t) = t

abbrev pub marker_of : Text → File → VerificationMarker
marker_of sha256 f = record {
  sha256 = sha256;
  size = length f.contents;
  mtime_secs = (mtime_parts f.mtime).0;
  mtime_nanos = (mtime_parts f.mtime).1;
}

unfoldable pub write_verification_marker : Host → Text → VerificationMarker → Files → Files
write_verification_marker host marker_path marker files = elim (host.write marker_path) [
  | some e ↦ files
  | none ↦ insert marker_path (record { contents = host.to_json marker; mtime = host.now }) files
]

unfoldable pub mark_verified : Host → Text → Text → Files → Files
unfolding write_verification_marker
mark_verified host file_path sha256 files = elim (lookup file_path files) [
  | none ↦ files
  | some f ↦
      write_verification_marker host (verification_marker_path file_path) (marker_of sha256 f) files
]

-- The marker is the one that would be written for the file now.
abbrev pub matches : VerificationMarker → File → Bool
matches marker f =
    marker.size == length f.contents
    && (marker.mtime_secs == (mtime_parts f.mtime).0
        && marker.mtime_nanos == (mtime_parts f.mtime).1)

unfoldable pub verification_cache_valid : Host → Text → Text → Files → Bool
unfolding read_verification_marker
verification_cache_valid host model_path expected_sha256 files =
    elim (read_verification_marker host (verification_marker_path model_path) files) [
      | none ↦ false
      | some marker ↦
          if not (text_eq marker.sha256 expected_sha256)
          then false
          else elim (lookup model_path files) [ none ↦ false | some f ↦ matches marker f ]
    ]

abbrev pub mismatch : Host → Text → Text → Text → AsrError
mismatch host path expected actual = AsrError.model (
    codes "checksum mismatch at "
    ++ (host.debug path ++ (codes ": expected " ++ (expected ++ (codes ", got " ++ actual)))))

-- Opening and reading fail with one message.
unfoldable pub verify_sha256 : Host → Text → Text → Files → Result AsrError (Unit {0})
verify_sha256 host path expected files = elim (host.open_and_read path) [
  | some message ↦ err (AsrError.model message)
  | none ↦ elim (lookup path files) [
    | none ↦
        err (AsrError.model (codes "open " ++ (host.debug path ++ (codes ": " ++ no_such_file))))
    | some f ↦
        if text_eq (host.sha256 f.contents) expected
        then ok tt
        else err (mismatch host path expected (host.sha256 f.contents))
  ]
]
