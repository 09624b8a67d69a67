-- ===== src/Models/Ensure/Honest.antt =====
-- The hash of a model file, and markers that tell the truth of it.
use panops.Base.{
  Bool-cases, Option-cases, Text, ap, arith, codes, false, inl, inr, length, length-append, lookup,
  lookup-insert, none, ok, some, text_eq, text_eq_iff, true, ◌∙◌, ◌≡◌, Bool, ==_iff, ◌&&◌, ◌==◌,
}
use panops.Models.{File, Files, Host, VerificationMarker}
use panops.Models.Markers.{
  mark_verified, read_verification_marker, verification_cache_valid, verification_marker_path,
  verify_sha256, write_verification_marker, matches, mtime_parts,
}
use panops.Models.Ensure.{skip_checksum}

-- The file is there and has this hash.
abbrev pub HasHash : Host → Text → Text → Files → Type 0
HasHash host sha256 dest files =
    (f : File) × (lookup dest files ≡ some f) × (host.sha256 f.contents ≡ sha256)

-- The marker beside the file names this hash and has the file's size and time.
abbrev pub IsMarked : Host → Text → Text → Files → File → Type 0
IsMarked host sha256 dest files f =
    (marker : VerificationMarker) × (read_verification_marker host (verification_marker_path dest)
        files
      ≡ some marker)
    × (marker.sha256 ≡ sha256)
    × (marker.size ≡ length f.contents)
    × (marker.mtime_secs ≡ (mtime_parts f.mtime).0)
    × (marker.mtime_nanos ≡ (mtime_parts f.mtime).1)

-- If the marker names this hash and has the file's size and time, then the file has this hash.
abbrev pub IsHonest : Host → Text → Text → Files → Type 0
IsHonest host sha256 dest files =
    (f : File)
    → lookup dest files ≡ some f
    → IsMarked host sha256 dest files f
    → host.sha256 f.contents ≡ sha256

-- Neither the user's own file nor the switch that turns the check off.
abbrev pub IsChecked : Host → Text → Type 0
IsChecked host override_var = (host.var override_var ≡ none) × (skip_checksum host ≡ false)

pub verify_lem :
    (host : Host) (path sha256 : Text) (files : Files) (u : Unit {0})
    → verify_sha256 host path sha256 files ≡ ok u
    → HasHash host sha256 path files
unfolding verify_sha256
verify_lem host path sha256 files u h = elim (Option-cases (host.open_and_read path)) [
  | inr (e, failure) ↦ cc (rw (failure, verify_sha256) at h)
  | inl fine ↦ elim (Option-cases (lookup path files)) [
    | inl missing ↦ cc (rw (fine, verify_sha256) at h, missing)
    | inr (f, there) ↦ elim (Bool-cases (text_eq (host.sha256 f.contents) sha256)) [
      | inl same ↦ (f, there, (text_eq_iff (host.sha256 f.contents) sha256).0 same)
      | inr other ↦ cc (rw (fine, verify_sha256) at h, there, other)
    ]
  ]
]

marker_elsewhere : (path : Text) → text_eq (verification_marker_path path) path ≡ false
marker_elsewhere path = elim (Bool-cases (text_eq (verification_marker_path path) path)) [
  | inr other ↦ other
  | inl same ↦
      let e = ap length ((text_eq_iff (verification_marker_path path) path).0 same) in
      absurd (omega (arith, e, length-append path (codes ".verified")))
]

-- The marker is another file.
pub mark-lookup :
    (host : Host) (path sha256 : Text) (files : Files)
    → lookup path (mark_verified host path sha256 files) ≡ lookup path files
unfolding mark_verified write_verification_marker
mark-lookup host path sha256 files = elim (Option-cases (lookup path files)) [
  | inl missing ↦ rw (missing, mark_verified) missing
  | inr (f, there) ↦ elim (Option-cases (host.write (verification_marker_path path))) [
    | inr (e, failure) ↦ rw (there, mark_verified) (rw (failure, write_verification_marker) there)
    | inl fine ↦
        rw (there, mark_verified)
          (rw (fine, write_verification_marker)
            (lookup-insert (verification_marker_path path) path _ files
              ∙ rw (marker_elsewhere path) there))
  ]
]

both3 : (p q r : Bool) → (p && (q && r)) ≡ true → (p ≡ true) × (q ≡ true) × (r ≡ true)
both3 p q r h = ground arith

-- A marker counts only if it has the file's size and time.
pub valid_lem :
    (host : Host) (sha256 dest : Text) (files : Files)
    → verification_cache_valid host dest sha256 files ≡ true
    → (f : File) × (lookup dest files ≡ some f) × IsMarked host sha256 dest files f
unfolding verification_cache_valid
valid_lem host sha256 dest files h =
    elim (Option-cases (read_verification_marker host (verification_marker_path dest) files)) [
      | inl unmarked ↦ cc (rw (unmarked, verification_cache_valid) at h)
      | inr (marker, read) ↦ elim (Bool-cases (text_eq marker.sha256 sha256)) [
        | inr other ↦ cc (rw (read, verification_cache_valid) at h, other)
        | inl same ↦ elim (Option-cases (lookup dest files)) [
          | inl absent ↦ cc (rw (read, verification_cache_valid) at h, same, absent)
          | inr (f, there) ↦
              let now : matches marker f ≡ true =
                rw there at (rw same at (rw (read, verification_cache_valid) at h)) in
              let (size, secs, nanos) =
                both3 (marker.size == length f.contents)
                  (marker.mtime_secs == (mtime_parts f.mtime).0)
                  (marker.mtime_nanos == (mtime_parts f.mtime).1) now in
              (
                f,
                there,
                (
                  marker,
                  read,
                  (text_eq_iff marker.sha256 sha256).0 same,
                  (==_iff marker.size (length f.contents)).0 size,
                  (==_iff marker.mtime_secs (mtime_parts f.mtime).0).0 secs,
                  (==_iff marker.mtime_nanos (mtime_parts f.mtime).1).0 nanos,
                ),
              )
        ]
      ]
    ]

-- Without the file no marker counts.
pub absent-Honest :
    (host : Host) (sha256 dest : Text) (files : Files)
    → lookup dest files ≡ none
    → IsHonest host sha256 dest files
absent-Honest host sha256 dest files absent f there marked = cc (absent, there)
