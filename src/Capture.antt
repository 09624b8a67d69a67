-- ===== src/Capture.antt =====
-- The capture port: crates/panops-core/src/capture.rs. A path is a text, an `f32` its bit pattern.
pub mod Fake
pub mod Port
use panops.Base.{
  Bool, List, Option, Text, arith, false, text_eq, text_eq_refl, true, ℕ, ◌&&◌, ◌==◌, ◌≡◌,
}

pub data AudioSources : Type 0 where
  system_only mic_only system_and_mic : AudioSources

pub data CaptureTarget : Type 0 where
  display window : ℕ → CaptureTarget
  app : Text → CaptureTarget
  region : ℕ → ℕ → ℕ → ℕ → ℕ → CaptureTarget

pub record CaptureConfig : Type 0 where
  pub audio_sources : AudioSources
  pub record_video : Bool
  pub screenshot_interval_ms : ℕ
  pub screenshot_threshold : ℕ
  pub capture_target : CaptureTarget
  pub width : Option ℕ
  pub height : Option ℕ

pub record CaptureSession : Type 0 where
  pub meeting_id : Text
  pub started_at_ms : ℕ
  pub capture_target : CaptureTarget
  pub record_video : Bool
  pub screenshot_interval_ms : ℕ
  pub screenshot_threshold : ℕ

pub record CaptureResult : Type 0 where
  pub system_audio_path : Option Text
  pub mic_audio_path : Option Text
  pub screenshot_paths : List Text
  pub duration_ms : ℕ

-- `==` on targets.
unfoldable pub target_eq : CaptureTarget → CaptureTarget → Bool
target_eq (display a) (display b) = a == b
target_eq (window a) (window b) = a == b
target_eq (app a) (app b) = text_eq a b
target_eq (region d x y w h) (region e x' y' w' h') =
    d == e && (x == x' && (y == y' && (w == w' && h == h')))
target_eq _ _ = false

pub target_eq_refl : (t : CaptureTarget) → target_eq t t ≡ true
unfolding target_eq
target_eq_refl (display a) = ground arith
target_eq_refl (window a) = ground arith
target_eq_refl (app a) = text_eq_refl a
target_eq_refl (region d x y w h) = ground arith
