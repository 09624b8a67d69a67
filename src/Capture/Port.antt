-- ===== src/Capture/Port.antt =====
-- The trait `Capture` as the engine calls it, and `FakeCapture` as one.
use panops.Base.{Result, Text}
use panops.Protocol.{CaptureError}
use panops.Capture.{CaptureConfig, CaptureResult, CaptureSession}
use panops.Capture.Fake.{Sessions, Studio, start_capture, stop_capture}

pub record CapturePort : Type 1 where
  pub State : Type 0
  pub start_capture :
      Text → Text → CaptureConfig → State → Result CaptureError CaptureSession × State
  pub stop_capture : CaptureSession → State → Result CaptureError CaptureResult × State

abbrev pub fake_capture : Studio → CapturePort
fake_capture studio = record {
  State = Sessions;
  start_capture = start_capture studio;
  stop_capture = stop_capture studio;
}
