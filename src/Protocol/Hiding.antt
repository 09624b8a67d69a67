-- ===== src/Protocol/Hiding.antt =====
-- What an error of crates/panops-protocol/src/error.rs tells the client.
use panops.Base.{[], ◌≡◌, ap, refl, sym, ◌∙◌}
use panops.Storage.{StorageError}
use panops.MeetingStore.{MeetingStoreError}
use panops.Protocol.{
  CaptureError, ExportError, IpcError, VadError, from_storage, from_export, from_vad, from_capture,
  from_meeting_store,
}

-- An error of a port that the engine answers with.
pub data PortError : Type 0 where
  storage_error : StorageError → PortError
  export_error : ExportError → PortError
  vad_error : VadError → PortError
  capture_error : CaptureError → PortError
  meeting_store_error : MeetingStoreError → PortError

unfoldable pub to_ipc : PortError → IpcError
unfolding from_storage from_export from_vad from_capture from_meeting_store
to_ipc (storage_error e) = from_storage e
to_ipc (export_error e) = from_export e
to_ipc (vad_error e) = from_vad e
to_ipc (capture_error e) = from_capture e
to_ipc (meeting_store_error e) = from_meeting_store e

-- The error without what the client must not see: the detail of input and output and of SQL, schema
-- versions, destinations, stored values and ids of other rows, and what a model's failure says.
abbrev pub redact : PortError → PortError
redact (storage_error (StorageError.already_exists id kind)) =
    storage_error (StorageError.already_exists [] kind)
redact (storage_error (StorageError.unique_conflict kind field value)) =
    storage_error (StorageError.unique_conflict kind field [])
redact (storage_error (StorageError.schema_mismatch found expected)) =
    storage_error (StorageError.schema_mismatch 0 0)
redact (storage_error (StorageError.io e)) = storage_error (StorageError.io [])
redact (storage_error (StorageError.sql e)) = storage_error (StorageError.sql [])
redact (storage_error (StorageError.not_found id kind)) =
    storage_error (StorageError.not_found id kind)
redact (export_error (ExportError.io e)) = export_error (ExportError.io [])
redact (export_error (ExportError.invalid_dest d)) = export_error (ExportError.invalid_dest [])
redact (export_error (ExportError.render m)) = export_error (ExportError.render [])
redact (vad_error (VadError.model m)) = vad_error (VadError.model [])
redact (vad_error (VadError.io e)) = vad_error (VadError.io [])
redact (vad_error (VadError.invalid_audio m)) = vad_error (VadError.invalid_audio m)
redact (capture_error (CaptureError.io e)) = capture_error (CaptureError.io [])
redact (capture_error e) = capture_error e
redact (meeting_store_error (MeetingStoreError.io e)) =
    meeting_store_error (MeetingStoreError.io [])
redact (meeting_store_error (MeetingStoreError.sql e)) =
    meeting_store_error (MeetingStoreError.sql [])
redact (meeting_store_error e) = meeting_store_error e

to_ipc-redact : (e : PortError) → to_ipc (redact e) ≡ to_ipc e
unfolding to_ipc
to_ipc-redact (storage_error (StorageError.not_found a b)) = refl
to_ipc-redact (storage_error (StorageError.already_exists a b)) = refl
to_ipc-redact (storage_error (StorageError.unique_conflict a b c)) = refl
to_ipc-redact (storage_error (StorageError.schema_mismatch a b)) = refl
to_ipc-redact (storage_error (StorageError.io a)) = refl
to_ipc-redact (storage_error (StorageError.sql a)) = refl
to_ipc-redact (export_error (ExportError.io a)) = refl
to_ipc-redact (export_error (ExportError.invalid_dest a)) = refl
to_ipc-redact (export_error (ExportError.render a)) = refl
to_ipc-redact (vad_error (VadError.model a)) = refl
to_ipc-redact (vad_error (VadError.invalid_audio a)) = refl
to_ipc-redact (vad_error (VadError.io a)) = refl
to_ipc-redact (capture_error (CaptureError.permission_denied a)) = refl
to_ipc-redact (capture_error (CaptureError.capture a)) = refl
to_ipc-redact (capture_error (CaptureError.io a)) = refl
to_ipc-redact (capture_error (CaptureError.sidecar a)) = refl
to_ipc-redact (capture_error (CaptureError.session_not_found a)) = refl
to_ipc-redact (capture_error (CaptureError.invalid_config a)) = refl
to_ipc-redact (meeting_store_error (MeetingStoreError.meeting_not_found a)) = refl
to_ipc-redact (meeting_store_error (MeetingStoreError.segment_not_found a)) = refl
to_ipc-redact (meeting_store_error (MeetingStoreError.screenshot_not_found a)) = refl
to_ipc-redact (meeting_store_error (MeetingStoreError.speaker_not_found a)) = refl
to_ipc-redact (meeting_store_error (MeetingStoreError.io a)) = refl
to_ipc-redact (meeting_store_error (MeetingStoreError.sql a)) = refl

-- The answer to the client shows nothing of what `redact` takes out: two errors of storage, export,
-- voice activity detection, capture or the meeting store that differ only there look the same.
pub to_ipc-hides : (e f : PortError) → redact e ≡ redact f → to_ipc e ≡ to_ipc f
to_ipc-hides e f same = sym (to_ipc-redact e) ∙ ap to_ipc same ∙ to_ipc-redact f
