-- ===== src/Lib.antt =====
-- The verification library of panops, a local-first meeting recorder: models of its core logic in
-- Rust and the theorems that hold of them.
--
-- Parts and files. A recording yields two audio tracks. Voice activity detection cuts a track into
-- speech regions (Vad: crates/panops-core/src/vad.rs, merge_adjacent_regions of
-- crates/panops-portable/src/audio.rs). Each region is transcribed, recursively where the model was
-- unsure (Asr: crates/panops-core/src/asr.rs, crates/panops-portable/src/recursive_asr.rs), into
-- segments (Transcript: crates/panops-core/src/segment.rs, diar.rs). The diarizer's turns are
-- cleaned up (Diarization: crates/panops-portable/src/sherpa_diarizer.rs), and the tracks are
-- merged and get speakers (Merge: crates/panops-core/src/merge.rs). The notes pipeline cuts the
-- segments into sections (Notes.Topics: notes/topic_segmentation.rs), places screenshots
-- (Notes.Anchoring: notes/screenshot_anchoring.rs), splits long sections for the language model
-- (Notes.Chunking: notes/prompts.rs; Notes.Budget: notes/pipeline.rs) and turns the replies into
-- drafts (Notes.Sections, Notes.Summaries: notes/pipeline.rs), which it checks first
-- (Notes.Verifier: notes/verifier.rs). Meetings, notes and their organisation are kept behind the
-- storage port (Storage, Storage.Memory: crates/panops-core/src/storage.rs and InMemoryStorage of
-- conformance/fakes.rs), the rows of one meeting behind the meeting store (MeetingStore:
-- meeting_store.rs and InMemoryMeetingStore). Storage.Port is the storage port as the engine calls
-- it, with the laws it may rely on. The engine (crates/panops-engine/src/server/handlers.rs) serves
-- clients: Engine.Paths checks what a registry row says about a directory, Engine.Meetings are the
-- meeting methods, Engine.Recording starts and stops the capture adapter (Capture:
-- crates/panops-core/src/capture.rs and FakeCapture of conformance/fakes.rs) and enqueues notes
-- jobs, which Engine.Jobs runs, two at a time (server/mod.rs); Engine.Transcribing composes the
-- parts above into the transcript of a job, and Engine.Pipeline is the job (handlers.rs,
-- screenshots.rs). Export writes the notes (crates/panops-portable/src/markdown_exporter.rs).
-- Protocol turns the errors of all ports into those of the wire
-- (crates/panops-protocol/src/error.rs). The models that the adapters load are downloaded and
-- checked by Models (crates/panops-portable/src/model.rs). The word error rate that the tests of
-- the recognizers use is Wer (crates/panops-core/src/wer.rs). The transcript.txt beside the notes
-- is Notes.RawTranscript (notes/raw_transcript.rs). Base holds what all share; Tests the theorems
-- at concrete inputs.
--
-- Correspondence. A function or method has the name it has in the source; a loop is a function on
-- the list it runs over, with the loop's variables as arguments. A method under a lock is a
-- function from the tables to a result and the tables it leaves; Storage.Memory.Operations and
-- MeetingStore.Contents put the methods into sequences. A text is the list of its UTF-8 bytes. u64
-- arithmetic that can leave its range is written with its wrap-around (add64, sub64), checked
-- arithmetic and clamp answer none where they panic. A HashMap is an association list: its order
-- stands for the iteration order, or the order is a parameter. A disk, a chrono and an adapter's
-- clock are records of functions. An f32 is its bit pattern; the operations that round are a
-- parameter (Transcript.Float). The clock is an argument.
--
-- Bounds and fuel. recurse recurs on the depth that is left below MAX_DEPTH, 3; decimal takes as
-- fuel the number itself, which has at most that many digits and one more; the split to the
-- rendered budget has fuel 2, since what is left of a chunk is in the budget; the merge of
-- summaries has one round for each summary, since every round that goes on leaves fewer; the loop
-- of a download has one more than its limit of bytes, since every read that goes on brings one. The
-- length of a text in memory, and sums of such lengths, are far below 2^64 and are taken as they
-- are. A poisoned lock is not modelled.
--
-- Not modelled: the texts of the prompts, the frontmatter of the notes and `generate` as a whole (a
-- parameter of Engine.Pipeline, as the exporter is), the engine's organising methods (each one call
-- of the storage port), subscriptions and sockets, the command line, the serialised shapes of the
-- wire, the SQLite adapters, the rates and percentages of a download, native adapters and the
-- desktop applications. Most are I/O around the parts above.
pub mod Base
pub mod Transcript
pub mod Merge
pub mod Notes
pub mod Storage
pub mod MeetingStore
pub mod Vad
pub mod Asr
pub mod Diarization
pub mod Wer
pub mod Protocol
pub mod Capture
pub mod Engine
pub mod Models
pub mod Export
mod Tests
