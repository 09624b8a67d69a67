-- ===== src/Engine/Transcribing/Inside.antt =====
-- Steps of a transcription that do not panic, and segments inside of the audio.
use panops.Base.{
  ==_iff, All, All-append, All-sort_by_key, Bool-cases, IsSortedBy, List, Option, Option-cases,
  Result, Text, [], arith, err, inl, inr, length, map, none, ok, refl, some, some_inj, sort_by_key,
  ℕ, ◌*◌, ◌++◌, ◌/◌, ◌<◌, ◌==◌, ◌∷◌, ◌≡◌, ◌≢◌, ◌≤◌,
}
use panops.Transcript.{Segment, SpeakerTurn, Transcript}
use panops.Vad.{SpeechRegion, clamp_to}
use panops.Asr.{AsrError}
use panops.Asr.Recursive.{RegionResult}
use panops.Asr.Regions.{IsWithin, Within}
use panops.Merge.{merge_speaker_turns, merge_two_track, pin_local, assign_speaker, offset_turns}
use panops.Merge.Tracks.{Fits, start_of}
use panops.Protocol.{IpcError}
use panops.Engine.Transcribing.{
  HeavyAdapters, Outcome, and_then, from_result, length_ms, or_panic, recursive_answer,
}

-- No panic; an answer has the property.
abbrev pub Good : {A : Type 0} → (A → Type 0) → Outcome A → Type 0
Good P none = ⊥
Good P (some (err e)) = Unit
Good P (some (ok a)) = P a

pub Good-and_then :
    {A B : Type 0} (P : A → Type 0) (Q : B → Type 0) (r : Outcome A) (f : A → Outcome B)
    → Good P r
    → ((a : A) → P a → Good Q (f a))
    → Good Q (and_then r f)
Good-and_then P Q none f h k = absurd h
Good-and_then P Q (some (err e)) f h k = tt
Good-and_then P Q (some (ok a)) f h k = k a h

pub Good-from_result :
    {E A : Type 0} (P : A → Type 0) (wrap : E → IpcError) (r : Result E A)
    → ((a : A) → r ≡ ok a → P a)
    → Good P (from_result wrap r)
Good-from_result P wrap (err e) h = tt
Good-from_result P wrap (ok a) h = h a refl

-- Samples at a rate, with a length that fits.
abbrev pub IsAudio : List ℕ × ℕ → Type 0
IsAudio (samples, sample_rate) =
    (sample_rate ≢ 0) × (length samples * 1000 / sample_rate < 9_223_372_036_854_775_808)

abbrev pub IsInside : ℕ → List Segment → Type 0
IsInside duration_ms segments = All (Within 0 duration_ms) segments

pub recursive-Good :
    (region : SpeechRegion) (r : Option (Result AsrError RegionResult))
    → IsWithin region r
    → Good (λ a. All (Within region.start_ms region.end_ms) a.segments) (recursive_answer r)
recursive-Good region none h = h
recursive-Good region (some (err e)) h = tt
recursive-Good region (some (ok a)) h = h

pub clamp_to-le : (region : SpeechRegion) (total : ℕ) → (clamp_to region total).end_ms ≤ total
unfolding clamp_to
clamp_to-le region total = omega arith

pub widened :
    (region : SpeechRegion) (total : ℕ) (s : Segment)
    → Within (clamp_to region total).start_ms (clamp_to region total).end_ms s
    → Within 0 total s
widened region total s w =
    let top = clamp_to-le region total in
    (omega arith, omega (arith, top, w.1), omega arith, omega (arith, top, w.3))

pub length_ms-Good :
    (samples : List ℕ) (sample_rate : ℕ)
    → sample_rate ≢ 0
    → Good (λ n. n ≡ length samples * 1000 / sample_rate) (or_panic (length_ms samples sample_rate))
unfolding length_ms
length_ms-Good samples sample_rate h = elim (Bool-cases (sample_rate == 0)) [
  | inl is_zero ↦ absurd (h ((==_iff sample_rate 0).0 is_zero))
  | inr other ↦ rw other refl
]

map-IsInside :
    (f : Segment → Segment) (total : ℕ) (segments : List Segment)
    → ((s : Segment) → Within 0 total s → Within 0 total (f s))
    → IsInside total segments
    → IsInside total (map f segments)
map-IsInside f total [] keeps h = tt
map-IsInside f total (s ∷ segments) keeps h = (keeps s h.0, map-IsInside f total segments keeps h.1)

pub merged-IsInside :
    (total : ℕ) (mic system : List Segment) (turns : List SpeakerTurn) (out : List Segment)
    → merge_two_track mic system turns ≡ some out
    → IsInside total mic
    → IsInside total system
    → IsInside total out
unfolding merge_two_track merge_speaker_turns
merged-IsInside total mic system turns out h m s = elim (Option-cases (offset_turns turns)) [
  | inl panic ↦ cc (rw (panic, merge_two_track) at h)
  | inr (offset, fine) ↦
      let tracks = map pin_local mic ++ map (assign_speaker offset) system in
      let same : sort_by_key start_of tracks ≡ out = some_inj (rw (fine, merge_two_track) at h) in
      rw (← same) (
        All-sort_by_key start_of (Within 0 total) tracks (
          All-append (Within 0 total) (map pin_local mic) (map (assign_speaker offset) system)
            (map-IsInside pin_local total mic (λ x w. w) m)
            (map-IsInside (assign_speaker offset) total system (λ x w. w) s)))
]

-- What the loader and the diarizer answer fits their types.
abbrev pub IsSound : HeavyAdapters → Type 0
IsSound heavy =
    ((path : Text) (audio : List ℕ × ℕ) → heavy.load path ≡ ok audio → IsAudio audio)
    × ((path : Text) (turns : List SpeakerTurn) → heavy.diarize path ≡ ok turns → All Fits turns)

-- Segments that ascend in start time and lie in the audio.
abbrev pub IsTimed : Transcript → Type 0
IsTimed t = IsInside t.audio_duration_ms t.segments × IsSortedBy start_of t.segments
