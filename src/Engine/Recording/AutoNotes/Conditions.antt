-- ===== src/Engine/Recording/AutoNotes/Conditions.antt =====
-- When notes can be made of a recording, of which track and in which language.
use panops.Storage.{Meeting, StorageError}
use panops.Base.{
  Option, Option-cases, Text, err, false, inl, inr, none, ok, refl, some, true, ◌≡◌, ◌⊎◌,
  Bool-cases, [], codes, text_eq, trim, Result, ◌++◌,
}
use panops.Engine.Recording.Params.{
  NotesGenerateParams, RecordingStopped, Surroundings, auto_notes_compute_available, or_else, Heavy,
  ready, warming_up, init_failed, language_hint,
}

-- The system track where there is one, else the microphone's.
abbrev pub IsTrack : RecordingStopped → Text → Type 0
IsTrack r audio =
    (r.system_audio_path ≡ some audio)
    ⊎ ((r.system_audio_path ≡ none) × (r.mic_audio_path ≡ some audio))

-- The adapters are loaded and a provider has a name.
abbrev pub CanCompute : Surroundings → Type 0
CanCompute around = (text_eq (trim around.provider) [] ≡ false) × (around.heavy ≡ ready)

-- No provider has a name, or the adapters are loading or could not be loaded.
abbrev pub CannotCompute : Surroundings → Type 0
CannotCompute around =
    (text_eq (trim around.provider) [] ≡ true)
    ⊎ ((around.heavy ≡ warming_up) ⊎ ((m : Text) × (around.heavy ≡ init_failed m)))

-- The language of the row is left open: blank or `auto`.
abbrev pub IsOpen : Text → Type 0
IsOpen language = (text_eq (trim language) [] ≡ true) ⊎ (text_eq language (codes "auto") ≡ true)

abbrev pub IsNamed : Text → Type 0
IsNamed language = (text_eq (trim language) [] ≡ false) × (text_eq language (codes "auto") ≡ false)

-- The hint is the language that the meeting's row names, and none where the row cannot be read or
-- leaves it open.
abbrev pub Hints : Result StorageError Meeting → Option Text → Type 0
Hints (err e) hint = hint ≡ none
Hints (ok m) hint =
    (IsNamed m.language × (hint ≡ some m.language)) ⊎ (IsOpen m.language × (hint ≡ none))

-- The parameters of the job: the track, the meeting and the hint; all else is left to defaults.
abbrev pub IsJobFor : Text → Text → Result StorageError Meeting → NotesGenerateParams → Type 0
IsJobFor id audio row params =
    ((params.audio ≡ audio) × (params.meeting_id ≡ some id) × Hints row params.language)
    × ((params.dialect ≡ none) × (params.llm_provider ≡ none))
    × ((params.llm_model ≡ none) × (params.no_diarize ≡ none))

pub language_hint-Hints : (row : Result StorageError Meeting) → Hints row (language_hint row)
unfolding language_hint
language_hint-Hints (err e) = refl
language_hint-Hints (ok m) = elim (Bool-cases (text_eq (trim m.language) [])) [
  | inl blank ↦ rw blank (inr (inl refl, refl))
  | inr filled ↦ elim (Bool-cases (text_eq m.language (codes "auto"))) [
    | inl auto ↦ rw (filled, auto) (inr (inr refl, refl))
    | inr named ↦ rw (filled, named) (inl ((refl, refl), refl))
  ]
]

pub compute_cases :
    (around : Surroundings)
    → ((auto_notes_compute_available around ≡ ok tt) × CanCompute around)
      ⊎ ((reason : Text) × (auto_notes_compute_available around ≡ err reason)
          × CannotCompute around)
unfolding auto_notes_compute_available
compute_cases around = elim (Bool-cases (text_eq (trim around.provider) [])) [
  | inl blank ↦ inr (codes "resolved LLM provider is empty", rw blank refl, inl blank)
  | inr filled ↦ by_heavy around.heavy refl filled
]
  where
    by_heavy :
        (heavy : Heavy)
        → around.heavy ≡ heavy
        → text_eq (trim around.provider) [] ≡ false
        → ((auto_notes_compute_available around ≡ ok tt) × CanCompute around)
          ⊎ ((reason : Text) × (auto_notes_compute_available around ≡ err reason)
              × CannotCompute around)
    by_heavy warming_up e filled =
        inr (codes "engine AI adapters are still warming up", rw (filled, e) refl, inr (inl e))
    by_heavy ready e filled = inl (rw (filled, e) refl, (filled, e))
    by_heavy (init_failed m) e filled =
        inr (codes "heavy adapter init failed: " ++ m, rw (filled, e) refl, inr (inr (m, e)))

pub or_else-IsTrack :
    (r : RecordingStopped)
    → ((or_else r.system_audio_path r.mic_audio_path ≡ none)
        × ((r.system_audio_path ≡ none) × (r.mic_audio_path ≡ none)))
      ⊎ ((audio : Text) × (or_else r.system_audio_path r.mic_audio_path ≡ some audio)
          × IsTrack r audio)
or_else-IsTrack r = elim (Option-cases r.system_audio_path) [
  | inr (audio, e) ↦ inr (audio, rw e refl, inl e)
  | inl none_system ↦ elim (Option-cases r.mic_audio_path) [
    | inl e ↦ inl (rw none_system e, (none_system, e))
    | inr (audio, e) ↦ inr (audio, rw none_system e, inr (none_system, e))
  ]
]
