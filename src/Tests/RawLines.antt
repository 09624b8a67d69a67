-- ===== src/Tests/RawLines.antt =====
-- The raw transcript at concrete inputs.
use panops.Base.{List, [], codes, decimal, map, none, refl, some, ◌∷◌, ◌≡◌}
use panops.Transcript.{Segment}
use panops.Notes.RawTranscript.{format_ts, language_code, padded, raw_line, render_raw_transcript}
use panops.Notes.RawTranscript.Lines.{lines, lines-render_raw_transcript}
use panops.Notes.RawTranscript.Stamps.{read_ts, read_ts-format_ts}
use panops.Tests.Samples.{seg}

abbrev said : List Segment
said = seg 0 4500 (some 0) ∷ seg 4500 61007 none ∷ []

stamp_is_padded : format_ts 61007 ≡ codes "1:01.007"
unfolding format_ts decimal padded
stamp_is_padded = refl

read_ts-format_ts_example : read_ts (format_ts 61007) ≡ some 61007
read_ts-format_ts_example = read_ts-format_ts 61007

lines-render_raw_transcript_example : lines (render_raw_transcript said) ≡ map raw_line said
unfolding language_code
lines-render_raw_transcript_example =
    lines-render_raw_transcript said ((refl, (refl, (refl, tt))), ((refl, (refl, (refl, tt))), tt))
