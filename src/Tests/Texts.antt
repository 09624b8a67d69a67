-- ===== src/Tests/Texts.antt =====
-- The theorems on chunks and attributions at concrete inputs.
use panops.Base.{
  All, List, [], arith, codes, concat, decimal, refl, some, trim, true, value_from, ◌++◌, ◌∷◌, ◌≡◌,
}
use panops.Transcript.{Segment}
use panops.Notes.Chunking.{split_segments_for_chunking}
use panops.Notes.Chunking.Chunks.{Fits, split_segments_for_chunking-AreChunks}
use panops.Notes.Verifier.{
  contains_id, is_word, leading_digits, mention, parse_speaker_id, parse_u32, scan_from,
  scan_speaker_ids, speaker_prefix, strip_prefix, verify_section_attribution,
}
use panops.Notes.Verifier.Mentions.{reported, verify_section_attribution-mention}
use panops.Tests.Samples.{seg}

abbrev long_section : List Segment
long_section = seg 0 900 (some 0) ∷ seg 1000 1900 (some 1) ∷ seg 2000 2900 (some 0) ∷ []

split_segments_for_chunking-AreChunks_example :
    (concat (split_segments_for_chunking long_section 20 50) ≡ long_section)
    × All (Fits 50) (split_segments_for_chunking long_section 20 50)
split_segments_for_chunking-AreChunks_example =
    split_segments_for_chunking-AreChunks long_section 20 50

verify_section_attribution-mention_example :
    contains_id 7 (
      reported (
        verify_section_attribution
          (codes "**" ++ (speaker_prefix ++ decimal 7 ++ codes ":** hi"))
          []
          (0 ∷ [])))
    ≡ true
unfolding is_word
verify_section_attribution-mention_example =
    verify_section_attribution-mention (codes "**") 7 (codes ":** hi") [] (0 ∷ []) (omega arith)
      refl refl refl

-- A larger word is not a mention, and an owner is trimmed.
owner_is_read : parse_speaker_id (codes " speaker_12 ") ≡ some 12
unfolding parse_speaker_id strip_prefix parse_u32 trim value_from
owner_is_read = refl

word_is_not_read : scan_speaker_ids (codes "thespeaker_42") ≡ []
unfolding scan_speaker_ids scan_from mention strip_prefix leading_digits parse_u32 is_word
word_is_not_read = refl
