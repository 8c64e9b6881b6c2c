-- ===== src/Tests/Text.antt =====
-- Tests of the knowledge texts.
use open_agent_showcase.Common.{
  ℕ, none, some, List, ◌∷◌, ◌++◌, ◌≡◌, refl, arith, length, Bytes, bytes, trim_space, map, pos,
}
use open_agent_showcase.Knowledge.Normalize.{
  unix_lines, shorten_gaps, has_gap, close_gaps, normalize_content, strip_from, strip_html,
}
use open_agent_showcase.Knowledge.Chunk.{windows, slice, chunk_text}
use open_agent_showcase.Knowledge.Chunk.Ends.{windows_loops}
use open_agent_showcase.Knowledge.Chunk.Cover.{added_by, chunk_text_whole}

strip_html_test : strip_html (bytes "<b>bold</b> text") ≡ bytes "bold text"
unfolding strip_html strip_from
strip_html_test = refl

normalize_content_test :
    normalize_content (10 ∷ bytes "a" ++ 10 ∷ 10 ∷ 10 ∷ 10 ∷ bytes "b")
    ≡ bytes "a" ++ 10 ∷ 10 ∷ bytes "b"
unfolding normalize_content close_gaps has_gap shorten_gaps unix_lines trim_space
normalize_content_test = refl

abbrev sentence : Bytes
sentence = bytes "One. Two. Three. Four."

chunk_text_whole_example :
    (first : ℕ × ℕ) × (rest : List (ℕ × ℕ)) × (chunk_text
        (length (normalize_content sentence))
        sentence
        (pos 2)
        (pos 1)
      ≡ some (map (λ w. trim_space (slice (normalize_content sentence) w)) (first ∷ rest)))
    × (slice (normalize_content sentence) first ++ added_by (normalize_content sentence) 4 rest
        ≡ normalize_content sentence)
unfolding normalize_content close_gaps has_gap shorten_gaps unix_lines trim_space
chunk_text_whole_example = chunk_text_whole sentence (pos 2) (pos 1) (omega arith) (omega arith)

windows_loops_example : windows 1000 sentence 4 5 0 ≡ none
windows_loops_example = windows_loops sentence 4 5 1000 (omega arith) (omega arith) (omega arith)
