-- ===== src/Knowledge/Normalize.antt =====
-- NormalizeContent and stripHTML of backend/internal/knowledge/ingest.go.
use open_agent_showcase.Common.{
  ℕ, zero, suc, ◌≤◌, ◌<◌, ◌≡◌, ◌≢◌, refl, arith, Bool, true, false, ◌||◌, ◌&&◌, [], ◌∷◌, Bytes,
  trim_space, length, if◌then◌else◌, ◌==◌, Bool-cases, inl, inr,
}

-- strings.ReplaceAll(s, "\r\n", "\n")
unfoldable pub unix_lines : Bytes → Bytes
unix_lines [] = []
unix_lines (a ∷ []) = a ∷ []
unix_lines (a ∷ b ∷ s) =
    let skip = 10 ∷ unix_lines s in
    let next = a ∷ unix_lines (b ∷ s) in if a == 13 && b == 10 then skip else next

-- strings.ReplaceAll(s, "\n\n\n", "\n\n")
abbrev pub is_gap : ℕ → ℕ → ℕ → Bool
is_gap a b c = a == 10 && (b == 10 && c == 10)

unfoldable pub shorten_gaps : Bytes → Bytes
shorten_gaps (a ∷ b ∷ c ∷ s) =
    let skip = 10 ∷ 10 ∷ shorten_gaps s in
    let next = a ∷ shorten_gaps (b ∷ c ∷ s) in if is_gap a b c then skip else next
shorten_gaps s = s

-- strings.Contains(s, "\n\n\n")
unfoldable pub has_gap : Bytes → Bool
has_gap (a ∷ b ∷ c ∷ s) = is_gap a b c || has_gap (b ∷ c ∷ s)
has_gap s = false

-- for strings.Contains(s, "\n\n\n") { s = … }
unfoldable pub close_gaps : ℕ → Bytes → Bytes
close_gaps zero s = s
close_gaps (suc rounds) s =
    let rest = close_gaps rounds (shorten_gaps s) in if has_gap s then rest else s

-- The text loses a byte in each round, so its length is enough rounds.
unfoldable pub normalize_content : Bytes → Bytes
unfolding close_gaps unix_lines
normalize_content s = let text = unix_lines (trim_space s) in close_gaps (length text) text

-- The loop of stripHTML over the runes: `in_tag` is set by '<' and cleared by '>'.
unfoldable pub strip_from : Bool → Bytes → Bytes
strip_from in_tag [] = []
strip_from in_tag (r ∷ s) =
    let rest = strip_from (if r == b'<' then true else if r == b'>' then false else in_tag) s in
    if r == b'<' || (r == b'>' || in_tag) then rest else r ∷ rest

unfoldable pub strip_html : Bytes → Bytes
unfolding strip_from
strip_html s = strip_from false s

shorten_gaps-le : (s : Bytes) → length (shorten_gaps s) ≤ length s
unfolding shorten_gaps
shorten_gaps-le [] = omega arith
shorten_gaps-le (a ∷ []) = omega arith
shorten_gaps-le (a ∷ b ∷ []) = omega arith
shorten_gaps-le (a ∷ b ∷ c ∷ s) = ground (arith, shorten_gaps-le s, shorten_gaps-le (b ∷ c ∷ s))

shorten_gaps-lt : (s : Bytes) → has_gap s ≡ true → length (shorten_gaps s) < length s
unfolding shorten_gaps has_gap
shorten_gaps-lt [] h = cc
shorten_gaps-lt (a ∷ []) h = cc
shorten_gaps-lt (a ∷ b ∷ []) h = cc
shorten_gaps-lt (a ∷ b ∷ c ∷ s) h = ground (arith, shorten_gaps-le s, shorten_gaps-lt (b ∷ c ∷ s))

close_gaps_done :
    (rounds : ℕ) (s : Bytes) → length s ≤ rounds → has_gap (close_gaps rounds s) ≡ false
unfolding close_gaps
close_gaps_done zero [] h = unfold has_gap in refl
close_gaps_done zero (c ∷ s) h = absurd (omega arith)
close_gaps_done (suc rounds) s h = elim (Bool-cases (has_gap s)) [
  | inl gap ↦
      rw gap (close_gaps_done rounds (shorten_gaps s) (omega (arith, shorten_gaps-lt s gap)))
  | inr free ↦ rw (free, close_gaps) free
]

-- The loop that shortens runs of empty lines ends, and what NormalizeContent returns has no two
-- empty lines in a row.
normalize_content-has_gap : (s : Bytes) → has_gap (normalize_content s) ≡ false
unfolding normalize_content
normalize_content-has_gap s =
    close_gaps_done (length (unix_lines (trim_space s))) (unix_lines (trim_space s)) (omega arith)

-- No '<' and no '>'.
abbrev pub NoAngle : Bytes → Type 0
NoAngle [] = Unit
NoAngle (c ∷ s) = (c ≢ b'<') × (c ≢ b'>') × NoAngle s

strip_from-NoAngle : (in_tag : Bool) (s : Bytes) → NoAngle (strip_from in_tag s)
unfolding strip_from
strip_from-NoAngle in_tag [] = tt
strip_from-NoAngle in_tag (r ∷ s) =
    ground (
      arith,
      strip_from-NoAngle (if r == b'<' then true else if r == b'>' then false else in_tag) s,
    )

strip_from_of_NoAngle : (s : Bytes) → NoAngle s → strip_from false s ≡ s
unfolding strip_from
strip_from_of_NoAngle [] h = refl
strip_from_of_NoAngle (r ∷ s) h = ground (arith, strip_from_of_NoAngle s h.2)

-- What stripHTML returns has no angle bracket.
strip_html-NoAngle : (s : Bytes) → NoAngle (strip_html s)
unfolding strip_html
strip_html-NoAngle s = strip_from-NoAngle false s

-- stripHTML returns a text without angle brackets as it is, and so a text that it returned.
pub strip_html-strip_html : (s : Bytes) → strip_html (strip_html s) ≡ strip_html s
unfolding strip_html
strip_html-strip_html s = strip_from_of_NoAngle (strip_from false s) (strip_from-NoAngle false s)
