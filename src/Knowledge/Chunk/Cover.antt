-- ===== src/Knowledge/Chunk/Cover.antt =====
-- The chunks hold the whole text: with the overlap dropped from all but the first, they make it up.
use mathlib.Core.List.{append-nil}
use open_agent_showcase.Common.{
  ℕ, zero, suc, ◌+◌, ◌-◌, ◌*◌, ◌/◌, map, leb, false, trim_space, ℤ, pos, negsuc, ◌≤◌, ◌<◌, ◌≡◌,
  refl, sym, ap, ◌∙◌, arith, some, List, [], ◌∷◌, ◌++◌, length, drop, drop-drop, drop-take,
  take_all, take-append-drop, length-drop, Bytes,
}
use open_agent_showcase.Knowledge.Chunk.{slice, windows, chunk_tokens, overlap_tokens, chunk_text}
use open_agent_showcase.Knowledge.Normalize.{normalize_content}
use open_agent_showcase.Knowledge.Chunk.Ends.{Cover, last, more, windows-Cover}

-- What the chunks after the first add to the text.
abbrev pub added_by : Bytes → ℕ → List (ℕ × ℕ) → Bytes
added_by content overlap_chars [] = []
added_by content overlap_chars (w ∷ ws) =
    drop overlap_chars (slice content w) ++ added_by content overlap_chars ws

module _ (content : Bytes) (chunk_chars overlap_chars : ℕ) where
  slice-append :
      (start end : ℕ)
      → start ≤ end
      → slice content (start, end) ++ drop end content ≡ drop start content
  slice-append start end h =
      let e : start + (end - start) ≡ end = omega arith in
      rw (sym (ap (λ n. drop n content) e)) (
        rw (sym (drop-drop (end - start) start content))
          (take-append-drop (end - start) (drop start content)))

  drop-slice :
      (end end' : ℕ)
      → overlap_chars ≤ end
      → drop overlap_chars (slice content (end - overlap_chars, end')) ≡ slice content (end, end')
  drop-slice end end' h =
      let s : end - overlap_chars + overlap_chars ≡ end = omega arith in
      let n : end' - (end - overlap_chars) - overlap_chars ≡ end' - end = omega arith in
      drop-take overlap_chars (end' - (end - overlap_chars)) (drop (end - overlap_chars) content)
      ∙ (rw n (rw (drop-drop overlap_chars (end - overlap_chars) content) (rw s refl)))

  slice_last :
      (start end : ℕ) → end ≡ length content → slice content (start, end) ≡ drop start content
  slice_last start end e =
      take_all (end - start) (drop start content) (omega (arith, length-drop start content))

  Cover-added_by :
      (ws : List (ℕ × ℕ)) (start end : ℕ)
      → Cover content chunk_chars overlap_chars start ws
      → start ≡ end - overlap_chars
      → overlap_chars ≤ end
      → added_by content overlap_chars ws ≡ drop end content
  Cover-added_by ws start end (last stop inside done size) e h = rw e (
      rw (drop-slice end stop h)
        (append-nil (slice content (end, stop)) ∙ slice_last end stop done))
  Cover-added_by ws start end (more {ws = rest} stop inside size on c) e h = rw e (
      rw (drop-slice end stop h) (
        rw (Cover-added_by rest (stop - overlap_chars) stop c refl (omega arith))
          (slice-append end stop (omega arith))))

  Cover-whole :
      (ws : List (ℕ × ℕ))
      → Cover content chunk_chars overlap_chars 0 ws
      → (first : ℕ × ℕ) × (rest : List (ℕ × ℕ)) × (ws ≡ first ∷ rest)
        × (slice content first ++ added_by content overlap_chars rest ≡ content)
  Cover-whole ws (last stop inside done size) =
      ((0, stop), [], refl, append-nil (slice content (0, stop)) ∙ slice_last 0 stop done)
  Cover-whole ws (more {ws = rest} stop inside size on c) = (
    (0, stop),
    rest,
    refl,
    rw (Cover-added_by rest (stop - overlap_chars) stop c refl (omega arith))
        (slice-append 0 stop (omega arith)),
  )

  -- With an overlap of at most half a chunk, the loop ends within as many rounds as there are bytes,
  -- and the first window with what each later one adds behind the overlap is the whole text.
  windows_whole :
      1 ≤ chunk_chars
      → overlap_chars ≤ chunk_chars / 2
      → 0 < length content
      → (first : ℕ × ℕ) × (rest : List (ℕ × ℕ)) × (windows
            (length content)
            content
            chunk_chars
            overlap_chars
            0
          ≡ some (first ∷ rest))
        × (slice content first ++ added_by content overlap_chars rest ≡ content)
  windows_whole size half some_text =
      let (ws, e, c) =
        windows-Cover content chunk_chars overlap_chars (length content) 0 size half some_text
          (omega arith) in
      let (first, rest, shape, whole) = Cover-whole ws c in (first, rest, e ∙ ap some shape, whole)

-- For a text that is longer than a chunk, with an overlap of at most half a chunk, ChunkText ends within
-- as many rounds as the normalized text has bytes. What it returns are the windows of that text, each
-- without the white space at its ends; and the windows, the first one with what each later one adds
-- behind the overlap, are the whole normalized text.
pub chunk_text_whole :
    (raw : Bytes) (size overlap : ℤ)
    → chunk_tokens size * 4 < length (normalize_content raw)
    → overlap_tokens overlap * 4 ≤ chunk_tokens size * 4 / 2
    → (first : ℕ × ℕ) × (rest : List (ℕ × ℕ)) × (chunk_text
          (length (normalize_content raw))
          raw
          size
          overlap
        ≡ some (map (λ w. trim_space (slice (normalize_content raw) w)) (first ∷ rest)))
      × (slice (normalize_content raw) first
            ++ added_by (normalize_content raw) (overlap_tokens overlap * 4) rest
          ≡ normalize_content raw)
unfolding chunk_text
chunk_text_whole raw size overlap long half =
    let content = normalize_content raw in
    let (first, rest, loop, whole) =
      windows_whole content (chunk_tokens size * 4) (overlap_tokens overlap * 4)
        (positive (chunk_tokens size) (chunk_tokens-positive size)) half (omega arith) in
    let not_short : leb (length content) (chunk_tokens size * 4) ≡ false = ground arith in
    (first, rest, rw (not_short, loop) refl, whole)
  where
    chunk_tokens-positive : (n : ℤ) → 1 ≤ chunk_tokens n
    chunk_tokens-positive (pos zero) = omega arith
    chunk_tokens-positive (pos (suc n)) = omega arith
    chunk_tokens-positive (negsuc n) = omega arith

    positive : (n : ℕ) → 1 ≤ n → 1 ≤ n * 4
    positive n h = omega arith
