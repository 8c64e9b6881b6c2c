-- ===== src/Knowledge/Chunk/Ends.antt =====
-- Where a chunk ends, and that the loop over the chunks ends.
use open_agent_showcase.Common.{
  ℕ, zero, suc, ◌+◌, ◌-◌, ◌/◌, ◌≤◌, ◌<◌, ◌≡◌, refl, ◌⊎◌, inl, inr, arith, none, some, List, [], ◌∷◌,
  length, Bytes, leb, Bool-cases,
}
use open_agent_showcase.Knowledge.Chunk.{look_back, chunk_end, windows}

look_back_bounds :
    (content : Bytes) (start chunk_chars cut j : ℕ)
    → let r = look_back content start chunk_chars cut j in
      (r ≡ cut) ⊎ (start + chunk_chars / 2 + 1 < r) × (r ≤ j + 1)
unfolding look_back
look_back_bounds content start chunk_chars cut zero = inl refl
look_back_bounds content start chunk_chars cut (suc j) =
    ground (arith, look_back_bounds content start chunk_chars cut j)

-- A chunk is not empty, exceeds its size by at most one byte, and is more than half as long, but
-- for the last one.
chunk_end_bounds :
    (content : Bytes) (chunk_chars start : ℕ)
    → 1 ≤ chunk_chars
    → start < length content
    → let end = chunk_end content chunk_chars start in
      (start < end)
      × (end ≤ length content)
      × (end ≤ start + chunk_chars + 1)
      × ((end ≡ length content) ⊎ (start + chunk_chars / 2 < end))
unfolding chunk_end
chunk_end_bounds content chunk_chars start size h =
    ground (
      arith,
      look_back_bounds content start chunk_chars (start + chunk_chars) (start + chunk_chars),
    )

module _ (content : Bytes) (chunk_chars overlap_chars : ℕ) where
  -- Chunks that run from `start` to the end of the text, each overlapping the next by as much.
  pub data Cover : ℕ → List (ℕ × ℕ) → Type 0 where
    last :
        {start : ℕ} (end : ℕ)
        → start < end
        → end ≡ length content
        → end ≤ start + chunk_chars + 1
        → Cover start ((start, end) ∷ [])
    more :
        {start : ℕ} {ws : List (ℕ × ℕ)} (end : ℕ)
        → end < length content
        → end ≤ start + chunk_chars + 1
        → start < end - overlap_chars
        → Cover (end - overlap_chars) ws
        → Cover start ((start, end) ∷ ws)

  -- With an overlap of at most half a chunk, as many rounds as there are bytes left are enough.
  pub windows-Cover :
      (rounds start : ℕ)
      → 1 ≤ chunk_chars
      → overlap_chars ≤ chunk_chars / 2
      → start < length content
      → length content - start ≤ rounds
      → (ws : List (ℕ × ℕ)) × (windows rounds content chunk_chars overlap_chars start ≡ some ws)
        × Cover start ws
  unfolding windows
  windows-Cover zero start size half inside fuel = absurd (omega arith)
  windows-Cover (suc rounds) start size half inside fuel =
      let end = chunk_end content chunk_chars start in
      let bounds = chunk_end_bounds content chunk_chars start size inside in
      elim (Bool-cases (leb (length content) end)) [
        | inl done ↦ ((start, end) ∷ [], ground arith, last end bounds.0 (ground arith) bounds.2)
        | inr on ↦
            let (ws, e, c) =
              windows-Cover rounds (end - overlap_chars) size half (ground arith) (ground arith) in
            ((start, end) ∷ ws, ground arith, more end (ground arith) bounds.2 (ground arith) c)
      ]

  -- With an overlap that exceeds the chunk, the loop over a longer text never ends.
  pub windows_loops :
      (rounds : ℕ)
      → 1 ≤ chunk_chars
      → chunk_chars < overlap_chars
      → chunk_chars + 1 < length content
      → windows rounds content chunk_chars overlap_chars 0 ≡ none
  unfolding windows
  windows_loops zero size over long = ground arith
  windows_loops (suc rounds) size over long =
      let bounds = chunk_end_bounds content chunk_chars 0 size (omega arith) in
      let e : chunk_end content chunk_chars 0 - overlap_chars ≡ 0 = ground arith in
      rw e (ground (arith, windows_loops rounds size over long))
