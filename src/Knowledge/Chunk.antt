-- ===== src/Knowledge/Chunk.antt =====
-- ChunkText of backend/internal/knowledge/ingest.go.
pub mod Cover
pub mod Ends
use open_agent_showcase.Common.{
  ℕ, zero, suc, ◌+◌, ◌-◌, ◌*◌, ◌/◌, Bool, true, false, ◌&&◌, ◌||◌, Option, none, some, List, [],
  ◌∷◌, map, leb, ltb, ◌==◌, if◌then◌else◌, length, take, drop, Bytes, trim_space, ℤ, pos, negsuc,
}
use open_agent_showcase.Knowledge.Normalize.{normalize_content}

abbrev pub byte_at : Bytes → ℕ → ℕ
byte_at [] i = 0
byte_at (c ∷ s) zero = c
byte_at (c ∷ s) (suc i) = byte_at s i

abbrev pub is_break : ℕ → Bool
is_break c = c == 10 || c == b'.'

-- for j := end; j > start+chunkChars/2 && j > start; j--; `cut` is the value without a break.
unfoldable pub look_back : Bytes → ℕ → ℕ → ℕ → ℕ → ℕ
look_back content start chunk_chars cut zero = cut
look_back content start chunk_chars cut (suc j) =
    let rest = look_back content start chunk_chars cut j in
    if ltb (start + chunk_chars / 2) (suc j) && ltb start (suc j)
    then (if is_break (byte_at content (suc j)) then suc j + 1 else rest)
    else cut

-- The end of the chunk that begins at `start`.
unfoldable pub chunk_end : Bytes → ℕ → ℕ → ℕ
unfolding look_back
chunk_end content chunk_chars start =
    let end =
      if ltb (length content) (start + chunk_chars) then length content else start + chunk_chars in
    if ltb end (length content) then look_back content start chunk_chars end end else end

-- The loop over `start`, which yields where each chunk begins and ends. `none` means that the rounds
-- ran out.
unfoldable pub windows : ℕ → Bytes → ℕ → ℕ → ℕ → Option (List (ℕ × ℕ))
windows zero content chunk_chars overlap_chars start =
    if ltb start (length content) then none else some []
windows (suc rounds) content chunk_chars overlap_chars start =
    let end = chunk_end content chunk_chars start in
    let rest = windows rounds content chunk_chars overlap_chars (end - overlap_chars) in
    if ltb start (length content)
    then (if leb (length content) end
        then some ((start, end) ∷ [])
        else elim rest [ none ↦ none | some ws ↦ some ((start, end) ∷ ws) ])
    else some []

abbrev pub slice : Bytes → ℕ × ℕ → Bytes
slice content (start, end) = take (end - start) (drop start content)

-- The defaults for sizes that are out of range.
abbrev pub chunk_tokens : ℤ → ℕ
chunk_tokens (pos zero) = 500
chunk_tokens (pos (suc n)) = suc n
chunk_tokens (negsuc n) = 500

abbrev pub overlap_tokens : ℤ → ℕ
overlap_tokens (pos n) = n
overlap_tokens (negsuc n) = 50

unfoldable pub chunk_text : ℕ → Bytes → ℤ → ℤ → Option (List Bytes)
unfolding windows chunk_end normalize_content
chunk_text rounds raw size overlap =
    let content = normalize_content raw in
    let chunk_chars = chunk_tokens size * 4 in
    if leb (length content) chunk_chars
    then some (content ∷ [])
    else elim (windows rounds content chunk_chars (overlap_tokens overlap * 4) 0) [
      | none ↦ none
      | some ws ↦ some (map (λ w. trim_space (slice content w)) ws)
    ]

unfoldable pub estimate_tokens : Bytes → ℕ
estimate_tokens s = length s / 4
