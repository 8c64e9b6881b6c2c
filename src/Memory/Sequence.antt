-- ===== src/Memory/Sequence.antt =====
-- longestCommonSubsequence of backend/internal/memory/service.go: the table dp is filled row by row,
-- and a row holds the values for all prefixes of the second list.
pub mod Longest
use open_agent_showcase.Common.{
  ℕ, zero, suc, List, [], ◌∷◌, Bool, ltb, if◌then◌else◌, Bytes, bytes_eq,
}

-- The cells dp[i][j] for j ≥ 1, given dp[i-1][j-1] and dp[i][j-1], and dp[i-1] from j on.
unfoldable pub fill_row : Bytes → List Bytes → ℕ → ℕ → List ℕ → List ℕ
fill_row x [] diagonal left above = []
fill_row x (y ∷ b) diagonal left [] = []
fill_row x (y ∷ b) diagonal left (up ∷ above) =
    let cell = if bytes_eq x y then suc diagonal else if ltb left up then up else left in
    cell ∷ fill_row x b up cell above

-- dp[i], from dp[i-1]
abbrev pub next_row : Bytes → List Bytes → List ℕ → List ℕ
unfolding fill_row
next_row x b [] = []
next_row x b (corner ∷ above) = 0 ∷ fill_row x b corner 0 above

-- The outer loop.
unfoldable pub fill_table : List Bytes → List Bytes → List ℕ → List ℕ
unfolding next_row
fill_table [] b row = row
fill_table (x ∷ a) b row = fill_table a b (next_row x b row)

abbrev pub zeros : List Bytes → List ℕ
zeros [] = 0 ∷ []
zeros (y ∷ b) = 0 ∷ zeros b

abbrev pub last_cell : List ℕ → ℕ
last_cell [] = 0
last_cell (n ∷ []) = n
last_cell (n ∷ m ∷ row) = last_cell (m ∷ row)

unfoldable pub longest_common_subsequence : List Bytes → List Bytes → ℕ
unfolding fill_table
longest_common_subsequence [] b = 0
longest_common_subsequence (x ∷ a) [] = 0
longest_common_subsequence (x ∷ a) (y ∷ b) = last_cell (fill_table (x ∷ a) (y ∷ b) (zeros (y ∷ b)))
