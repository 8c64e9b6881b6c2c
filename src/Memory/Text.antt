-- ===== src/Memory/Text.antt =====
-- The texts of backend/internal/memory/service.go: normalizeContent, strings.Fields, tokenSet and
-- chooseStrongerContent.
use open_agent_showcase.Common.{
  ℕ, ◌+◌, [], ◌∷◌, List, Bool, true, false, ◌||◌, ◌&&◌, not, ◌==◌, ltb, leb, if◌then◌else◌, any,
  length, Bytes, bytes_eq, is_space, trim_space, to_lower, reverse,
}

-- \s of a regular expression, which leaves the vertical tab out.
abbrev pub is_blank : ℕ → Bool
is_blank c = c == 32 || (c == 9 || (c == 10 || (c == 12 || c == 13)))

-- Each run of \s+ becomes a space; `in_run` says that the run has its space already.
unfoldable pub collapse : Bool → Bytes → Bytes
collapse in_run [] = []
collapse in_run (c ∷ s) =
    let rest = collapse (is_blank c) s in
    if is_blank c then (if in_run then rest else 32 ∷ rest) else c ∷ rest

abbrev drop_period : Bytes → Bytes
drop_period [] = []
drop_period (c ∷ s) = if c == b'.' then s else c ∷ s

-- strings.TrimSuffix(s, ".")
abbrev pub without_period : Bytes → Bytes
without_period s = reverse (drop_period (reverse s))

unfoldable pub normalize : Bytes → Bytes
unfolding collapse trim_space to_lower
normalize s = without_period (collapse false (to_lower (trim_space s)))

abbrev flush : Bytes → List Bytes → List Bytes
flush [] words = words
flush (c ∷ s) words = reverse (c ∷ s) ∷ words

-- strings.FieldsFunc, with the word that is being read, backwards.
unfoldable pub fields_func : (ℕ → Bool) → Bytes → Bytes → List Bytes
fields_func is_gap word [] = flush word []
fields_func is_gap word (c ∷ s) =
    let rest = fields_func is_gap (if is_gap c then [] else c ∷ word) s in
    if is_gap c then flush word rest else rest

-- strings.Fields
abbrev pub words_of : Bytes → List Bytes
unfolding fields_func
words_of s = fields_func is_space [] s

abbrev pub is_separator : ℕ → Bool
is_separator c = not ((leb b'a' c && leb c b'z') || (leb b'0' c && leb c b'9'))

abbrev pub has_bytes : List Bytes → Bytes → Bool
has_bytes set t = any (bytes_eq t) set

-- The tokens of two bytes and more, each once.
unfoldable pub collect : List Bytes → List Bytes
unfolding to_lower trim_space
collect [] = []
collect (t ∷ ts) =
    let rest = collect ts in
    let u = to_lower (trim_space t) in
    if ltb (length u) 2 then rest else if has_bytes rest u then rest else u ∷ rest

unfoldable pub token_set : Bytes → List Bytes
unfolding collect fields_func
token_set s = collect (fields_func is_separator [] s)

-- Twice the score of a formulation, and 4 more: half a point a word and half a point a token, less 2
-- for fewer than four words.
unfoldable pub score : Bytes → ℕ
unfolding token_set words_of
score s =
    let words = length (words_of s) in words + length (token_set s) + (if ltb words 4 then 0 else 4)

abbrev pub is_nothing : Bytes → Bool
is_nothing [] = true
is_nothing (_ ∷ _) = false

unfoldable pub choose_stronger : Bytes → Bytes → Bytes
unfolding trim_space score
choose_stronger a b =
    let a' = trim_space a in
    let b' = trim_space b in
    if is_nothing b'
    then a'
    else if is_nothing a'
    then b'
    else if ltb (score a') (score b')
    then b'
    else a'
