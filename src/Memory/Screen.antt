-- ===== src/Memory/Screen.antt =====
-- What is not worth storing and what must not be stored: isLowValue and isSecretContent of
-- backend/internal/memory/service.go. The regular expressions are written out.
use open_agent_showcase.Common.{
  ℕ, zero, suc, String, List, [], ◌∷◌, Bool, true, false, ◌||◌, ◌&&◌, not, ◌==◌, ltb, leb,
  if◌then◌else◌, any, length, Bytes, bytes, bytes_eq, trim_space, to_lower, has_prefix, contains,
  drop,
}
use open_agent_showcase.Memory.Fraction.{Fraction, percent, below}
use open_agent_showcase.Memory.Text.{is_blank}

abbrev is_digit : ℕ → Bool
is_digit c = leb b'0' c && leb c b'9'

abbrev is_alphanumeric : ℕ → Bool
is_alphanumeric c = is_digit c || ((leb b'a' c && leb c b'z') || (leb b'A' c && leb c b'Z'))

-- Whether an expression matches somewhere, from what it does at the start.
abbrev matches_in : (Bytes → Bool) → Bytes → Bool
matches_in p [] = p []
matches_in p (c ∷ s) = p (c ∷ s) || matches_in p s

-- \d{1,2}:\d{2}, of which one digit before the colon is enough.
abbrev is_clock : Bytes → Bool
is_clock (h ∷ colon ∷ m ∷ n ∷ s) = is_digit h && (colon == b':' && (is_digit m && is_digit n))
is_clock s = false

abbrev has_word : Bytes → String → Bool
unfolding contains
has_word s w = contains s (bytes w)

abbrev low_phrases : List String
low_phrases =
    "agent said hello" ∷ "the task started" ∷ "task started at" ∷ "user asked a temporary question"
    ∷ "the user asked a temporary question" ∷ "hello" ∷ "hi there" ∷ "temporary question" ∷ []

unfoldable pub is_low_value : Bytes → Fraction → Bool
unfolding trim_space to_lower has_word
is_low_value content importance =
    let trimmed = trim_space content in
    let text = to_lower trimmed in
    if ltb (length trimmed) 4
    then true
    else if ltb (length trimmed) 8 && below importance (percent 60)
    then not (bytes_eq text (bytes "test"))
    else (any (has_word text) low_phrases && below importance (percent 70))
      || ((ltb (length trimmed) 20 && matches_in is_clock trimmed)
          || (any (λ w. bytes_eq text (bytes w)) ("hello" ∷ "hi" ∷ "thanks" ∷ "ok" ∷ [])
              || (has_word text "said hello" && ltb (length trimmed) 50)))

-- At least n bytes of a class.
abbrev starts_with_run : (ℕ → Bool) → ℕ → Bytes → Bool
starts_with_run p zero s = true
starts_with_run p (suc n) [] = false
starts_with_run p (suc n) (c ∷ s) = p c && starts_with_run p n s

abbrev is_key_byte : ℕ → Bool
is_key_byte c = is_alphanumeric c || (c == b'_' || c == b'-')

abbrev skip_one : (ℕ → Bool) → Bytes → Bytes
skip_one p [] = []
skip_one p (c ∷ s) = if p c then s else c ∷ s

abbrev skip_blanks : Bytes → Bytes
skip_blanks [] = []
skip_blanks (c ∷ s) = if is_blank c then skip_blanks s else c ∷ s

abbrev is_dash : ℕ → Bool
is_dash c = c == b'_' || c == b'-'

-- What follows api[_-]?key, if the text starts with that.
abbrev after_api_key : (Bytes → Bool) → Bytes → Bool
after_api_key p s =
    has_prefix s (bytes "api")
    && (let rest = skip_one is_dash (drop 3 s) in has_prefix rest (bytes "key") && p (drop 3 rest))

-- \s*[=:]\s*['"]?[a-zA-Z0-9_\-]{16,}
abbrev is_assignment : Bytes → Bool
is_assignment s = elim (skip_blanks s) [
  | [] ↦ false
  | c ∷ rest ↦
      (c == b'=' || c == b':')
      && starts_with_run is_key_byte 16 (skip_one (λ q. q == 39 || q == 34) (skip_blanks rest))
]

-- sk-[a-zA-Z0-9]{20,}
abbrev is_sk_key : Bytes → Bool
is_sk_key s = has_prefix s (bytes "sk-") && starts_with_run is_alphanumeric 20 (drop 3 s)

abbrev secret_words : List String
secret_words =
    "password" ∷ "secret" ∷ "token" ∷ "credentials" ∷ "bearer" ∷ "aws_access" ∷ "github_token"
    ∷ "-----begin" ∷ []

-- secretPattern, which ignores the case.
unfoldable pub secret_pattern : Bytes → Bool
unfolding to_lower has_word
secret_pattern content =
    let text = to_lower content in
    any (has_word text) secret_words
    || (matches_in (after_api_key (λ s. true)) text || matches_in is_sk_key text)

unfoldable pub is_secret_content : Bytes → Bool
unfolding to_lower has_word secret_pattern
is_secret_content content =
    let text = to_lower content in
    secret_pattern content
    && ((any (has_word text) ("sk-" ∷ "bearer" ∷ "password" ∷ []) || has_word content "-----BEGIN")
        || (((has_word text "api_key" || has_word text "apikey")
              && matches_in (after_api_key is_assignment) text)
            || (matches_in (starts_with_run is_alphanumeric 20) content
                && (has_word text "secret" || has_word text "token"))))
