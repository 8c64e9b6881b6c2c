-- ===== src/Memory/Similar.antt =====
-- How two memories relate: the similarity, the subjects, the values and classifyRelationship of
-- backend/internal/memory/service.go.
pub mod Symmetric
pub mod Relation
use open_agent_showcase.Common.{
  ℕ, ◌+◌, ◌*◌, ◌-◌, String, Option, List, [], ◌∷◌, ◌++◌, reverse, Bool, true, false, ◌||◌, ◌&&◌,
  not, ◌==◌, ltb, leb, if◌then◌else◌, any, length, keep, Bytes, bytes, bytes_eq, str_eq, to_lower,
  contains,
}
use open_agent_showcase.Memory.Fraction.{Fraction, over, percent, below, at_most, plus, times}
use open_agent_showcase.Memory.Text.{normalize, words_of, token_set, has_bytes, is_nothing}
use open_agent_showcase.Memory.Sequence.{longest_common_subsequence}

-- The tokens of a set that another has too.
unfoldable pub shared_tokens : List Bytes → List Bytes → ℕ
shared_tokens a b = length (keep (has_bytes b) a)

unfoldable pub jaccard : List Bytes → List Bytes → Fraction
unfolding shared_tokens
jaccard a b =
    let inter = shared_tokens a b in
    let union = length a + length b - inter in
    if length a == 0 && length b == 0
    then over 1 1
    else if union == 0
    then over 0 1
    else over inter union

unfoldable pub text_similarity : Bytes → Bytes → Fraction
text_similarity a b =
    let a' = normalize a in
    let b' = normalize b in
    if bytes_eq a' b'
    then over 1 1
    else let j = jaccard (token_set a') (token_set b') in
      if length a' == 0 && length b' == 0
      then over 0 1
      else let common = longest_common_subsequence (words_of a') (words_of b') in
        let sequence = over (common * 2) (length (words_of a') + length (words_of b')) in
        plus (times j (over 6 10)) (times sequence (over 4 10))

abbrev pub subjects : List String
subjects =
    "customer" ∷ "user" ∷ "report" ∷ "reports" ∷ "preference" ∷ "prefers" ∷ "format" ∷ "csv" ∷ "pdf"
    ∷ "project" ∷ "task" ∷ "memory" ∷ []

abbrev pub has_word : Bytes → String → Bool
unfolding contains
has_word s w = contains s (bytes w)

unfoldable pub shares_subject : Bytes → Bytes → Bool
shares_subject a b =
    let a' = to_lower a in
    let b' = to_lower b in
    any (λ s. has_word a' s && has_word b' s) subjects
    || below (percent 30) (jaccard (token_set (normalize a)) (token_set (normalize b)))

-- The last of the words that a text contains, or the empty text.
unfoldable pub last_word : Bytes → String → List String → String
unfolding has_word
last_word s found [] = found
last_word s found (w ∷ ws) = last_word s (if has_word s w then w else found) ws

abbrev pub is_other : String → String → Bool
is_other v w = not (str_eq v "") && (not (str_eq w "") && not (str_eq v w))

-- Where the scan for \d+\.?\d*%? stands, with what is read, backwards.
pub data Scan : Type 0 where
  outside : Scan
  whole fraction : Bytes → Scan

abbrev is_digit : ℕ → Bool
is_digit c = leb b'0' c && leb c b'9'

abbrev next_scan : Scan → ℕ → Scan
next_scan outside c = if is_digit c then whole (c ∷ []) else outside
next_scan (whole n) c =
    if is_digit c then whole (c ∷ n) else if c == b'.' then fraction (c ∷ n) else outside
next_scan (fraction n) c = if is_digit c then fraction (c ∷ n) else outside

-- The number that ends before a byte, or with it.
abbrev ended_number : Bytes → ℕ → List Bytes → List Bytes
ended_number n c found = reverse (if c == b'%' then c ∷ n else n) ∷ found

abbrev emit : Scan → ℕ → List Bytes → List Bytes
emit outside c found = found
emit (whole n) c found = if is_digit c || c == b'.' then found else ended_number n c found
emit (fraction n) c found = if is_digit c then found else ended_number n c found

abbrev emit_last : Scan → List Bytes
emit_last outside = []
emit_last (whole n) = reverse n ∷ []
emit_last (fraction n) = reverse n ∷ []

-- reNum.FindAllString
unfoldable pub find_numbers : Scan → Bytes → List Bytes
find_numbers st [] = emit_last st
find_numbers st (c ∷ s) = emit st c (find_numbers (next_scan st c) s)

-- strings.Join(parts, ",")
abbrev pub join : List Bytes → Bytes
join [] = []
join (n ∷ []) = n
join (n ∷ m ∷ ns) = n ++ b',' ∷ join (m ∷ ns)

abbrev pub is_none : List Bytes → Bool
is_none [] = true
is_none (_ ∷ _) = false

abbrev pub value_formats : List String
value_formats =
    "csv" ∷ "pdf" ∷ "json" ∷ "xlsx" ∷ "xls" ∷ "tsv" ∷ "xml" ∷ "txt" ∷ "html" ∷ "parquet" ∷ "avro"
    ∷ []

unfoldable pub has_value_change : Bytes → Bytes → Bool
has_value_change a b =
    let a' = to_lower a in
    let b' = to_lower b in
    let m = find_numbers outside a' in
    let n = find_numbers outside b' in
    is_other (last_word a' "" value_formats) (last_word b' "" value_formats)
    || (not (is_none m)
        && (not (is_none n) && (not (bytes_eq (join m) (join n)) && shares_subject a b)))

abbrev pub opposed_formats : List String
opposed_formats = "csv" ∷ "pdf" ∷ "json" ∷ "xlsx" ∷ "xls" ∷ "tsv" ∷ "xml" ∷ "txt" ∷ "html" ∷ []

abbrev pub contradict_pairs : List (String × String)
contradict_pairs =
    ("csv", "pdf")
    ∷ ("pdf", "csv")
    ∷ ("enabled", "disabled")
    ∷ ("active", "archived")
    ∷ ("yes", "no")
    ∷ []

abbrev pub opposes : Bytes → Bytes → String × String → Bool
unfolding has_word
opposes a b p = (has_word a p.0 && has_word b p.1) || (has_word a p.1 && has_word b p.0)

abbrev pub differ : Bool → Bool → Bool
differ true c = not c
differ false c = c

unfoldable pub is_contradictory : Bytes → Bytes → Bool
is_contradictory a b =
    let a' = to_lower a in
    let b' = to_lower b in
    shares_subject a b
    && (is_other (last_word a' "" opposed_formats) (last_word b' "" opposed_formats)
        || (differ (has_word a' "not") (has_word b' "not") || any (opposes a' b') contradict_pairs))

-- The relation and the confidence in it.
unfoldable pub classify_relationship : Bytes → Bytes → String × Fraction
classify_relationship old new =
    let jacc = jaccard (token_set (normalize old)) (token_set (normalize new)) in
    let sim = text_similarity old new in
    let same_subject = shares_subject old new in
    let changed = has_value_change old new in
    if bytes_eq (normalize old) (normalize new)
    then ("duplicate", percent 95)
    else if is_contradictory old new
    then ("contradiction", percent 85)
    else if (same_subject && changed) && (below (percent 45) sim || below (percent 35) jacc)
    then ("update", percent 78)
    else if below (percent 88) sim || below (percent 85) jacc
    then ("duplicate", percent 90)
    else if below (percent 75) sim || below (percent 70) jacc
    then ("reinforce", percent 80)
    else if same_subject && (below (percent 45) sim || below (percent 40) jacc)
    then (if changed then ("update", percent 75) else ("reinforce", percent 70))
    else if below sim (percent 30) && below jacc (percent 20)
    then ("unrelated", percent 20)
    else if at_most (percent 30) sim && at_most sim (percent 75)
    then ("ambiguous", percent 50)
    else ("unrelated", percent 30)
