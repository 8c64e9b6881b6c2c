-- ===== src/Memory/Consolidate.antt =====
-- Consolidate and findCandidates of backend/internal/memory/service.go.
pub mod Candidates
pub mod Isolation
pub mod Stored
pub mod Created
pub mod Repeated
use open_agent_showcase.Common.{
  ℕ, zero, suc, ◌+◌, ◌==◌, String, Option, none, some, List, [], ◌∷◌, Bool, true, false, ◌||◌, ◌&&◌,
  not, ltb, str_eq, if◌then◌else◌, is_some, has_str, any, find, keep, take, sort_by, Bytes,
  trim_space, Result, ok, err,
}
use open_agent_showcase.Memory.Fraction.{Fraction, over, percent, is_zero, below}
use open_agent_showcase.Memory.Text.{normalize, is_nothing}
use open_agent_showcase.Memory.Similar.{text_similarity, shares_subject, classify_relationship}
use open_agent_showcase.Memory.Screen.{is_low_value, is_secret_content}
use open_agent_showcase.Memory.Store.{
  Memory, Store, Input, Embedding, Reply, Setting, is_in_place, is_live,
}
use open_agent_showcase.Memory.Handle.{
  Outcome, rejected, Output, handle_exact_duplicate, handle_merge, handle_update,
  handle_contradiction, create_new_memory,
}

abbrev pub max_candidates : ℕ
max_candidates = 10

abbrev pub is_fresh : ℕ → Memory → Bool
is_fresh now m = elim m.expires [ none ↦ true | some t ↦ ltb now t ]

-- Not later than, in the order importance DESC, confidence DESC, last_confirmed_at DESC, of which NULL
-- comes first.
abbrev confirmed_first : Option ℕ → Option ℕ → Bool
confirmed_first none t = true
confirmed_first (some s) none = false
confirmed_first (some s) (some t) = not (ltb s t)

abbrev pub by_weight : Memory → Memory → Bool
by_weight m k =
    if below k.importance m.importance
    then true
    else if below m.importance k.importance
    then false
    else if below k.confidence m.confidence
    then true
    else if below m.confidence k.confidence
    then false
    else confirmed_first m.confirmed k.confirmed

-- The order of sort.Slice: the similarity to the text, the confidence, the importance.
abbrev pub by_similarity : Bytes → Memory → Memory → Bool
by_similarity content m k =
    let s = text_similarity m.content content in
    let t = text_similarity k.content content in
    if below t s
    then true
    else if below s t
    then false
    else if below k.confidence m.confidence
    then true
    else if below m.confidence k.confidence
    then false
    else not (below m.importance k.importance)

abbrev pub is_candidate : Setting → Input → Memory → Bool
is_candidate set in' m = is_in_place in' m && (is_live m.status && is_fresh set.now m)

abbrev pub is_related : Input → Memory → Bool
is_related in' m =
    not (below (text_similarity m.content in'.content) (percent 25))
    || shares_subject m.content in'.content

unfoldable pub nearest : Input → List Memory → Option Embedding → List Memory
nearest in' rows none =
    sort_by (by_similarity in'.content) (take max_candidates (sort_by by_weight rows))
nearest in' rows (some e) =
    let near = keep (is_related in') (take max_candidates (e.by_distance rows)) in
    if e.is_stub then sort_by (by_similarity in'.content) near else near

unfoldable pub find_candidates : Setting → Input → Store → List Memory
unfolding nearest
find_candidates set in' st = nearest in' (keep (is_candidate set in') st.memories) set.embedding

-- Whether the reply names a relationship.
abbrev pub accepted : Option Reply → Option Reply
accepted none = none
accepted (some r) =
    if has_str ("duplicate" ∷ "reinforce" ∷ "update" ∷ "contradiction" ∷ "unrelated" ∷ [])
      r.relationship
    then some r
    else none

abbrev pub is_merge : String → Bool
is_merge rel = str_eq rel "duplicate" || str_eq rel "reinforce"

-- The text of the model takes the place of the input's, if there is one.
abbrev pub with_text : Reply → Input → Input
with_text r in' = record in' {
  content = if is_nothing r.consolidated then in'.content else r.consolidated;
}

-- What the classification of a candidate leads to; `rest` is what follows for the other candidates.
unfoldable pub by_reply :
    Setting
    → Input
    → ℕ
    → Memory
    → Store
    → Store × Result Output
    → Option Reply
    → Store × Result Output
unfolding handle_merge handle_contradiction handle_update
by_reply set in' hash m st rest none = rest
by_reply set in' hash m st rest (some r) =
    if is_merge r.relationship
    then handle_merge set (with_text r in') m r.confidence st
    else if str_eq r.relationship "contradiction"
    then handle_contradiction set in' m hash st
    else if str_eq r.relationship "update"
    then handle_update set in' m hash st
    else rest

unfoldable pub by_relation :
    Setting
    → Input
    → ℕ
    → Memory
    → Store
    → Store × Result Output
    → String × Fraction
    → Store × Result Output
unfolding by_reply handle_merge handle_contradiction handle_update
by_relation set in' hash m st rest (rel, found) =
    if is_merge rel
    then handle_merge set in' m found st
    else if str_eq rel "contradiction"
    then handle_contradiction set in' m hash st
    else if str_eq rel "update"
    then handle_update set in' m hash st
    else if not (str_eq rel "ambiguous")
    then rest
    else by_reply set in' hash m st rest (accepted (set.model m.content in'.content))

-- The loop over the candidates, nearest first.
unfoldable pub settle : Setting → Input → ℕ → List Memory → Store → Store × Result Output
unfolding by_relation create_new_memory classify_relationship
settle set in' hash [] st = create_new_memory set in' hash st
settle set in' hash (m ∷ ms) st =
    by_relation set in' hash m st (settle set in' hash ms st)
      (classify_relationship m.content in'.content)

abbrev pub reject : String → Store → Store × Result Output
reject reason st =
    (st, ok (record { memory = none; outcome = rejected; reason = reason; related = none }))

abbrev pub after_query : Bool → List Memory → List Memory
after_query true ms = []
after_query false ms = ms

-- The look-up of a live row with the hash, and what follows.
unfoldable pub after_exact : Setting → Input → ℕ → Store → Option Memory → Store × Result Output
unfolding handle_exact_duplicate find_candidates settle
after_exact set in' hash st (some m) = handle_exact_duplicate set in' m.id hash st
after_exact set in' hash st none =
    settle set in' hash (after_query set.query_fails (find_candidates set in' st)) st

abbrev pub is_exact : Input → ℕ → Memory → Bool
is_exact in' hash m = is_in_place in' m && (m.hash == hash && is_live m.status)

abbrev pub find_exact : Input → ℕ → List Memory → Option Memory
find_exact in' hash rows = find (is_exact in' hash) rows

-- Why the input is not stored at all.
unfoldable pub screen : Input → Option String
unfolding trim_space normalize is_low_value is_secret_content
screen in' =
    if is_nothing (trim_space in'.content)
    then some "empty content"
    else if is_nothing (normalize in'.content)
    then some "empty after normalization"
    else if is_low_value in'.content in'.importance
    then some "low-value memory"
    else if is_secret_content in'.content
    then some "potential secret detected"
    else none

unfoldable pub after_screen : Setting → Input → Store → Option String → Store × Result Output
unfolding normalize after_exact
after_screen set in' st (some reason) = reject reason st
after_screen set in' st none =
    let hash = set.hash (normalize in'.content) in
    after_exact set in' hash st (find_exact in' hash st.memories)

unfoldable pub consolidate : Setting → Input → Store → Store × Result Output
unfolding screen after_screen
consolidate set in' st = after_screen set in' st (screen in')
