-- ===== src/Memory/Retrieve.antt =====
-- Retrieve, List and deduplicateForContext of backend/internal/memory/service.go. Limits are natural
-- numbers, 0 for all that are not positive.
pub mod Access
pub mod Context
use open_agent_showcase.Common.{
  ℕ, ◌+◌, ◌-◌, ◌==◌, String, Option, none, some, List, [], ◌∷◌, ◌++◌, Bool, true, false, ◌||◌, ◌&&◌,
  not, ltb, str_eq, if◌then◌else◌, is_id, has_str, any, keep, take, Bytes, bytes_eq, Result, ok,
  err,
}
use open_agent_showcase.Memory.Fraction.{Fraction, below}
use open_agent_showcase.Memory.Text.{normalize, has_bytes}
use open_agent_showcase.Memory.Store.{Memory}
use open_agent_showcase.Memory.Consolidate.{is_fresh}

-- A parameter of a query.
pub data Value : Type 0 where
  uuid : ℕ → Value
  number : Fraction → Value
  vector : Bytes → Value
  size : ℕ → Value

pub data Column : Type 0 where
  agent_id project_id : Column

-- The conditions of the scope filter: `scope = s`, `column = $n`, and their combinations.
pub data Clause : Type 0 where
  of_scope : String → Clause
  of_owner : Column → ℕ → Clause
  both either : Clause → Clause → Clause

-- $n, from 1.
unfoldable pub parameter : List Value → ℕ → Option Value
parameter [] n = none
parameter (v ∷ vs) n = if n == 1 then some v else parameter vs (n - 1)

abbrev is_uuid : Option Value → Bool
is_uuid (some (uuid _)) = true
is_uuid _ = false

-- A parameter that is compared with a UUID column is a UUID: the query fails otherwise.
unfoldable pub has_type : List Value → Clause → Bool
unfolding parameter
has_type args (of_scope s) = true
has_type args (of_owner c n) = is_uuid (parameter args n)
has_type args (both p q) = has_type args p && has_type args q
has_type args (either p q) = has_type args p && has_type args q

abbrev column : Column → Memory → Option ℕ
column agent_id m = m.agent
column project_id m = m.project

abbrev is_value : Option ℕ → Option Value → Bool
is_value o (some (uuid a)) = is_id o a
is_value o _ = false

unfoldable pub holds : List Value → Memory → Clause → Bool
unfolding parameter
holds args m (of_scope s) = str_eq m.scope s
holds args m (of_owner c n) = is_value (column c m) (parameter args n)
holds args m (both p q) = holds args m p && holds args m q
holds args m (either p q) = holds args m p || holds args m q

abbrev owned_by : String → Column → ℕ → Clause
owned_by scope c n = both (of_scope scope) (of_owner c n)

-- What buildScopeFilter has so far: the clauses, the parameters and the next number.
pub record Filter : Type 0 where
  pub clauses : List Clause
  pub args : List Value
  pub next : ℕ

abbrev for_project : Option ℕ → Filter → Filter
for_project none f = f
for_project (some p) f = record {
  clauses =
      f.clauses ++ owned_by "project" project_id f.next ∷ owned_by "task" project_id f.next ∷ [];
  args = f.args ++ uuid p ∷ [];
  next = f.next + 1;
}

abbrev for_agent : Option ℕ → Filter → Filter
for_agent none f = f
for_agent (some a) f = record {
  clauses = f.clauses ++ owned_by "agent" agent_id f.next ∷ owned_by "session" agent_id f.next ∷ [];
  args = f.args ++ uuid a ∷ [];
  next = f.next + 1;
}

-- The scopes working and conversation.
abbrev for_talk : Option ℕ → Option ℕ → Filter → Filter
for_talk (some a) (some p) f = record {
  clauses =
      f.clauses
      ++ both (of_scope "working")
          (either (of_owner agent_id f.next) (of_owner project_id (f.next + 1)))
        ∷ both (of_scope "conversation")
            (either (of_owner project_id (f.next + 1)) (of_owner agent_id f.next))
        ∷ [];
  args = f.args ++ uuid a ∷ uuid p ∷ [];
  next = f.next + 2;
}
for_talk (some a) none f = record f {
  clauses =
      f.clauses
      ++ owned_by "conversation" agent_id (f.next - 1)
        ∷ owned_by "working" agent_id (f.next - 1)
        ∷ [];
}
for_talk none (some p) f = record f {
  clauses = f.clauses ++ owned_by "conversation" project_id (f.next - 2) ∷ [];
}
for_talk none none f = record f {
  clauses = f.clauses ++ of_scope "conversation" ∷ of_scope "working" ∷ [];
}

unfoldable pub build_scope_filter : Option ℕ → Option ℕ → List Value → ℕ → Filter
build_scope_filter agent project args next = for_talk agent project (
    for_agent agent (
      for_project project
        (record { clauses = of_scope "organization" ∷ []; args = args; next = next })))

unfoldable pub every_type : List Value → List Clause → Bool
unfolding has_type
every_type args [] = true
every_type args (c ∷ cs) = has_type args c && every_type args cs

unfoldable pub some_holds : List Value → Memory → List Clause → Bool
unfolding holds
some_holds args m [] = false
some_holds args m (c ∷ cs) = holds args m c || some_holds args m cs

abbrev is_retired : String → Bool
is_retired s = has_str ("superseded" ∷ "archived" ∷ "stale" ∷ "merged" ∷ []) s

-- `seen` holds the normalized texts so far.
unfoldable pub first_of_each : List Bytes → List Memory → List Memory
unfolding normalize
first_of_each seen [] = []
first_of_each seen (m ∷ ms) =
    let text = normalize m.content in
    let skip = has_bytes seen text || is_retired m.status in
    let rest = first_of_each (if skip then seen else text ∷ seen) ms in
    if skip then rest else m ∷ rest

unfoldable pub deduplicate_for_context : List Memory → List Memory
unfolding first_of_each
deduplicate_for_context ms = first_of_each [] ms

abbrev pub limit_of : ℕ → ℕ → ℕ → ℕ
limit_of default_size largest n = if n == 0 || ltb largest n then default_size else n

-- The arguments of Retrieve: the embedding of the query, if there is one, and the time. `order` is what
-- the ORDER BY of the query makes of its rows.
pub record Search : Type 0 where
  pub org : ℕ
  pub agent : Option ℕ
  pub project : Option ℕ
  pub embedding : Option Bytes
  pub limit : ℕ
  pub min_importance : Fraction
  pub now : ℕ
  pub order : List Memory → List Memory

-- The conditions that do not depend on the scope.
abbrev pub is_retrievable : Search → Memory → Bool
is_retrievable q m =
    (m.org == q.org && not (below m.importance q.min_importance))
    && (has_str ("active" ∷ "conflict" ∷ []) m.status && is_fresh q.now m)

abbrev last_args : Search → List Value
last_args q = elim q.embedding [
  | none ↦ size (limit_of 5 20 q.limit) ∷ []
  | some e ↦ vector e ∷ size (limit_of 5 20 q.limit) ∷ []
]

abbrev pub filter_of : Search → Filter
unfolding build_scope_filter
filter_of q =
    let f = build_scope_filter q.agent q.project (uuid q.org ∷ number q.min_importance ∷ []) 3 in
    record f { args = f.args ++ last_args q }

unfoldable pub retrieve : Search → List Memory → Result (List Memory)
unfolding build_scope_filter every_type some_holds deduplicate_for_context
retrieve q rows =
    let f = filter_of q in
    if every_type f.args f.clauses
    then ok (
        deduplicate_for_context (
          take (limit_of 5 20 q.limit)
            (q.order (keep (λ m. is_retrievable q m && some_holds f.args m f.clauses) rows))))
    else err "operator does not exist: uuid = real"

-- The arguments of List; an empty text is no condition.
pub record Listing : Type 0 where
  pub org : ℕ
  pub agent : Option ℕ
  pub project : Option ℕ
  pub status : String
  pub scope : String
  pub kind : String
  pub limit : ℕ
  pub order : List Memory → List Memory

abbrev passes : String → String → Bool
passes wanted text = str_eq wanted "" || str_eq text wanted

abbrev is_wanted : Option ℕ → Option ℕ → Bool
is_wanted none o = true
is_wanted (some a) o = is_id o a

abbrev pub is_listed : Listing → Memory → Bool
is_listed q m =
    m.org == q.org
    && ((if str_eq q.status ""
          then has_str ("active" ∷ "conflict" ∷ []) m.status
          else str_eq m.status q.status)
        && (passes q.scope m.scope
            && (passes q.kind m.kind
                && (is_wanted q.agent m.agent && is_wanted q.project m.project))))

unfoldable pub list_memories : Listing → List Memory → List Memory
unfolding deduplicate_for_context
list_memories q rows =
    deduplicate_for_context (take (limit_of 20 100 q.limit) (q.order (keep (is_listed q) rows)))
