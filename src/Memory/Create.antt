-- ===== src/Memory/Create.antt =====
-- Create of backend/internal/memory/service.go: its checks, what it fills in, and Consolidate.
use open_agent_showcase.Common.{
  ℕ, ◌+◌, String, Option, none, some, List, [], ◌∷◌, ◌&&◌, not, str_eq, if◌then◌else◌, is_some,
  has_str, Bytes, trim_space, Result, ok, err,
}
use open_agent_showcase.Memory.Fraction.{Fraction, over, percent, is_zero, below}
use open_agent_showcase.Memory.Text.{is_nothing}
use open_agent_showcase.Memory.Store.{Memory, Store, Input, Setting}
use open_agent_showcase.Memory.Handle.{Output, Outcome, rejected}
use open_agent_showcase.Memory.Consolidate.{consolidate}

-- The arguments of Create.
pub record Request : Type 0 where
  pub org : ℕ
  pub agent : Option ℕ
  pub project : Option ℕ
  pub kind : String
  pub scope : String
  pub source : String
  pub content : Bytes
  pub importance : Fraction
  pub expires : Option ℕ

abbrev pub valid_types : List String
valid_types = "working" ∷ "project" ∷ "agent" ∷ "conversation" ∷ "task" ∷ []

abbrev pub valid_scopes : List String
valid_scopes = "task" ∷ "session" ∷ "project" ∷ "agent" ∷ "conversation" ∷ "organization" ∷ []

abbrev pub working_ttl : ℕ
working_ttl = 3600

abbrev pub conversation_ttl : ℕ
conversation_ttl = 604800

abbrev pub min_importance_to_store : Fraction
min_importance_to_store = percent 30

abbrev pub with_ttl : ℕ → String → Option ℕ → Option ℕ
with_ttl now kind (some t) = some t
with_ttl now kind none =
    if str_eq kind "working"
    then some (now + working_ttl)
    else if str_eq kind "conversation"
    then some (now + conversation_ttl)
    else none

abbrev source_confidence : String → Fraction
source_confidence source =
    if has_str ("EXPLICIT_USER_PREFERENCE" ∷ "explicit_user_preference" ∷ "user_preference" ∷ [])
      source
    then percent 95
    else if str_eq source "USER_MESSAGE"
    then percent 80
    else percent 50

abbrev stored_importance : Request → Fraction
stored_importance r = if is_zero r.importance then over 1 2 else r.importance

abbrev stored_source : Request → String
stored_source r = if str_eq r.source "" then "manual" else r.source

-- The checks of Create, in their order.
unfoldable pub create_error : Request → Option String
unfolding trim_space
create_error r =
    if not (has_str valid_types r.kind)
    then some "invalid memory_type"
    else if not (has_str valid_scopes r.scope)
    then some "invalid scope"
    else if is_nothing (trim_space r.content)
    then some "content required"
    else if str_eq r.scope "project" && not (is_some r.project)
    then some "project_id required for project scope"
    else if str_eq r.scope "agent" && not (is_some r.agent)
    then some "agent_id required for agent scope"
    else if str_eq r.kind "conversation" && below (stored_importance r) min_importance_to_store
    then some "conversation memory importance too low"
    else none

unfoldable pub input_of : ℕ → Request → Input
input_of now r = record {
  org = r.org;
  agent = r.agent;
  project = r.project;
  conversation = none;
  task = none;
  kind = r.kind;
  scope = r.scope;
  source = stored_source r;
  content = r.content;
  importance = stored_importance r;
  confidence = source_confidence (stored_source r);
  expires = with_ttl now r.kind r.expires;
}

abbrev unless_rejected : Outcome → String → Option Memory → Result (Option Memory)
unless_rejected rejected reason m = err "memory rejected"
unless_rejected _ reason m = ok m

abbrev memory_of : Store × Result Output → Store × Result (Option Memory)
memory_of (st, ok out) = (st, unless_rejected out.outcome out.reason out.memory)
memory_of (st, err e) = (st, err e)

abbrev after_check : Setting → Request → Store → Option String → Store × Result (Option Memory)
unfolding consolidate input_of
after_check set r st (some e) = (st, err e)
after_check set r st none = memory_of (consolidate set (input_of set.now r) st)

unfoldable pub create : Setting → Request → Store → Store × Result (Option Memory)
unfolding create_error consolidate input_of
create set r st = after_check set r st (create_error r)
