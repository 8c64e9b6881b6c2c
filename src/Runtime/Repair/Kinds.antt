-- ===== src/Runtime/Repair/Kinds.antt =====
-- The type of an action after normalizeDecision of backend/internal/runtime/decision.go.
use open_agent_showcase.Common.{
  String, some, List, [], ◌∷◌, true, false, ◌&&◌, str_eq, has_str, Bytes, to_lower, ◌≡◌, ◌⊎◌, refl,
  arith, Bool-cases, inl, inr, eq_iff, ◌∙◌, subst, sym, ap,
}
use open_agent_showcase.Runtime.Json.{is_empty}
use open_agent_showcase.Runtime.Decision.{Action, valid_action_types}
use open_agent_showcase.Runtime.Repair.{
  named_kind, kind_of_tool, kind_of_name, name_in, infer_kind, infer_search, fill_task,
  fill_message, fill_tool, fill_query, normalize_action, fill_from_params,
}

-- The steps after the first keep a type that is there.
module _ (act : Action) where
  fill_task-kind : (fill_task act).kind ≡ act.kind
  unfolding fill_task
  fill_task-kind = ground arith

  fill_message-kind : (fill_message act).kind ≡ act.kind
  unfolding fill_message
  fill_message-kind = ground arith

  fill_tool-kind : (fill_tool act).kind ≡ act.kind
  unfolding fill_tool
  fill_tool-kind = ground arith

  fill_query-kind : (fill_query act).kind ≡ act.kind
  unfolding fill_query
  fill_query-kind = ground arith

  infer_search-kind : str_eq act.kind "" ≡ false → (infer_search act).kind ≡ act.kind
  infer_search-kind h = ground arith

  fill_from_params-kind : (keys : List String) → (fill_from_params keys act).kind ≡ act.kind
  fill_from_params-kind keys = ground arith

-- The steps after the first together.
later-kind :
    (act : Action)
    → str_eq act.kind "" ≡ false
    → (fill_query (fill_tool (fill_message (fill_task (infer_search act))))).kind ≡ act.kind
later-kind act h =
    fill_query-kind (fill_tool (fill_message (fill_task (infer_search act))))
    ∙ fill_tool-kind (fill_message (fill_task (infer_search act)))
    ∙ fill_message-kind (fill_task (infer_search act))
    ∙ fill_task-kind (infer_search act)
    ∙ infer_search-kind act h

named_kind-has :
    (ks : List String) (name : Bytes) (k : String)
    → named_kind ks name ≡ some k
    → has_str ks k ≡ true
unfolding named_kind
named_kind-has [] name k h = cc
named_kind-has (x ∷ ks) name k h = ground (arith, named_kind-has ks name k, eq_iff x k)

by_kind :
    (k k' : String)
    → k ≡ k'
    → has_str valid_action_types k' ≡ true
    → has_str valid_action_types k ≡ true
by_kind k k' e = subst (λ x. has_str valid_action_types x ≡ true) (sym e)

kind_of_tool-cases :
    (act : Action)
    → ((kind_of_tool act).kind ≡ "call_tool")
      ⊎ (named_kind valid_action_types (to_lower act.tool) ≡ some (kind_of_tool act).kind)
unfolding kind_of_tool
kind_of_tool-cases act = ground arith

kind_of_tool-valid : (act : Action) → has_str valid_action_types (kind_of_tool act).kind ≡ true
kind_of_tool-valid act = elim (kind_of_tool-cases act) [
  | inl e ↦ by_kind (kind_of_tool act).kind "call_tool" e refl
  | inr e ↦ named_kind-has valid_action_types (to_lower act.tool) (kind_of_tool act).kind e
]

kind_of_name-cases :
    (name : Bytes) (act : Action)
    → ((kind_of_name name act).kind ≡ "call_tool")
      ⊎ ((kind_of_name name act).kind ≡ "create_task")
      ⊎ ((kind_of_name name act).kind ≡ "send_message")
      ⊎ (named_kind valid_action_types (to_lower name) ≡ some (kind_of_name name act).kind)
unfolding kind_of_name
kind_of_name-cases name act = ground arith

kind_of_name-valid :
    (name : Bytes) (act : Action) → has_str valid_action_types (kind_of_name name act).kind ≡ true
kind_of_name-valid name act = elim (kind_of_name-cases name act) [
  | inl e ↦ by_kind (kind_of_name name act).kind "call_tool" e refl
  | inr (inl e) ↦ by_kind (kind_of_name name act).kind "create_task" e refl
  | inr (inr (inl e)) ↦ by_kind (kind_of_name name act).kind "send_message" e refl
  | inr (inr (inr e)) ↦
      named_kind-has valid_action_types (to_lower name) (kind_of_name name act).kind e
]

is_valid-nonempty : (k : String) → has_str valid_action_types k ≡ true → str_eq k "" ≡ false
is_valid-nonempty k h = elim (Bool-cases (str_eq k "")) [
  | inr e ↦ e
  | inl e ↦ absurd (missing (by_kind "" k (sym ((eq_iff k "").0 e)) h))
]
  where
    missing : ¬ (has_str valid_action_types "" ≡ true)
    missing h = cc

infer_kind-keeps : (act : Action) → str_eq act.kind "" ≡ false → infer_kind act ≡ act
unfolding infer_kind
infer_kind-keeps act h = rw h refl

infer_kind-valid :
    (act : Action)
    → str_eq act.kind "" ≡ true
    → is_empty act.tool && is_empty (name_in act.params) ≡ false
    → has_str valid_action_types (infer_kind act).kind ≡ true
unfolding infer_kind
infer_kind-valid act h given = elim (Bool-cases (is_empty act.tool)) [
  | inr e ↦
      by_kind (infer_kind act).kind (kind_of_tool act).kind (ap (λ a. a.kind) (by_tool e))
        (kind_of_tool-valid act)
  | inl e ↦
      by_kind (infer_kind act).kind (kind_of_name (name_in act.params) act).kind
        (ap (λ a. a.kind) (by_name e)) (kind_of_name-valid (name_in act.params) act)
]
  where
    by_tool : is_empty act.tool ≡ false → infer_kind act ≡ kind_of_tool act
    by_tool e = rw (h, e, infer_kind) refl

    by_name : is_empty act.tool ≡ true → infer_kind act ≡ kind_of_name (name_in act.params) act
    by_name e = rw (h, e, rw e at given, infer_kind) refl

-- normalizeDecision keeps the type of an action that has one.
pub normalize_action-kind :
    (act : Action) → str_eq act.kind "" ≡ false → (normalize_action act).kind ≡ act.kind
unfolding normalize_action
normalize_action-kind act h =
    later-kind (infer_kind act) (rw (infer_kind-keeps act h) h)
    ∙ ap (λ a. a.kind) (infer_kind-keeps act h)

-- normalizeDecision gives one of the ten types to an action without a type that has a tool, or a text
-- under `tool` or `action` in its parameters.
normalize_action-valid :
    (act : Action)
    → str_eq act.kind "" ≡ true
    → is_empty act.tool && is_empty (name_in act.params) ≡ false
    → has_str valid_action_types (normalize_action act).kind ≡ true
unfolding normalize_action
normalize_action-valid act h given =
    let valid = infer_kind-valid act h given in
    by_kind _ _ (later-kind (infer_kind act) (is_valid-nonempty _ valid)) valid
