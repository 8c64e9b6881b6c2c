-- ===== src/Runtime/Repair.antt =====
-- The actions in normalizeDecision of backend/internal/runtime/decision.go: what is read out of an
-- action that the model wrote in another form.
pub mod Kinds
use open_agent_showcase.Common.{
  String, Option, none, some, List, [], ◌∷◌, Bool, true, false, ◌||◌, ◌&&◌, not, str_eq,
  if◌then◌else◌, has_str, is_some, Bytes, bytes, bytes_eq, to_lower, contains,
}
use open_agent_showcase.Runtime.Json.{
  Value, Fields, text, object, other, end, field, get, get_text, get_object, param_text, or_param,
  set_param, is_empty,
}
use open_agent_showcase.Runtime.Decision.{Action, Decision, valid_action_types}
use open_agent_showcase.Runtime.Memory.{normalize_updates}

-- The case of a switch on the lower-case name that lists the action types.
unfoldable pub named_kind : List String → Bytes → Option String
named_kind [] name = none
named_kind (k ∷ ks) name = if bytes_eq (bytes k) name then some k else named_kind ks name

abbrev is_end : Fields → Bool
is_end end = true
is_end (field _ _ _) = false

-- The loop that copies a map and leaves some keys out.
unfoldable pub without : List String → Fields → Fields
without keys end = end
without keys (field k v m) =
    let rest = without keys m in if has_str keys k then rest else field k v rest

-- if act.Input == nil && len(m) > 0 { … if len(input) > 0 { act.Input = input } }
abbrev fill_input : List String → Fields → Action → Action
fill_input keys m act =
    if is_some act.input || is_end (without keys m)
    then act
    else record act { input = some (without keys m) }

abbrev fill_from_params : List String → Action → Action
fill_from_params keys act = elim act.params [ none ↦ act | some m ↦ fill_input keys m act ]

-- The first of the keys that holds a text that is not empty.
unfoldable pub first_text : List String → Fields → Bytes
unfolding get_text
first_text [] m = []
first_text (k ∷ ks) m =
    let rest = first_text ks m in
    elim (get_text m k) [ none ↦ rest | some s ↦ if is_empty s then rest else s ]

abbrev nonempty_object : Fields → String → Option Fields
nonempty_object m k = elim (get_object m k) [
  | none ↦ none
  | some o ↦ if is_end o then none else some o
]

-- A type that is missing, with a tool beside it.
unfoldable pub kind_of_tool : Action → Action
kind_of_tool act = elim (named_kind valid_action_types (to_lower act.tool)) [
  | some k ↦ record act { kind = k; tool = [] }
  | none ↦ fill_from_params ("tool" ∷ "type" ∷ "purpose" ∷ []) (record act { kind = "call_tool" })
]

abbrev known_tools : List String
known_tools =
    "web_search" ∷ "http_request" ∷ "publish_social_post" ∷ "send_email" ∷ "create_calendar_event"
    ∷ "upload_file" ∷ "send_channel_message" ∷ []

abbrev as_tool : Bytes → Action → Action
as_tool name act =
    fill_from_params ("tool" ∷ "type" ∷ "action" ∷ "purpose" ∷ [])
      (record act { kind = "call_tool"; tool = name })

-- A type that is missing, with a name in the parameters.
unfoldable pub kind_of_name : Bytes → Action → Action
kind_of_name name act = elim (named_kind valid_action_types (to_lower name)) [
  | some k ↦ record act { kind = k }
  | none ↦
      if is_some (named_kind known_tools (to_lower name))
      then as_tool name act
      else if contains (to_lower name) (bytes "task")
      then record act { kind = "create_task" }
      else if contains (to_lower name) (bytes "message")
      then record act { kind = "send_message" }
      else as_tool name act
]

-- params["tool"], or params["action"].
unfoldable pub name_in : Option Fields → Bytes
name_in params = or_param params "action" (set_param params "tool" [])

unfoldable pub infer_kind : Action → Action
infer_kind act =
    if not (str_eq act.kind "")
    then act
    else if not (is_empty act.tool)
    then kind_of_tool act
    else if is_empty (name_in act.params)
    then act
    else kind_of_name (name_in act.params) act

-- The third test of a missing type: only params["action"], and two tools.
abbrev infer_search : Action → Action
infer_search act = elim act.params [
  | none ↦ act
  | some m ↦
      let name = first_text ("action" ∷ []) m in
      if str_eq act.kind ""
        && is_some (named_kind ("web_search" ∷ "http_request" ∷ []) (to_lower name))
      then elim (nonempty_object m "params") [
        | none ↦ record act { kind = "call_tool"; tool = name }
        | some o ↦ record act { kind = "call_tool"; tool = name; input = some o }
      ]
      else act
]

abbrev title_keys : List String
title_keys = "task_title" ∷ "name" ∷ "taskName" ∷ "task_name" ∷ "title" ∷ []

abbrev detail_keys : List String
detail_keys = "details" ∷ "description" ∷ "content" ∷ "body" ∷ "detail" ∷ []

abbrev or_bytes : Bytes → Bytes → Bytes
or_bytes s t = if is_empty s then t else s

unfoldable pub fill_task : Action → Action
fill_task act = elim act.params [
  | none ↦ act
  | some m ↦
      if str_eq act.kind "create_task" && is_empty act.title
      then (let src : Fields = elim (nonempty_object m "params") [ none ↦ m | some o ↦ o ] in
          record act {
            title = or_bytes (first_text title_keys src) (first_text title_keys m);
            description =
                or_bytes act.description
                  (or_bytes (first_text detail_keys src) (first_text ("purpose" ∷ []) src));
          })
      else act
]

unfoldable pub fill_message : Action → Action
fill_message act = elim act.params [
  | none ↦ act
  | some m ↦
      if str_eq act.kind "send_message" && is_empty act.body
      then record act { body = first_text ("message" ∷ "content" ∷ "text" ∷ "body" ∷ []) m }
      else act
]

unfoldable pub fill_tool : Action → Action
fill_tool act = elim act.params [
  | none ↦ act
  | some m ↦
      if str_eq act.kind "call_tool"
      then elim (nonempty_object m "params") [
        | some o ↦ fill_input ("purpose" ∷ []) o act
        | none ↦ fill_input ("tool" ∷ "type" ∷ "action" ∷ "params" ∷ "purpose" ∷ []) m act
      ]
      else act
]

unfoldable pub fill_query : Action → Action
fill_query act = elim act.params [
  | none ↦ act
  | some m ↦
      if str_eq act.kind "call_tool"
        && (bytes_eq act.tool (bytes "web_search")
            && (not (is_some act.input) && not (is_empty (first_text ("query" ∷ []) m))))
      then record act { input = some (field "query" (text (first_text ("query" ∷ []) m)) end) }
      else act
]

-- The body of the loop over the actions.
unfoldable pub normalize_action : Action → Action
normalize_action act =
    fill_query (fill_tool (fill_message (fill_task (infer_search (infer_kind act)))))

unfoldable pub normalize_actions : List Action → List Action
normalize_actions [] = []
normalize_actions (act ∷ acts) = normalize_action act ∷ normalize_actions acts

unfoldable pub normalize_decision : Decision → Decision
normalize_decision d = record d {
  actions = normalize_actions d.actions;
  memory_updates = normalize_updates d.memory_updates;
}
