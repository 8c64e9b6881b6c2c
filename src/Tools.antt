-- ===== src/Tools.antt =====
-- The tools, backend/internal/tool/registry.go, with GetToolByName of repository/tool.go and the
-- tables of tool/executor.go. Inputs and schemas are what encoding/json decodes.
pub mod Permit
pub mod Execute
pub mod Approved
use open_agent_showcase.Common.{
  ℕ, String, Option, none, some, List, [], ◌∷◌, Bool, true, false, ◌||◌, ◌&&◌, not, str_eq,
  if◌then◌else◌, is_some, is_id, any, find, has_str, lookup_str, Bytes, bytes, contains,
}

mutual
  -- A number is its spelling.
  pub data Json : Type 0 where
    text : String → Json
    number : String → Json
    boolean : Bool → Json
    null : Json
    array : Elements → Json
    object : Fields → Json

  pub data Elements : Type 0 where
    stop : Elements
    item : Json → Elements → Elements

  pub data Fields : Type 0 where
    end : Fields
    field : String → Json → Fields → Fields

-- domain.Tool: a tool without an organization is for all.
pub record Tool : Type 0 where
  pub id : ℕ
  pub org : Option ℕ
  pub name : String
  pub schema : Option Fields
  pub risk : String
  pub policy : Option Fields
  pub enabled : Bool

unfoldable pub get : Fields → String → Option Json
get end k = none
get (field j v m) k = if str_eq j k then some v else get m k

abbrev as_text : Option Json → String
as_text none = ""
as_text (some v) = elim v [ text s ↦ s | _ ↦ "" ]

abbrev as_array : Option Json → Option Elements
as_array none = none
as_array (some v) = elim v [ array vs ↦ some vs | _ ↦ none ]

abbrev as_object : Option Json → Option Fields
as_object none = none
as_object (some v) = elim v [ object m ↦ some m | _ ↦ none ]

abbrev as_boolean : Option Json → Option Bool
as_boolean none = none
as_boolean (some v) = elim v [ boolean b ↦ some b | _ ↦ none ]

abbrev check_type : Json → String → Bool
check_type v expected =
    if str_eq expected "string"
    then elim v [ text s ↦ true | _ ↦ false ]
    else if str_eq expected "integer" || str_eq expected "number"
    then elim v [ number n ↦ true | _ ↦ false ]
    else if str_eq expected "boolean"
    then elim v [ boolean b ↦ true | _ ↦ false ]
    else if str_eq expected "array"
    then elim v [ array vs ↦ true | _ ↦ false ]
    else if str_eq expected "object"
    then elim v [ object m ↦ true | _ ↦ false ]
    else true

-- The printing of a value by %v is `print`.
module _ (print : Json → String) where
  abbrev in_enum : Elements → Json → Bool
  in_enum stop v = false
  in_enum (item w vs) v = str_eq (print w) (print v) || in_enum vs v

  unfoldable pub check_value : Option Fields → Json → Option String
  unfolding get
  check_value none v = none
  check_value (some m) v =
      let expected = as_text (get m "type") in
      if not (str_eq expected "") && not (check_type v expected)
      then some "field expects"
      else elim (as_array (get m "enum")) [
        | none ↦ none
        | some vs ↦ if in_enum vs v then none else some "field value not in enum"
      ]

  abbrev definition_of : Option Fields → String → Option Fields
  unfolding get
  definition_of none key = none
  definition_of (some m) key = as_object (get m key)

  unfoldable pub check_required : Option Fields → Elements → Fields → Option String
  unfolding get check_value
  check_required props stop input = none
  check_required props (item req reqs) input =
      let key = as_text (some req) in
      let rest = check_required props reqs input in
      elim (get input key) [
        | none ↦ some "missing required field"
        | some v ↦ elim (check_value (definition_of props key) v) [ some e ↦ some e | none ↦ rest ]
      ]

  -- Registry.ValidateInput
  unfoldable pub validate_input : Option Fields → Fields → Option String
  unfolding get check_required
  validate_input none input = none
  validate_input (some m) input = elim (as_array (get m "required")) [
    | none ↦ none
    | some reqs ↦ check_required (as_object (get m "properties")) reqs input
  ]

abbrev is_high_risk : Tool → Bool
is_high_risk t = str_eq t.risk "high" || str_eq t.risk "critical"

unfoldable pub needs_by_default : Tool → Bool
unfolding contains
needs_by_default t =
    is_high_risk t
    || (contains (bytes t.name) (bytes "publish")
        || (contains (bytes t.name) (bytes "send_") || contains (bytes t.name) (bytes "delete")))

unfoldable pub requires_approval : Tool → Bool
unfolding get needs_by_default
requires_approval t = elim t.policy [
  | none ↦ needs_by_default t
  | some m ↦ elim (as_boolean (get m "require_approval")) [ some b ↦ b | none ↦ needs_by_default t ]
]

-- Registry.Get
abbrev pub get_tool : List Tool → ℕ → String → Option Tool
get_tool tools org name = elim (find (λ (t : Tool). is_id t.org org && str_eq t.name name) tools) [
  | some t ↦ some t
  | none ↦ find (λ (t : Tool). not (is_some t.org) && str_eq t.name name) tools
]

abbrev capability_tools : List (String × List String)
capability_tools =
    ("content_creation", "editor" ∷ "content_gen" ∷ "create_task" ∷ [])
    ∷ ("publish_content", "publish_social_post" ∷ "social_publish" ∷ "cms_publish" ∷ [])
    ∷ ("performance_analysis", "read_social_analytics" ∷ "analytics" ∷ [])
    ∷ ("scheduling", "create_calendar_event" ∷ "scheduler" ∷ [])
    ∷ ("research", "web_search" ∷ "search" ∷ "rag" ∷ "http_request" ∷ [])
    ∷ ("communication", "send_channel_message" ∷ "messaging" ∷ [])
    ∷ ("data_management", "upload_file" ∷ "database" ∷ [])
    ∷ ("send_email", "send_email" ∷ [])
    ∷ ("external_api", "http_request" ∷ "http_tool" ∷ [])
    ∷ ("automation", "create_task" ∷ "workflow" ∷ [])
    ∷ []

-- capabilityToTools
abbrev pub capability_to_tools : String → List String
capability_to_tools cap = elim (lookup_str capability_tools cap) [ some names ↦ names | none ↦ [] ]
