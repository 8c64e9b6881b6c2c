-- ===== src/Runtime/Decision.antt =====
-- AgentDecision, and ValidateDecision of backend/internal/runtime/decision.go.
pub mod Checks
use open_agent_showcase.Common.{
  ℕ, zero, suc, ◌+◌, String, Option, none, some, List, [], ◌∷◌, Bool, true, false, ◌||◌, ◌&&◌, not,
  str_eq, ltb, if◌then◌else◌, has_str, is_some, length, Bytes, bytes, bytes_eq, to_lower, contains,
}
use open_agent_showcase.Runtime.Json.{
  Value, Fields, get, get_text, param_text, or_param, set_param, is_empty,
}

pub record Action : Type 0 where
  pub kind : String
  pub params : Option Fields
  pub title : Bytes
  pub description : Bytes
  pub agent_id : Bytes
  pub task_id : Bytes
  pub channel_id : Bytes
  pub body : Bytes
  pub tool : Bytes
  pub input : Option Fields

-- A float64 up to the tests made of it: zero, the default, or another value.
pub data Weight : Type 0 where
  unset half : Weight
  given : ℕ → Weight

pub record MemoryUpdate : Type 0 where
  pub content : Bytes
  pub memory_type : Bytes
  pub scope : Bytes
  pub importance : Weight

pub record Decision : Type 0 where
  pub response : Bytes
  pub status : String
  pub actions : List Action
  pub memory_updates : List MemoryUpdate

abbrev pub valid_decision_statuses : List String
valid_decision_statuses =
    "continue" ∷ "delegate" ∷ "waiting" ∷ "approval_required" ∷ "needs_human" ∷ "completed"
    ∷ "failed" ∷ []

abbrev pub valid_action_types : List String
valid_action_types =
    "send_message" ∷ "create_task" ∷ "delegate_task" ∷ "call_tool" ∷ "request_approval"
    ∷ "request_human_input" ∷ "update_task" ∷ "complete_task" ∷ "fail_task" ∷ "store_memory" ∷ []

abbrev pub is_valid_memory_type : Bytes → Bool
is_valid_memory_type s =
    bytes_eq s (bytes "working")
    || (bytes_eq s (bytes "project")
        || (bytes_eq s (bytes "agent") || bytes_eq s (bytes "conversation")))

abbrev pub max_text : ℕ
max_text = 5000

abbrev message_body : Action → Bytes
message_body act =
    if is_empty act.body
    then or_param act.params "content"
        (or_param act.params "message" (set_param act.params "body" []))
    else act.body

abbrev task_title : Action → Bytes
task_title act =
    if is_empty act.title
    then or_param act.params "task_title" (set_param act.params "title" [])
    else act.title

abbrev delegated_task : Action → Bytes
delegated_task act =
    if is_empty act.task_id
    then set_param act.params "task_id" (set_param act.params "taskId" [])
    else act.task_id

abbrev delegated_agent : Action → Bytes
delegated_agent act =
    if is_empty act.agent_id
    then set_param act.params "agent_id" (set_param act.params "agentId" [])
    else act.agent_id

abbrev called_tool : Action → Bytes
called_tool act = if is_empty act.tool then set_param act.params "tool" [] else act.tool

abbrev lacks_content : Option Fields → Bool
lacks_content none = false
lacks_content (some m) = elim (get_text m "content") [ none ↦ true | some c ↦ is_empty c ]

abbrev pub holds_secret : Bytes → Bool
holds_secret s =
    (contains s (bytes "api_key") || (contains s (bytes "password") || contains s (bytes "secret")))
    && (contains s (bytes "sk-") || contains s (bytes "bearer"))

unfoldable pub check_update : MemoryUpdate → Option String
check_update mu =
    if is_empty mu.content
    then some "content required"
    else if not (is_empty mu.memory_type) && not (is_valid_memory_type mu.memory_type)
    then some "invalid memory_type"
    else if ltb max_text (length mu.content)
    then some "content too large"
    else if holds_secret (to_lower mu.content)
    then some "refusing to store potential secret"
    else none

unfoldable pub check_updates : List MemoryUpdate → Option String
check_updates [] = none
check_updates (mu ∷ mus) = elim (check_update mu) [ some e ↦ some e | none ↦ check_updates mus ]

abbrev pub runs_code : Option Fields → Bool
runs_code none = false
runs_code (some m) = is_some (get m "code") || is_some (get m "exec")

unfoldable pub check_code : List Action → Option String
check_code [] = none
check_code (act ∷ acts) =
    if runs_code act.params then some "code execution not allowed" else check_code acts

-- `is_uuid` stands for uuid.Parse of github.com/google/uuid, as far as it succeeds.
module _ (is_uuid : Bytes → Bool) where
  -- The error that validateAction returns, if any.
  unfoldable pub validate_action : Action → Option String
  unfolding param_text get_text
  validate_action act =
      if str_eq act.kind "send_message"
      then (if is_empty (message_body act)
          then some "body required"
          else if ltb max_text (length (message_body act))
          then some "body too large"
          else none)
      else if str_eq act.kind "create_task"
      then (if is_empty (task_title act) then some "title required" else none)
      else if str_eq act.kind "delegate_task"
      then (if is_empty (delegated_task act)
          then some "task_id required"
          else if is_empty (delegated_agent act)
          then some "agent_id required"
          else if not (is_uuid (delegated_task act))
          then some "invalid task_id"
          else if not (is_uuid (delegated_agent act))
          then some "invalid agent_id"
          else none)
      else if str_eq act.kind "call_tool"
      then (if is_empty (called_tool act) then some "tool required" else none)
      else if has_str
          ("request_approval" ∷ "request_human_input" ∷ "update_task" ∷ "complete_task"
            ∷ "fail_task" ∷ [])
          act.kind
      then none
      else if str_eq act.kind "store_memory"
      then (if lacks_content act.params then some "content required for store_memory" else none)
      else some "unsupported action"

  unfoldable pub check_actions : List Action → Option String
  check_actions [] = none
  check_actions (act ∷ acts) =
      if not (has_str valid_action_types act.kind)
      then some "invalid type"
      else elim (validate_action act) [ some e ↦ some e | none ↦ check_actions acts ]

  unfoldable pub validate_decision : Decision → Option String
  validate_decision d =
      if str_eq d.status ""
      then some "status required"
      else if not (has_str valid_decision_statuses d.status)
      then some "invalid status"
      else elim (check_actions d.actions) [
        | some e ↦ some e
        | none ↦ elim (check_updates d.memory_updates) [
          | some e ↦ some e
          | none ↦ check_code d.actions
        ]
      ]
