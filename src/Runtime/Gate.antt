-- ===== src/Runtime/Gate.antt =====
-- The guardrails of Runtime.validateDecision, backend/internal/runtime/execution.go, with
-- GetToolByName of repository/tool.go and ValidateToolInput of security/prompt.go.
pub mod Refusals
use open_agent_showcase.Common.{
  ℕ, zero, suc, ◌+◌, String, Option, none, some, List, [], ◌∷◌, Bool, true, false, ◌||◌, ◌&&◌, not,
  ◌==◌, str_eq, ltb, leb, if◌then◌else◌, is_some, is_id, any, find, Bytes, bytes_eq,
}
use open_agent_showcase.Task.{Task}
use open_agent_showcase.Task.Status.{is_valid_transition}
use open_agent_showcase.Runtime.Json.{
  Value, Fields, end, field, get_object, or_param, set_param, is_empty, is_suspicious,
}
use open_agent_showcase.Runtime.Decision.{Action, Decision}

abbrev pub max_tool_calls : ℕ
max_tool_calls = 10

abbrev pub max_delegation_depth : ℕ
max_delegation_depth = 5

-- A row of tools; a tool without an organization is for all.
pub record Tool : Type 0 where
  pub org : Option ℕ
  pub name : Bytes
  pub risk : String

-- What ListAgentTools returns: the tool's name and whether the assignment is enabled.
pub record Agent : Type 0 where
  pub id : ℕ
  pub autonomy : String
  pub tools : List (Bytes × Bool)

unfoldable pub count_tool_calls : List Action → ℕ
count_tool_calls [] = 0
count_tool_calls (act ∷ acts) =
    let rest = count_tool_calls acts in if str_eq act.kind "call_tool" then suc rest else rest

-- GetToolByName(&orgID, name), and then GetToolByName(nil, name).
abbrev find_tool : List Tool → ℕ → Bytes → Option Tool
find_tool tools org name =
    elim (find (λ (t : Tool). is_id t.org org && bytes_eq t.name name) tools) [
      | some t ↦ some t
      | none ↦ find (λ (t : Tool). not (is_some t.org) && bytes_eq t.name name) tools
    ]

unfoldable pub tool_name : Action → Bytes
tool_name act =
    if is_empty act.tool
    then or_param act.params "name" (set_param act.params "tool" [])
    else act.tool

abbrev without_tool_keys : Fields → Fields
without_tool_keys end = end
without_tool_keys (field k v m) =
    let rest = without_tool_keys m in
    if str_eq k "tool" || str_eq k "name" then rest else field k v rest

-- The input that is checked, if there is one.
abbrev checked_input : Action → Option Fields
checked_input act = if is_some act.input then act.input else elim act.params [
  | none ↦ none
  | some m ↦ elim (get_object m "input") [ some o ↦ some o | none ↦ some (without_tool_keys m) ]
]

abbrev is_refused_input : Option Fields → Bool
is_refused_input none = false
is_refused_input (some m) = is_suspicious m

abbrev is_assigned : Agent → Bytes → Bool
is_assigned agent name = any (λ (a : Bytes × Bool). bytes_eq a.0 name && a.1) agent.tools

-- A tool of high or critical risk that is not assigned to the agent, which is an `assistant`.
unfoldable pub is_beyond : List Tool → ℕ → Agent → Bytes → Bool
is_beyond tools org agent name = elim (find_tool tools org name) [
  | none ↦ false
  | some t ↦
      (str_eq t.risk "high" || str_eq t.risk "critical")
      && (not (is_assigned agent name) && str_eq agent.autonomy "assistant")
]

abbrev pub depth_of : Task → ℕ
depth_of task = if is_some task.parent then 1 else 0

unfoldable pub gate_tool : List Tool → ℕ → Agent → Action → Option String
gate_tool tools org agent act =
    if is_empty (tool_name act)
    then some "call_tool missing tool name"
    else if is_beyond tools org agent (tool_name act)
    then some "cannot call high-risk tool"
    else if is_refused_input (checked_input act)
    then some "input validation failed"
    else none

-- The body of the loop over the actions.
unfoldable pub gate_action : List Tool → ℕ → Agent → Task → Action → Option String
unfolding gate_tool
gate_action tools org agent task act =
    if (str_eq act.kind "create_task" || str_eq act.kind "delegate_task")
      && leb max_delegation_depth (depth_of task)
    then some "max delegation depth exceeded"
    else if str_eq act.kind "call_tool"
    then gate_tool tools org agent act
    else if str_eq act.kind "complete_task" && not (is_valid_transition task.status "completed")
    then some "invalid transition"
    else if str_eq act.kind "fail_task" && not (is_valid_transition task.status "failed")
    then some "invalid transition"
    else none

unfoldable pub gate_actions : List Tool → ℕ → Agent → Task → List Action → Option String
gate_actions tools org agent task [] = none
gate_actions tools org agent task (act ∷ acts) = elim (gate_action tools org agent task act) [
  | some e ↦ some e
  | none ↦ gate_actions tools org agent task acts
]

abbrev is_parked : String → Bool
is_parked status =
    str_eq status "needs_human" || (str_eq status "waiting" || str_eq status "approval_required")

abbrev is_mute : Decision → Bool
is_mute d = is_empty d.response && elim d.actions [ [] ↦ true | _ ∷ _ ↦ false ]

unfoldable pub gate : List Tool → ℕ → Agent → Task → Decision → ℕ → Option String
gate tools org agent task d calls =
    if ltb max_tool_calls (calls + count_tool_calls d.actions)
    then some "tool call limit exceeded"
    else elim (gate_actions tools org agent task d.actions) [
      | some e ↦ some e
      | none ↦
          if is_parked d.status && is_mute d
          then some "status requires response or actions"
          else none
    ]
