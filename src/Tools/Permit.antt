-- ===== src/Tools/Permit.antt =====
-- What Executor.Execute of backend/internal/tool/executor.go reads, and the checks that come before
-- it runs a tool. Times are seconds. The audit rows, metrics and credentials are not modelled.
pub mod Grants
use open_agent_showcase.Common.{
  ℕ, zero, suc, ◌+◌, String, Option, none, some, List, [], ◌∷◌, ◌++◌, Bool, true, false, ◌||◌, ◌&&◌,
  not, ◌==◌, ltb, leb, str_eq, if◌then◌else◌, is_some, is_id, any, find, keep, length, has_str,
  Bytes, bytes, has_prefix, Result, ok, err,
}
use open_agent_showcase.Task.{Task, find_row}
use open_agent_showcase.Approval.{Approval}
use open_agent_showcase.Tools.{
  Json, Fields, Tool, validate_input, requires_approval, get_tool, capability_to_tools,
}

-- A row of tool_executions.
pub record Execution : Type 0 where
  pub id : ℕ
  pub org : ℕ
  pub agent : ℕ
  pub task : Option ℕ
  pub run : Option ℕ
  pub tool : ℕ
  pub tool_name : String
  pub input : Fields
  pub output : Option Fields
  pub status : String
  pub approval : Option ℕ
  pub key : String
  pub error : Option String
  pub created_at : ℕ

-- A row of agent_tools with the name of its tool.
pub record Grant : Type 0 where
  pub agent : ℕ
  pub tool : ℕ
  pub name : String
  pub enabled : Bool

-- What GetAgent returns; the capabilities are those of the version, if there is one.
pub record Agent : Type 0 where
  pub id : ℕ
  pub org : ℕ
  pub capabilities : Option (List String)
  pub tools : List String

pub record Budget : Type 0 where
  pub org : ℕ
  pub agent : ℕ
  pub per_minute : ℕ
  pub per_day : ℕ

-- The tables, and the executions whose tool was run.
pub record Store : Type 0 where
  pub tools : List Tool
  pub grants : List Grant
  pub agents : List Agent
  pub tasks : List Task
  pub project_agents : List (ℕ × ℕ)
  pub team_members : List (ℕ × ℕ)
  pub project_teams : List (ℕ × ℕ)
  pub budgets : List Budget
  pub approvals : List Approval
  pub executions : List Execution
  pub calls : List ℕ

-- ExecuteParams
pub record Request : Type 0 where
  pub org : ℕ
  pub agent : ℕ
  pub task : Option ℕ
  pub run : Option ℕ
  pub name : String
  pub input : Fields
  pub key : String

-- What comes from elsewhere: the hash that makes a key, the printing of a value, the time, the new
-- identifiers, the title of an approval, the rows that other calls insert between the look-up of the
-- key and the insertion, whether there is a browser and what it says of the profile, and what
-- running the tool comes to.
pub record Setting : Type 0 where
  pub hash : Request → String
  pub print : Json → String
  pub now : ℕ
  pub execution_id : ℕ
  pub approval_id : ℕ
  pub title : String
  pub others : List Execution
  pub has_browser : Bool
  pub profile_error : Option String
  pub answer : Result Fields

-- The value and the error that Execute returns: there may be both.
abbrev pub Answer : Type 0
Answer = Option Execution × Option String

unfoldable pub with_key : Setting → Request → Request
with_key set req = record req { key = if str_eq req.key "" then set.hash req else req.key }

-- GetToolExecutionByIdempotency
abbrev pub find_execution : List Execution → ℕ → String → Option Execution
find_execution rows org key = find (λ (x : Execution). x.org == org && str_eq x.key key) rows

unfoldable pub is_allowed : Store → Request → ℕ → Bool
is_allowed st req tool =
    any
      (λ (g : Grant).
        g.agent == req.agent && ((str_eq g.name req.name && g.enabled) || g.tool == tool))
      st.grants
    || elim (find (λ (a : Agent). a.id == req.agent && a.org == req.org) st.agents) [
      | none ↦ false
      | some a ↦
          elim a.capabilities [
            | none ↦ false
            | some caps ↦ any (λ (c : String). has_str (capability_to_tools c) req.name) caps
          ]
          || has_str a.tools req.name
    ]

abbrev pub is_pair : ℕ → ℕ → ℕ × ℕ → Bool
is_pair a b p = p.0 == a && p.1 == b

abbrev in_team : Store → Option ℕ → ℕ → Bool
in_team st none agent = false
in_team st (some team) agent = any (is_pair team agent) st.team_members

-- The agent is assigned to the project of the task, where the task is found and has one.
unfoldable pub is_in_project : Store → Request → Bool
is_in_project st req = elim req.task [
  | none ↦ true
  | some id ↦ elim (find_row st.tasks req.org id) [
    | none ↦ true
    | some t ↦
        t.project == 0
        || (any (is_pair t.project req.agent) st.project_agents
            || (in_team st t.team req.agent || is_id t.assigned_agent req.agent))
  ]
]

abbrev or_default : ℕ → ℕ → ℕ
or_default d n = if n == 0 then d else n

abbrev budget_of : Store → Request → Option Budget
budget_of st req = find (λ (b : Budget). b.org == req.org && b.agent == req.agent) st.budgets

-- checkRateLimits: whether it returns an error.
unfoldable pub is_limited : ℕ → Store → Request → String → Bool
is_limited now st req name =
    let own = keep (λ (x : Execution). x.org == req.org && x.agent == req.agent) st.executions in
    let last_minute = keep (λ (x : Execution). ltb now (x.created_at + 60)) own in
    let last_day =
      keep (λ (x : Execution). str_eq x.tool_name name && ltb now (x.created_at + 86400)) own in
    let limits : ℕ × ℕ = elim (budget_of st req) [
      | none ↦ (60, 500)
      | some b ↦ (or_default 60 b.per_minute, or_default 500 b.per_day)
    ] in
    leb limits.0 (length last_minute) || leb limits.1 (length last_day)

-- The checks of Execute, in order.
unfoldable pub authorize : Setting → Request → Store → Result Tool
authorize set req st = elim (get_tool st.tools req.org req.name) [
  | none ↦ err "tool not found"
  | some t ↦
      if not t.enabled
      then err "tool disabled"
      else if is_some (validate_input set.print t.schema req.input)
      then err "schema validation failed"
      else if not (is_allowed st req t.id)
      then err "agent not authorized"
      else if not (is_in_project st req)
      then err "agent not assigned to project"
      else if is_limited set.now st req t.name
      then err "rate limited"
      else ok t
]
