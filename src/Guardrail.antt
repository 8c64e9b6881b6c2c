-- ===== src/Guardrail.antt =====
-- The limits and the status of an agent in backend/internal/guardrail/service.go. Times are seconds; a
-- query that fails leaves the default, as one without a row does. The identifier 0 is uuid.Nil, and a
-- budget has an agent or a team. The messages leave out the numbers and the name of the tool.
pub mod Status
use open_agent_showcase.Common.{
  ℕ, ◌+◌, ◌==◌, String, Option, none, some, List, [], ◌∷◌, Bool, true, false, ◌||◌, ◌&&◌, not, ltb,
  leb, str_eq, if◌then◌else◌, is_id, has_str, any, find, keep, length,
}

-- A row of execution_budgets; NULL is none.
pub record Budget : Type 0 where
  pub org : ℕ
  pub agent : Option ℕ
  pub team : Option ℕ
  pub max_tasks_per_day : Option ℕ
  pub max_delegation_depth : Option ℕ
  pub rate_limit_per_minute : Option ℕ
  pub max_tool_calls_per_day : Option ℕ

-- A row of tasks, of agent_runs or of tool_executions: of which agent, with which status or name, and
-- when it was created.
pub record Entry : Type 0 where
  pub org : ℕ
  pub agent : Option ℕ
  pub label : String
  pub created : ℕ

-- The tables; last_seen_at of users and last_status_at of agents, by identifier.
pub record Db : Type 0 where
  pub budgets : List Budget
  pub tasks : List Entry
  pub runs : List Entry
  pub executions : List Entry
  pub users : List (ℕ × Option ℕ)
  pub agents : List (ℕ × Option ℕ)

abbrev or_else : Option ℕ → ℕ → ℕ
or_else none n = n
or_else (some m) n = m

abbrev budget_of : (Budget → Option ℕ) → Option Budget → ℕ → ℕ
budget_of field none n = n
budget_of field (some b) n = or_else (field b) n

abbrev agent_budget : Db → ℕ → ℕ → Option Budget
agent_budget db org agent = find (λ (b : Budget). b.org == org && is_id b.agent agent) db.budgets

abbrev team_budget : Db → ℕ → Option ℕ → Option Budget
team_budget db org none = none
team_budget db org (some team) = find (λ (b : Budget). b.org == org && is_id b.team team) db.budgets

-- The agent's value in place of the default, and the team's in place of both.
unfoldable pub limit_of : (Budget → Option ℕ) → Db → ℕ → ℕ → Option ℕ → ℕ → ℕ
limit_of field db org agent team default_limit =
    budget_of field (team_budget db org team)
      (budget_of field (if agent == 0 then none else agent_budget db org agent) default_limit)

-- created_at > now() - interval
abbrev pub is_within : ℕ → ℕ → ℕ → Bool
is_within now span created = ltb now (created + span)

abbrev pub count : (Entry → Bool) → List Entry → ℕ
count p rows = length (keep p rows)

abbrev pub is_of : ℕ → ℕ → Entry → Bool
is_of org agent e = e.org == org && is_id e.agent agent

abbrev pub day : ℕ
day = 86400

abbrev pub tasks_today : Db → ℕ → ℕ → ℕ → ℕ
tasks_today db now org agent =
    count (λ (e : Entry). is_of org agent e && is_within now day e.created) db.tasks

abbrev pub max_tasks : Db → ℕ → ℕ → Option ℕ → ℕ
unfolding limit_of
max_tasks db org agent team = limit_of (λ (b : Budget). b.max_tasks_per_day) db org agent team 100

abbrev pub max_depth : Db → ℕ → ℕ → Option ℕ → ℕ
unfolding limit_of
max_depth db org agent team = limit_of (λ (b : Budget). b.max_delegation_depth) db org agent team 5

unfoldable pub check_task_creation : Db → ℕ → ℕ → ℕ → Option ℕ → ℕ → Option String
unfolding limit_of
check_task_creation db now org agent team depth =
    if ltb (max_depth db org agent team) depth
    then some "max delegation depth exceeded"
    else if ltb 5 depth
    then some "global max delegation depth 5 exceeded"
    else if leb (max_tasks db org agent team) (tasks_today db now org agent)
    then some "daily task limit exceeded for agent"
    else none

abbrev unless_zero : ℕ → ℕ → ℕ
unless_zero n default_limit = if n == 0 then default_limit else n

abbrev pub tool_limit : (Budget → Option ℕ) → Db → ℕ → ℕ → ℕ → ℕ
tool_limit field db org agent default_limit =
    unless_zero (budget_of field (agent_budget db org agent) default_limit) default_limit

unfoldable pub check_tool_call : Db → ℕ → ℕ → ℕ → String → Option String
check_tool_call db now org agent tool =
    if leb (tool_limit (λ (b : Budget). b.rate_limit_per_minute) db org agent 60)
      (count (λ (e : Entry). is_of org agent e && is_within now 60 e.created) db.executions)
    then some "rate limit per minute exceeded"
    else if leb (tool_limit (λ (b : Budget). b.max_tool_calls_per_day) db org agent 500) (
        count
          (λ (e : Entry). is_of org agent e && (str_eq e.label tool && is_within now day e.created))
          db.executions)
    then some "daily tool limit exceeded"
    else none

-- Zero stands for all that are not positive.
unfoldable pub check_timeout : ℕ → Option String
check_timeout seconds =
    if ltb 600 seconds
    then some "timeout exceeds max 600s"
    else if seconds == 0
    then some "timeout must be positive"
    else none

abbrev seen_of : List (ℕ × Option ℕ) → ℕ → Option (Option ℕ)
seen_of [] id = none
seen_of ((k, t) ∷ rows) id = if k == id then some t else seen_of rows id

-- The second of the two reads overwrites the first where it finds a row.
unfoldable pub last_seen : Db → ℕ → Option ℕ
last_seen db agent = elim (seen_of db.agents agent) [
  | some t ↦ t
  | none ↦ elim (seen_of db.users agent) [ some t ↦ t | none ↦ none ]
]

abbrev pub has_label : ℕ → ℕ → List String → Entry → Bool
has_label org agent labels e = is_of org agent e && has_str labels e.label

abbrev pub is_offline : ℕ → Option ℕ → Bool
is_offline now none = true
is_offline now (some t) = ltb (t + 300) now

unfoldable pub get_agent_status : Db → ℕ → ℕ → ℕ → String
unfolding last_seen
get_agent_status db now org agent =
    if ltb 0 (count (has_label org agent ("awaiting_approval" ∷ [])) db.runs)
    then "approval_required"
    else if ltb 0 (count (has_label org agent ("running" ∷ [])) db.runs)
    then "working"
    else if ltb 0 (count (has_label org agent ("waiting" ∷ "blocked" ∷ [])) db.tasks)
    then "waiting"
    else if ltb 0 (count (has_label org agent ("blocked" ∷ [])) db.tasks)
    then "blocked"
    else if ltb 0 (
        count (λ (e : Entry). has_label org agent ("failed" ∷ []) e && is_within now 3600 e.created)
          db.runs)
    then "failed"
    else if is_offline now (last_seen db agent)
    then "offline"
    else "idle"
