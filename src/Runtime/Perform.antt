-- ===== src/Runtime/Perform.antt =====
-- executeDecisionActions and validateDelegationTarget of backend/internal/runtime/execution.go, on the
-- task store. Messages, broadcasts and the audit rows of agent_actions are not modelled.
pub mod Effects
use open_agent_showcase.Common.{
  ℕ, zero, suc, ◌+◌, String, Option, none, some, List, [], ◌∷◌, ◌++◌, Bool, true, false, ◌||◌, ◌&&◌,
  not, ◌==◌, str_eq, ltb, leb, if◌then◌else◌, is_some, is_id, any, keep, length, Bytes, bytes,
  Result, ok, err, is_err,
}
use open_agent_showcase.Task.{Task, Db}
use open_agent_showcase.Task.Status.{valid_task_statuses, is_valid_transition}
use open_agent_showcase.Task.Update.{NewTask, create_task, update_task_status, assign_task}
use open_agent_showcase.Task.Page.{project_page}
use open_agent_showcase.Runtime.Json.{Fields, param_text, or_param, set_param, or_empty, is_empty}
use open_agent_showcase.Runtime.Decision.{Action, Decision}
use open_agent_showcase.Runtime.Gate.{max_delegation_depth}
use open_agent_showcase.Runtime.Repair.{named_kind}

-- The rows that validateDelegationTarget reads.
pub record AgentRow : Type 0 where
  pub id : ℕ
  pub org : ℕ
  pub status : String

pub record Roster : Type 0 where
  pub agents : List AgentRow
  pub project_agents : List (ℕ × ℕ)
  pub team_members : List (ℕ × ℕ)

abbrev is_pair : ℕ → ℕ → ℕ × ℕ → Bool
is_pair a b p = p.0 == a && p.1 == b

abbrev in_team : Roster → Option ℕ → ℕ → Bool
in_team roster none dest = false
in_team roster (some t) dest = any (is_pair t dest) roster.team_members

-- validateDelegationTarget: whether it returns no error.
unfoldable pub is_target : Roster → ℕ → ℕ → Option ℕ → ℕ → Bool
is_target roster org project team dest =
    any (λ (a : AgentRow). a.id == dest && (a.org == org && str_eq a.status "active")) roster.agents
    && (any (is_pair project dest) roster.project_agents || in_team roster team dest)

-- What the choice of an assignee for a new task comes to (resolveAgentHint, tryEligibleAssignment and
-- the candidates): an error, or an agent or none.
pub data Pick : Type 0 where
  no_eligible : Pick
  assignee : Option ℕ → Pick

-- What toolExec.Execute comes to, or that there is no executor.
pub data ToolEnd : Type 0 where
  parked failed done mocked : ToolEnd

-- What one action meets: the assignee, the identifier of a new row, the end of a tool, whether a
-- memory is stored, and the statements that the database refuses.
pub record Answer : Type 0 where
  pub pick : Pick
  pub new_id : ℕ
  pub tool : ToolEnd
  pub stored : Bool
  pub refused : ℕ → Bool

-- An entry of outputs: the action, and whether it carries an error.
pub record Output : Type 0 where
  pub action : String
  pub is_error : Bool

-- The variables that the loop over the actions changes: the store, the task that was read, the
-- decision's status, and outputs; and the jobs that were given to the pool, each of a task and an agent.
pub record Work : Type 0 where
  pub db : Db
  pub task : Task
  pub status : String
  pub outputs : List Output
  pub jobs : List (ℕ × ℕ)

abbrev pub note : Work → String → Bool → Work
note w action e = record w { outputs = w.outputs ++ record { action = action; is_error = e } ∷ [] }

-- What the calls of one execution share: `parse_uuid` stands for uuid.Parse of
-- github.com/google/uuid, and `sanitize` for SanitizeUserContent, whose regular expressions are not
-- modelled; `has_pool` is that there is a pool.
pub record Setting : Type 0 where
  pub has_pool : Bool
  pub org : ℕ
  pub agent : ℕ
  pub agent_name : Bytes
  pub correlation : Option ℕ
  pub roster : Roster
  pub parse_uuid : Bytes → Option ℕ
  pub sanitize : Bytes → Bytes

abbrev or_else : Bytes → Bytes → Bytes
or_else s t = if is_empty s then t else s

abbrev children_of : Db → ℕ → Task → ℕ
children_of db org task =
    length (keep (λ (t : Task). is_id t.parent task.id) (project_page db org task.project))

-- The checks of an assignee: the target, the depth, and the number of children.
unfoldable pub is_refused_assignee : Setting → Work → Option ℕ → Bool
is_refused_assignee s w none = false
is_refused_assignee s w (some dest) =
    not (is_target s.roster s.org w.task.project w.task.team dest)
    || (leb max_delegation_depth
          (w.task.delegation_depth + (if is_some w.task.parent then 1 else 0))
        || leb 20 (children_of w.db s.org w.task))

unfoldable pub new_subtask : Setting → Bytes → Action → ℕ → Option ℕ → Task → NewTask
new_subtask s response act id dest task = record {
  new_id = id;
  org = s.org;
  project = task.project;
  channel = task.channel;
  parent = some task.id;
  team = task.team;
  agent = dest;
  user = none;
  title = s.sanitize (
      or_else
        (or_else (if is_empty act.title then set_param act.params "title" [] else act.title)
          response)
        (bytes "Subtask from " ++ s.agent_name));
  description = s.sanitize (
      if is_empty act.description
      then or_param act.params "body" (set_param act.params "description" [])
      else act.description);
  priority = or_else (or_empty (param_text act.params "priority")) (bytes "medium");
  deadline = none;
  correlation = s.correlation;
  created_by = task.created_by;
}

-- CreateTaskEvent(taskID, "agent", &agent.ID, …), whose error is dropped.
abbrev pub agent_event : Setting → ℕ → String → Db → Db
agent_event s id name db = record db {
  events =
      db.events
      ++ record {
        task = id;
        actor_type = "agent";
        actor_user = none;
        actor_agent = some s.agent;
        event_type = name;
        event_correlation = s.correlation;
      }
        ∷ [];
}

abbrev subtask_jobs : Setting → ℕ → Option ℕ → List (ℕ × ℕ)
subtask_jobs s id none = []
subtask_jobs s id (some dest) = if s.has_pool then (id, dest) ∷ [] else []

-- After CreateTask, with the store that it left.
abbrev pub after_create : Setting → Work → ℕ → Option ℕ → Db → Bool → Work
after_create s w id dest db lost =
    if lost
    then note (record w { db = db }) "create_task" true
    else note
        (record w { db = agent_event s id "created" db; jobs = w.jobs ++ subtask_jobs s id dest })
        "create_task" false

-- case "create_task"
unfoldable pub perform_create : Setting → Bytes → Work → Action → Answer → Work × Option String
perform_create s response w act ans = elim ans.pick [
  | no_eligible ↦ (w, some "no eligible agent")
  | assignee dest ↦
      if is_refused_assignee s w dest
      then (note w "create_task" true, none)
      else let r =
          create_task ans.refused w.db (new_subtask s response act ans.new_id dest w.task) in
        (after_create s w ans.new_id dest r.0 (is_err r.1), none)
]

-- case "delegate_task", from the two identifiers on; none is one that does not parse.
unfoldable pub delegate_to : Setting → Work → Option ℕ → Option ℕ → Answer → Work
delegate_to s w none aid ans = note w "delegate_task" true
delegate_to s w (some t) none ans = note w "delegate_task" true
delegate_to s w (some t) (some dest) ans =
    if not (is_target s.roster s.org w.task.project w.task.team dest)
    then note w "delegate_task" true
    else (let r = assign_task ans.refused w.db s.org t (some dest) none s.agent in
        note (record w { db = r.0 }) "delegate_task" (is_err r.1))

abbrev id_or_params : Bytes → Option Fields → String → String → Bytes
id_or_params s params first second =
    if is_empty s then or_param params second (set_param params first []) else s

unfoldable pub perform_delegate : Setting → Work → Action → Answer → Work
perform_delegate s w act ans =
    delegate_to s w (s.parse_uuid (id_or_params act.task_id act.params "taskId" "task_id"))
      (s.parse_uuid (id_or_params act.agent_id act.params "agentId" "agent_id")) ans

-- UpdateTaskStatus and then task.Status, which the three actions on the task's status share; whether
-- the step was made.
unfoldable pub move_task : Setting → Work → String → String → Answer → Work × Bool
move_task s w action status ans =
    if not (is_valid_transition w.task.status status)
    then (note w action true, false)
    else (let r = update_task_status ans.refused w.db s.org w.task.id status "agent" s.agent in
        if is_err r.1 then (note (record w { db = r.0 }) action true, false) else (
          note (record w { db = r.0; task = record w.task { status = status } }) action false,
          true,
        ))

-- case "update_task"; a status that no table lists is no step of either.
abbrev pub perform_update : Setting → Work → Action → Answer → Work
perform_update s w act ans =
    let given = or_empty (param_text act.params "status") in
    if is_empty given
    then note w "update_task" false
    else elim (named_kind valid_task_statuses given) [
      | none ↦ note w "update_task" true
      | some status ↦ (move_task s w "update_task" status ans).0
    ]

-- case "complete_task" and case "fail_task": a step that was made sets the decision's status.
unfoldable pub perform_end : Setting → Work → String → String → Answer → Work
perform_end s w action status ans =
    let r = move_task s w action status ans in if r.1 then record r.0 { status = status } else r.0

-- case "call_tool"; without an executor the call is only noted.
unfoldable pub perform_tool : Setting → Work → Answer → Work × Option String
perform_tool s w ans = elim ans.tool [
  | parked ↦
      (record (note w "call_tool" false) { status = "approval_required" }, some "approval_required")
  | failed ↦ (note w "call_tool" true, none)
  | done ↦ (
    note (record w { db = agent_event s w.task.id "tool_completed" w.db }) "call_tool" false,
    none,
  )
  | mocked ↦ (note w "call_tool" false, none)
]

-- The body of the message of send_message, before it is sanitized.
abbrev sent_body : Bytes → Action → Bytes
sent_body response act =
    or_else (if is_empty act.body then set_param act.params "body" [] else act.body) response

-- The content of store_memory.
abbrev stored_content : Bytes → Action → Bytes
stored_content response act = or_else (or_empty (param_text act.params "content")) response

-- The body of the loop; the text is the error that ends it.
unfoldable pub perform_action : Setting → Bytes → Work → Action → Answer → Work × Option String
unfolding perform_tool perform_end
perform_action s response w act ans =
    if str_eq act.kind "send_message"
    then ((if is_empty (sent_body response act) then w else note w "send_message" false), none)
    else if str_eq act.kind "create_task"
    then perform_create s response w act ans
    else if str_eq act.kind "delegate_task"
    then (perform_delegate s w act ans, none)
    else if str_eq act.kind "call_tool"
    then perform_tool s w ans
    else if str_eq act.kind "request_approval" || str_eq act.kind "request_human_input"
    then (record (note w act.kind false) { status = "approval_required" }, none)
    else if str_eq act.kind "update_task"
    then (perform_update s w act ans, none)
    else if str_eq act.kind "complete_task"
    then (perform_end s w "complete_task" "completed" ans, none)
    else if str_eq act.kind "fail_task"
    then (perform_end s w "fail_task" "failed" ans, none)
    else if str_eq act.kind "store_memory"
    then (
      (if is_empty (stored_content response act)
          then w
          else note w "store_memory" (not ans.stored)),
      none,
    )
    else (note w act.kind true, none)

-- The loop. `answers` gives the answer to the action at each index.
unfoldable pub perform_actions :
    Setting → Bytes → (ℕ → Answer) → ℕ → Work → List Action → Work × Option String
perform_actions s response answers i w [] = (w, none)
perform_actions s response answers i w (act ∷ acts) =
    let r = perform_action s response w act (answers i) in
    elim r.1 [ some e ↦ (r.0, some e) | none ↦ perform_actions s response answers (suc i) r.0 acts ]
