-- ===== src/Tools/Approved.antt =====
-- Executor.ExecuteApproved, backend/internal/tool/executor.go: the run of a tool whose approval has
-- been given.
pub mod Once
use open_agent_showcase.Common.{
  ℕ, String, Option, none, some, List, [], ◌∷◌, Bool, true, false, ◌||◌, ◌&&◌, not, ◌==◌, str_eq,
  if◌then◌else◌, is_some, any, find, Result, ok, err,
}
use open_agent_showcase.Task.{Task, find_row}
use open_agent_showcase.Tools.{Fields, end, Tool, validate_input, get_tool}
use open_agent_showcase.Tools.Permit.{
  Execution, Store, Request, Setting, Answer, find_execution, is_allowed, is_pair,
}
use open_agent_showcase.Tools.Execute.{ended, update_status}

abbrev pub find_id : List Execution → ℕ → Option Execution
find_id rows id = find (λ (x : Execution). x.id == id) rows

-- The agent, the name and the rest of the row, as Execute had them.
abbrev pub request_of : Execution → Request
request_of x = record {
  org = x.org;
  agent = x.agent;
  task = x.task;
  run = x.run;
  name = x.tool_name;
  input = x.input;
  key = x.key;
}

abbrev in_project_team : Store → ℕ → ℕ → Bool
in_project_team st project agent =
    any (λ (m : ℕ × ℕ). m.1 == agent && any (is_pair project m.0) st.project_teams) st.team_members

-- The agent is in the project of the task, where the task is found; the assignee has no privilege.
unfoldable pub is_still_in_project : Store → Execution → Bool
is_still_in_project st x = elim x.task [
  | none ↦ true
  | some id ↦ elim (find_row st.tasks x.org id) [
    | none ↦ true
    | some t ↦
        any (is_pair t.project x.agent) st.project_agents || in_project_team st t.project x.agent
  ]
]

-- The checks in order: an error, and whether it is written to the row.
unfoldable pub recheck : Setting → Store → Execution → Option (String × Bool)
unfolding is_allowed validate_input is_still_in_project
recheck set st x = elim (get_tool st.tools x.org x.tool_name) [
  | none ↦ some ("tool not found", false)
  | some t ↦
      if not t.enabled
      then some ("tool disabled", false)
      else if is_some (validate_input set.print t.schema x.input)
      then some ("schema validation failed", false)
      else if not (is_allowed st (request_of x) x.tool)
      then some ("agent not authorized", true)
      else if not (is_still_in_project st x)
      then some ("agent not assigned to project", true)
      else none
]

abbrev pub set_row : ℕ → String → Option Fields → Option String → Store → Store
set_row id status out e st = record st {
  executions = update_status id (ended status out e) st.executions;
}

abbrev bare : ℕ → Fields → Execution
bare id out = record {
  id = id;
  org = 0;
  agent = 0;
  task = none;
  run = none;
  tool = 0;
  tool_name = "";
  input = end;
  output = some out;
  status = "succeeded";
  approval = none;
  key = "";
  error = none;
  created_at = 0;
}

-- The value that a successful run returns: the row as the look-up by its key finds it.
unfoldable pub after_run : Execution → Store → Result Fields → Store × Answer
after_run x st (err e) =
    (record (set_row x.id "failed" none (some e) st) { calls = x.id ∷ st.calls }, (none, some e))
after_run x st (ok out) =
    let st1 = record (set_row x.id "succeeded" (some out) none st) { calls = x.id ∷ st.calls } in
    (
      st1,
      (
        elim (find_execution st1.executions x.org x.key) [
          | some y ↦ some y
          | none ↦ some (bare x.id out)
        ],
        none,
      ),
    )

abbrev pub rerun : Setting → Execution → Store → Store × Answer
unfolding after_run
rerun set x st = after_run x (set_row x.id "running" none none st) set.answer

-- A row that has succeeded is returned as it is.
unfoldable pub unless_done : Setting → Execution → Store → Option Execution → Store × Answer
unless_done set x st none = rerun set x st
unless_done set x st (some y) =
    if str_eq x.status "succeeded" then (st, (some y, none)) else rerun set x st

unfoldable pub after_recheck : Setting → Execution → Store → Option (String × Bool) → Store × Answer
unfolding unless_done
after_recheck set x st (some e) =
    ((if e.1 then set_row x.id "failed" none (some e.0) st else st), (none, some e.0))
after_recheck set x st none = unless_done set x st (find_execution st.executions x.org x.key)

unfoldable pub after_load : Setting → Store → Option Execution → Store × Answer
unfolding recheck after_recheck
after_load set st none = (st, (none, some "load execution"))
after_load set st (some x) = after_recheck set x st (recheck set st x)

unfoldable pub execute_approved : Setting → ℕ → Store → Store × Answer
unfolding after_load
execute_approved set id st = after_load set st (find_id st.executions id)
