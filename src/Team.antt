-- ===== src/Team.antt =====
-- The team orchestrator, backend/internal/team/orchestrator.go. Broadcasts and the team's activity log
-- are not modelled.
pub mod Limits
use open_agent_showcase.Common.{
  ℕ, zero, suc, ◌+◌, String, Option, none, some, List, [], ◌∷◌, ◌++◌, Bool, true, false, ◌||◌, ◌&&◌,
  not, ◌==◌, str_eq, ltb, leb, any, find, lookup, if◌then◌else◌, Bytes, bytes, Result, ok, err,
}
use open_agent_showcase.Task.{Task, TaskEvent, Db, get_task, update_rows}
use open_agent_showcase.Task.Update.{NewTask, create_task, update_task_status}
use open_agent_showcase.Task.Dependency.{
  Added, added, cycle_detected, out_of_rounds, add_task_dependency, is_task_blocked,
}
use open_agent_showcase.Worker.{Job, Pool, Outcome, enqueue}

-- The store, the pool, each team with its coordinator, and the rows of agent_team_members. `show_id` stands for String of
-- github.com/google/uuid.
pub record State : Type 0 where
  pub db : Db
  pub pool : Pool
  pub teams : List (ℕ × Option ℕ)
  pub members : List (ℕ × ℕ)

abbrev max_delegation_depth : ℕ
max_delegation_depth = 5

-- The coordinator of a team: the one that is set, if it is a member, or the first member.
unfoldable pub coordinator : Option ℕ → List ℕ → Option ℕ
coordinator set [] = none
coordinator none (m ∷ members) = some m
coordinator (some c) (m ∷ members) = if any (λ x. x == c) (m ∷ members) then some c else some m

unfoldable pub run_job_of : (ℕ → Bytes) → ℕ → ℕ → ℕ → Job
run_job_of show_id task timeout retries = record {
  id = show_id task;
  kind = bytes "agent_run";
  retries = retries;
  timeout = timeout;
  key = [];
}

abbrev pub in_team : List (ℕ × ℕ) → Option ℕ → ℕ → Bool
in_team members none dest = true
in_team members (some t) dest = any (λ (m : ℕ × ℕ). m.0 == t && m.1 == dest) members

-- The checks of Delegate, on the parent that GetTask returned.
unfoldable pub delegate_error : List (ℕ × ℕ) → Task → ℕ → Option String
delegate_error members parent dest =
    if leb parent.max_delegation_depth parent.delegation_depth && ltb 0 parent.max_delegation_depth
    then some "max delegation depth reached"
    else if leb max_delegation_depth parent.delegation_depth
    then some "max delegation depth reached"
    else if leb parent.max_retries parent.retry_count && ltb 0 parent.max_retries
    then some "max retries reached"
    else if not (in_team members parent.team dest)
    then some "agent not in team"
    else none

-- AddTaskDependency with its error ignored.
abbrev with_dependency : ℕ → ℕ → Db → Db
with_dependency task on db = elim (add_task_dependency db.deps task on) [
  | added deps ↦ record db { deps = deps }
  | cycle_detected ↦ db
  | out_of_rounds ↦ db
]

-- The arguments of Delegate; `new_id` and `new_correlation` are the identifiers that are generated.
pub record Request : Type 0 where
  pub org : ℕ
  pub parent : ℕ
  pub dest : ℕ
  pub title : Bytes
  pub description : Bytes
  pub by : ℕ
  pub new_id : ℕ
  pub new_correlation : ℕ
  pub now : ℕ

abbrev correlation_for : Request → Task → Option ℕ
correlation_for q parent = elim parent.correlation [
  | none ↦ some q.new_correlation
  | some c ↦ some c
]

abbrev subtask : Request → Task → NewTask
subtask q parent = record {
  new_id = q.new_id;
  org = q.org;
  project = parent.project;
  channel = parent.channel;
  parent = some q.parent;
  team = parent.team;
  agent = some q.dest;
  user = none;
  title = q.title;
  description = q.description;
  priority = bytes "medium";
  deadline = none;
  correlation = correlation_for q parent;
  created_by = q.by;
}

-- UPDATE tasks SET delegation_depth=$2 WHERE id=$1
abbrev set_depth : ℕ → ℕ → List Task → List Task
set_depth id depth [] = []
set_depth id depth (t ∷ rows) =
    (if t.id == id then record t { delegation_depth = depth } else t) ∷ set_depth id depth rows

abbrev delegation_event : Request → Task → TaskEvent
delegation_event q parent = record {
  task = q.parent;
  actor_type = "agent";
  actor_user = none;
  actor_agent = some q.by;
  event_type = "delegated";
  event_correlation = correlation_for q parent;
}

-- Delegate after CreateTask: the depth, the dependency, the event and the job.
unfoldable pub record_delegation : (ℕ → Bytes) → Request → Task → Db → State → State
record_delegation show_id q parent created st =
    let linked =
      with_dependency q.parent q.new_id (record created {
        tasks = set_depth q.new_id (parent.delegation_depth + 1) created.tasks;
      }) in
    record st {
      db = record linked { events = linked.events ++ delegation_event q parent ∷ [] };
      pool = (enqueue q.now st.pool (run_job_of show_id q.new_id 300 0)).0;
    }

abbrev members_of : List (ℕ × ℕ) → ℕ → List ℕ
members_of [] team = []
members_of ((t, agent) ∷ rows) team =
    if t == team then agent ∷ members_of rows team else members_of rows team

-- SetTeamCoordinator
abbrev set_coordinator : ℕ → ℕ → List (ℕ × Option ℕ) → List (ℕ × Option ℕ)
set_coordinator team agent [] = []
set_coordinator team agent ((t, c) ∷ teams) =
    (if t == team then (t, some agent) else (t, c)) ∷ set_coordinator team agent teams

-- The arguments of StartTeamTask.
pub record Start : Type 0 where
  pub org : ℕ
  pub team : ℕ
  pub project : ℕ
  pub channel : Option ℕ
  pub title : Bytes
  pub description : Bytes
  pub by : ℕ
  pub new_id : ℕ
  pub new_correlation : ℕ
  pub now : ℕ

abbrev root_task : Start → ℕ → NewTask
root_task q agent = record {
  new_id = q.new_id;
  org = q.org;
  project = q.project;
  channel = q.channel;
  parent = none;
  team = some q.team;
  agent = some agent;
  user = none;
  title = q.title;
  description = q.description;
  priority = bytes "high";
  deadline = none;
  correlation = some q.new_correlation;
  created_by = q.by;
}

-- A coordinator that was not set is stored, before the task is created.
abbrev with_coordinator : Start → ℕ → Option ℕ → State → State
with_coordinator q agent (some c) st = st
with_coordinator q agent none st = record st { teams = set_coordinator q.team agent st.teams }

module _ (show_id : ℕ → Bytes) (refused : ℕ → Bool) where
  unfoldable pub start_team_task : State → Start → State × Result Task
  start_team_task st q = elim (lookup st.teams q.team) [
    | none ↦ (st, err "team not found")
    | some set ↦ elim (coordinator set (members_of st.members q.team)) [
      | none ↦ (st, err "team has no members")
      | some agent ↦
          let st' = with_coordinator q agent set st in
          let r = create_task refused st'.db (root_task q agent) in
          elim r.1 [
            | err e ↦ (record st' { db = r.0 }, err "create task")
            | ok t ↦ (
              record st' {
                db = r.0;
                pool = (enqueue q.now st'.pool (run_job_of show_id q.new_id 300 3)).0;
              },
              ok t,
            )
          ]
    ]
  ]

  unfoldable pub delegate : State → Request → State × Result Task
  delegate st q = elim (get_task st.db q.org q.parent) [
    | none ↦ (st, err "sql: no rows in result set")
    | some parent ↦ elim (delegate_error st.members parent q.dest) [
      | some e ↦ (st, err e)
      | none ↦
          let r = create_task refused st.db (subtask q parent) in
          elim r.1 [
            | err e ↦ (record st { db = r.0 }, err "create task")
            | ok t ↦ (record_delegation show_id q parent r.0 st, ok t)
          ]
    ]
  ]

  -- UPDATE tasks SET retry_count=retry_count+1, status='pending' WHERE id=$1
  abbrev retry_rows : ℕ → List Task → List Task
  retry_rows id [] = []
  retry_rows id (t ∷ rows) =
      (if t.id == id then record t { retry_count = t.retry_count + 1; status = "pending" } else t)
      ∷ retry_rows id rows

  abbrev after_retry : ℕ → Task → State → State
  after_retry now task st = record st {
    db = record st.db { tasks = retry_rows task.id st.db.tasks };
    pool = elim task.assigned_agent [
      | none ↦ st.pool
      | some agent ↦ (enqueue now st.pool (run_job_of show_id task.id 0 0)).0
    ];
  }

  -- Evaluate, with the query of IsTaskBlocked answered; `none` is the panic on a task that is not found.
  unfoldable pub evaluate : ℕ → State → ℕ → ℕ → Option (State × String)
  evaluate now st org id =
      if is_task_blocked st.db id
      then some (
        record st { db = (update_task_status refused st.db org id "blocked" "system" 0).0 },
        "blocked",
      )
      else elim (get_task st.db org id) [
        | none ↦ none
        | some task ↦
            if str_eq task.status "failed" && ltb task.retry_count task.max_retries
            then some (after_retry now task st, "retry")
            else if str_eq task.status "failed"
            then some (st, "escalated")
            else some (st, "ready")
      ]

  unfoldable pub request_human_input : Db → ℕ → ℕ → ℕ → Db × Result Task
  request_human_input db org id requester =
      update_task_status refused db org id "waiting" "agent" requester
