-- ===== src/Task/Update.antt =====
-- The writes of repository/task.go. Each runs in one transaction: the database answers, or refuses
-- one of its statements, and then nothing is committed; the query that follows the commit may fail too. `refused n` says whether statement `n` of
-- the transaction is refused. Errors are told apart by the text up to the values in them.
pub mod Atomic
pub mod Terminal
pub mod Pending
use open_agent_showcase.Common.{
  ℕ, String, Option, none, some, List, [], ◌∷◌, ◌++◌, Bool, true, false, ◌||◌, ◌&&◌, not, ◌==◌,
  str_eq, if◌then◌else◌, has_str, is_some, any, find, has, Bytes, bytes, Result, ok, err,
}
use open_agent_showcase.Task.{Task, TaskEvent, Db, hydrate, find_row, get_task, update_rows}
use open_agent_showcase.Task.Status.{valid_task_statuses, is_valid_task_transition}

-- The event's name of a status.
event_type_of : String → String
event_type_of status =
    if str_eq status "completed"
    then "completed"
    else if str_eq status "failed"
    then "failed"
    else if str_eq status "assigned"
    then "assigned"
    else if str_eq status "running"
    then "started"
    else "status_changed"

-- The columns actor_user_id and actor_agent_id.
abbrev pub actor_column : String → String → ℕ → Option ℕ
actor_column column actor_type actor = if str_eq actor_type column then some actor else none

-- `return db.GetTask(orgID, taskID)`, after the commit; `lost` says whether the query fails.
abbrev pub fetched : Bool → Db → ℕ → ℕ → Result Task
fetched lost db org id =
    if lost
    then err "get task"
    else elim (get_task db org id) [ none ↦ err "sql: no rows in result set" | some t ↦ ok t ]

-- SELECT correlation_id FROM tasks WHERE id=$1
abbrev pub correlation_of : List Task → ℕ → Option ℕ
correlation_of rows id = elim (find (λ t. t.id == id) rows) [ none ↦ none | some t ↦ t.correlation ]

abbrev pub set_status : String → Task → Task
set_status status t = record t { status = status }

-- What UpdateTaskStatus commits, when `row` is the row that it read.
unfoldable pub with_status : Db → ℕ → ℕ → Task → String → String → ℕ → Db
unfolding event_type_of
with_status db org id row status actor_type actor = record db {
  tasks = update_rows (set_status status) org id db.tasks;
  events =
      db.events
      ++ record {
        task = id;
        actor_type = actor_type;
        actor_user = actor_column "user" actor_type actor;
        actor_agent = actor_column "agent" actor_type actor;
        event_type = event_type_of status;
        event_correlation = row.correlation;
      }
        ∷ [];
}

-- What AssignTask writes: the row, if there is one with this organization, and the event.
unfoldable pub with_assignee : Db → ℕ → ℕ → Option ℕ → Option ℕ → ℕ → Db
with_assignee db org id agent user assigned_by = record db {
  tasks =
      update_rows
        (λ t. record t { assigned_agent = agent; assigned_user = user; status = "assigned" }) org id
        db.tasks;
  events =
      db.events
      ++ record {
        task = id;
        actor_type = "user";
        actor_user = some assigned_by;
        actor_agent = none;
        event_type = "assigned";
        event_correlation = correlation_of db.tasks id;
      }
        ∷ [];
}

module _ (refused : ℕ → Bool) where
  -- Statements: 0 begin, 1 SELECT, 2 UPDATE, 3 INSERT of the event, 4 commit, and then
  -- 5 GetTask.
  unfoldable pub update_task_status : Db → ℕ → ℕ → String → String → ℕ → Db × Result Task
  update_task_status db org id status actor_type actor =
      if not (has_str valid_task_statuses status)
      then (db, err "invalid status")
      else if refused 0
      then (db, err "begin")
      else elim (if refused 1 then none else find_row db.tasks org id) [
        | none ↦ (db, err "sql: no rows in result set")
        | some row ↦
            if not (is_valid_task_transition row.status status)
            then (db, err "invalid task transition")
            else if refused 2 || (refused 3 || refused 4)
            then (db, err "statement failed")
            else let db' = with_status db org id row status actor_type actor in
              (db', fetched (refused 5) db' org id)
      ]

  -- Statements: 0 begin, 1 UPDATE, 2 INSERT of the event, 3 commit, and then 4 GetTask. The event's foreign keys want a
  -- task of that identifier, of whatever organization, and a user who assigns it.
  unfoldable pub assign_task : Db → ℕ → ℕ → Option ℕ → Option ℕ → ℕ → Db × Result Task
  assign_task db org id agent user assigned_by =
      if refused 0 || (refused 1 || (refused 2 || refused 3))
      then (db, err "statement failed")
      else if not (any (λ t. t.id == id) db.tasks && has db.users assigned_by)
      then (db, err "foreign key")
      else let db' = with_assignee db org id agent user assigned_by in
        (db', fetched (refused 4) db' org id)

-- The arguments of CreateTask; `new_id` is the identifier that the database generates.
pub record NewTask : Type 0 where
  pub new_id : ℕ
  pub org : ℕ
  pub project : ℕ
  pub channel : Option ℕ
  pub parent : Option ℕ
  pub team : Option ℕ
  pub agent : Option ℕ
  pub user : Option ℕ
  pub title : Bytes
  pub description : Bytes
  pub priority : Bytes
  pub deadline : Option ℕ
  pub correlation : Option ℕ
  pub created_by : ℕ

-- The row that CreateTask inserts; the columns that it does not name have the table's defaults.
unfoldable pub new_row : NewTask → Task
new_row n = record {
  id = n.new_id;
  org = n.org;
  project = n.project;
  channel = n.channel;
  parent = n.parent;
  team = n.team;
  title = n.title;
  description = n.description;
  created_by = n.created_by;
  assigned_agent = n.agent;
  assigned_user = n.user;
  status = if is_some n.agent || is_some n.user then "assigned" else "pending";
  priority = elim n.priority [ [] ↦ bytes "medium" | c ∷ s ↦ c ∷ s ];
  deadline = n.deadline;
  correlation = n.correlation;
  retry_count = 0;
  max_retries = 3;
  delegation_depth = 0;
  max_delegation_depth = 5;
  required_role = none;
  required_capabilities = [];
  preferred_agent = none;
}

abbrev creation_event : NewTask → String → TaskEvent
creation_event n name = record {
  task = n.new_id;
  actor_type = "user";
  actor_user = some n.created_by;
  actor_agent = none;
  event_type = name;
  event_correlation = n.correlation;
}

unfoldable pub creation_events : NewTask → List TaskEvent
creation_events n =
    creation_event n "created"
    ∷ (if is_some n.agent || is_some n.user then creation_event n "assigned" ∷ [] else [])

-- Statements: 0 begin, 1 INSERT, 2 INSERT of the event, 3 commit. The record that CreateTask returns
-- is scanned from the INSERT, whose RETURNING has none of the four counters; created_by is a foreign
-- key.
unfoldable pub create_task : (ℕ → Bool) → Db → NewTask → Db × Result Task
create_task refused db n =
    if refused 0 || (refused 1 || (refused 2 || (refused 3 || not (has db.users n.created_by))))
    then (db, err "create task")
    else (
      record db { tasks = db.tasks ++ new_row n ∷ []; events = db.events ++ creation_events n },
      ok (hydrate (new_row n)),
    )
