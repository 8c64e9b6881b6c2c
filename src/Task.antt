-- ===== src/Task.antt =====
-- The task store: the rows of the tables tasks, task_events and task_dependencies, and the record
-- that backend/internal/repository/task.go hands out.
pub mod Status
pub mod Update
pub mod Dependency
pub mod Page
use open_agent_showcase.Common.{
  ℕ, String, Option, none, some, List, [], ◌∷◌, ◌++◌, Bool, true, false, ◌&&◌, ◌==◌, if◌then◌else◌,
  find, Bytes,
}

-- domain.Task. The same record is a row of the table; identifiers are numbers, and 0 is uuid.Nil.
pub record Task : Type 0 where
  pub id : ℕ
  pub org : ℕ
  pub project : ℕ
  pub channel : Option ℕ
  pub parent : Option ℕ
  pub team : Option ℕ
  pub title : Bytes
  pub description : Bytes
  pub created_by : ℕ
  pub assigned_agent : Option ℕ
  pub assigned_user : Option ℕ
  pub status : String
  pub priority : Bytes
  pub deadline : Option ℕ
  pub correlation : Option ℕ
  pub retry_count : ℕ
  pub max_retries : ℕ
  pub delegation_depth : ℕ
  pub max_delegation_depth : ℕ
  pub required_role : Option String
  pub required_capabilities : List String
  pub preferred_agent : Option ℕ

-- A row of task_events.
pub record TaskEvent : Type 0 where
  pub task : ℕ
  pub actor_type : String
  pub actor_user : Option ℕ
  pub actor_agent : Option ℕ
  pub event_type : String
  pub event_correlation : Option ℕ

-- The rows, and the identifiers of the table users, to which the other tables refer.
pub record Db : Type 0 where
  pub users : List ℕ
  pub tasks : List Task
  pub events : List TaskEvent
  pub deps : List (ℕ × ℕ)

abbrev pub is_row : ℕ → ℕ → Task → Bool
is_row org id t = t.id == id && t.org == org

-- SELECT … FROM tasks WHERE id=$1 AND organization_id=$2
abbrev pub find_row : List Task → ℕ → ℕ → Option Task
find_row rows org id = find (is_row org id) rows

-- What GetTask scans: the columns retry_count, max_retries, delegation_depth and
-- max_delegation_depth are not in its SELECT, so these fields keep Go's zero.
abbrev pub hydrate : Task → Task
hydrate row = record row {
  retry_count = 0;
  max_retries = 0;
  delegation_depth = 0;
  max_delegation_depth = 0;
}

unfoldable pub get_task : Db → ℕ → ℕ → Option Task
get_task db org id = elim (find_row db.tasks org id) [ none ↦ none | some row ↦ some (hydrate row) ]

-- UPDATE tasks SET … WHERE id=$1 AND organization_id=$2
abbrev pub update_rows : (Task → Task) → ℕ → ℕ → List Task → List Task
update_rows f org id [] = []
update_rows f org id (t ∷ rows) = (if is_row org id t then f t else t) ∷ update_rows f org id rows
