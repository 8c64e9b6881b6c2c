-- ===== src/Task/Page.antt =====
-- ListTasks of backend/internal/repository/task.go. The rows stand in the order of their creation.
use open_agent_showcase.Common.{
  ℕ, String, Option, none, some, List, Bool, true, ◌||◌, ◌&&◌, ◌==◌, str_eq, ltb, if◌then◌else◌,
  is_id, take, keep,
}
use mathlib.Core.List.{map, reverse}
use open_agent_showcase.Task.{Task, Db, hydrate}

-- The filters: nil, the empty text, or what the rows must have.
pub record Filter : Type 0 where
  pub project : Option ℕ
  pub channel : Option ℕ
  pub status : String
  pub agent : Option ℕ

abbrev wanted : Option ℕ → ℕ → Bool
wanted none a = true
wanted (some b) a = b == a

abbrev wanted_or_null : Option ℕ → Option ℕ → Bool
wanted_or_null none column = true
wanted_or_null (some b) column = is_id column b

abbrev pub page_size : ℕ → ℕ
page_size limit = if limit == 0 || ltb 100 limit then 20 else limit

unfoldable pub passes : ℕ → Filter → Task → Bool
passes org f t =
    t.org == org
    && (wanted f.project t.project
        && (wanted_or_null f.channel t.channel
            && ((str_eq f.status "" || str_eq t.status f.status)
                && wanted_or_null f.agent t.assigned_agent)))

-- SELECT … ORDER BY created_at DESC LIMIT
unfoldable pub list_tasks : Db → ℕ → Filter → ℕ → List Task
list_tasks db org f limit =
    map hydrate (take (page_size limit) (reverse (keep (passes org f) db.tasks)))

-- The 100 newest tasks of a project.
abbrev pub project_page : Db → ℕ → ℕ → List Task
project_page db org project =
    list_tasks db org (record { project = some project; channel = none; status = ""; agent = none })
      100
