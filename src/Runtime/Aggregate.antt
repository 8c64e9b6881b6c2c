-- ===== src/Runtime/Aggregate.antt =====
-- CheckParentAggregation of backend/internal/runtime/aggregation.go, without its messages.
pub mod Children
use open_agent_showcase.Common.{
  ℕ, String, Option, none, some, List, [], ◌∷◌, Bool, true, false, ◌||◌, ◌&&◌, not, str_eq, is_id,
  keep, any, if◌then◌else◌, Result, ok, err, is_err,
}
use open_agent_showcase.Task.{Task, Db, get_task}
use open_agent_showcase.Task.Update.{update_task_status}
use open_agent_showcase.Task.Page.{project_page}

abbrev pub is_final : String → Bool
is_final status = str_eq status "completed" || (str_eq status "failed" || str_eq status "cancelled")

-- The children among the 100 newest tasks of the project.
unfoldable pub listed_children : Db → ℕ → Task → ℕ → List Task
listed_children db org parent id =
    keep (λ (t : Task). is_id t.parent id) (project_page db org parent.project)

abbrev pub is_open : Task → Bool
is_open t = not (is_final t.status)

abbrev pub is_completed : Task → Bool
is_completed t = str_eq t.status "completed"

abbrev or_nil : Option ℕ → ℕ
or_nil none = 0
or_nil (some a) = a

-- A parent without children has none that is completed.
unfoldable pub check_parent_aggregation : (ℕ → Bool) → Db → ℕ → ℕ → Db × Result (Unit {0})
check_parent_aggregation refused db org id = elim (get_task db org id) [
  | none ↦ (db, err "sql: no rows in result set")
  | some parent ↦
      if is_final parent.status || any is_open (listed_children db org parent id)
      then (db, ok tt)
      else if any is_completed (listed_children db org parent id)
      then (let r =
            update_task_status refused db org id "completed" "agent"
              (or_nil parent.assigned_agent) in
          (r.0, if is_err r.1 then err "update parent" else ok tt))
      else (db, ok tt)
]
