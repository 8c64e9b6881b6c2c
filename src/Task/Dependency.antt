-- ===== src/Task/Dependency.antt =====
-- The dependency graph: AddTaskDependency, ListTaskDependencies and IsTaskBlocked of
-- backend/internal/repository/team.go. The database answers every query here.
pub mod Graph
pub mod Search
pub mod Acyclic
use open_agent_showcase.Common.{
  ℕ, zero, suc, String, Option, none, some, List, [], ◌∷◌, ◌++◌, Bool, true, false, ◌||◌, ◌&&◌, not,
  ◌==◌, str_eq, if◌then◌else◌, has, any, find, length,
}
use open_agent_showcase.Task.{Task, Db}

-- SELECT depends_on_task_id FROM task_dependencies WHERE task_id=$1
unfoldable pub list_task_dependencies : List (ℕ × ℕ) → ℕ → List ℕ
list_task_dependencies [] cur = []
list_task_dependencies ((from, to) ∷ g) cur =
    if from == cur then to ∷ list_task_dependencies g cur else list_task_dependencies g cur

-- The loop of AddTaskDependency: whether the search from the queue meets `task`. `none` means that
-- the rounds ran out.
unfoldable pub meets : ℕ → List (ℕ × ℕ) → ℕ → List ℕ → List ℕ → Option Bool
meets rounds g task visited [] = some false
meets zero g task visited (cur ∷ queue) = none
meets (suc rounds) g task visited (cur ∷ queue) =
    let skip = meets rounds g task visited queue in
    let expand = meets rounds g task (cur ∷ visited) (queue ++ list_task_dependencies g cur) in
    if cur == task then some true else if has visited cur then skip else expand

-- INSERT … ON CONFLICT DO NOTHING
abbrev pub insert_edge : List (ℕ × ℕ) → ℕ → ℕ → List (ℕ × ℕ)
insert_edge g task on = if any (λ e. e.0 == task && e.1 == on) g then g else g ++ (task, on) ∷ []

pub data Added : Type 0 where
  added : List (ℕ × ℕ) → Added
  cycle_detected out_of_rounds : Added

-- One round more than there are edges is enough.
unfoldable pub add_task_dependency : List (ℕ × ℕ) → ℕ → ℕ → Added
unfolding meets list_task_dependencies
add_task_dependency g task on = elim (meets (suc (length g)) g task (task ∷ []) (on ∷ [])) [
  | none ↦ out_of_rounds
  | some found ↦ if found then cycle_detected else added (insert_edge g task on)
]

-- SELECT status FROM tasks WHERE id=$1; the variable keeps "" where there is no row.
abbrev pub status_of : List Task → ℕ → String
status_of rows id = elim (find (λ t. t.id == id) rows) [ none ↦ "" | some t ↦ t.status ]

abbrev pub some_open : List Task → List ℕ → Bool
some_open rows deps = any (λ dep. not (str_eq (status_of rows dep) "completed")) deps

unfoldable pub is_task_blocked : Db → ℕ → Bool
unfolding list_task_dependencies
is_task_blocked db task = some_open db.tasks (list_task_dependencies db.deps task)
