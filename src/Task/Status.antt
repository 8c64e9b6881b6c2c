-- ===== src/Task/Status.antt =====
-- The transition tables of repository/task.go and runtime/context.go.
pub mod Tables
use open_agent_showcase.Common.{
  String, none, some, List, [], ◌∷◌, Bool, true, false, str_eq, if◌then◌else◌, lookup_str, has_str,
}

abbrev pub valid_task_statuses : List String
valid_task_statuses =
    "pending" ∷ "assigned" ∷ "running" ∷ "waiting" ∷ "blocked" ∷ "approval_required" ∷ "completed"
    ∷ "failed" ∷ "cancelled" ∷ "todo" ∷ "in_progress" ∷ "in_review" ∷ "done" ∷ []

abbrev pub valid_task_transitions : List (String × List String)
valid_task_transitions =
    ("pending", "assigned" ∷ "cancelled" ∷ [])
    ∷ ("assigned", "running" ∷ "cancelled" ∷ [])
    ∷ (
      "running",
      "waiting" ∷ "blocked" ∷ "approval_required" ∷ "completed" ∷ "failed" ∷ "cancelled" ∷ [],
    )
    ∷ ("waiting", "running" ∷ "completed" ∷ "failed" ∷ "cancelled" ∷ [])
    ∷ ("blocked", "running" ∷ "cancelled" ∷ [])
    ∷ ("approval_required", "running" ∷ "completed" ∷ "failed" ∷ "cancelled" ∷ [])
    ∷ ("completed", [])
    ∷ ("failed", "pending" ∷ "cancelled" ∷ [])
    ∷ ("cancelled", [])
    ∷ ("todo", "assigned" ∷ "in_progress" ∷ "cancelled" ∷ [])
    ∷ ("in_progress", "completed" ∷ "failed" ∷ "cancelled" ∷ [])
    ∷ ("in_review", "completed" ∷ "failed" ∷ [])
    ∷ ("done", [])
    ∷ []

-- The lookup of a transition table, and the scan of the row that it finds.
abbrev pub is_listed : List (String × List String) → String → String → Bool
is_listed table from to = elim (lookup_str table from) [
  | none ↦ false
  | some allowed ↦ has_str allowed to
]

unfoldable pub is_valid_task_transition : String → String → Bool
is_valid_task_transition from to =
    if str_eq from to then true else is_listed valid_task_transitions from to

-- runtime/context.go keeps a table of its own, without the older names.
abbrev pub valid_transitions : List (String × List String)
valid_transitions =
    ("pending", "assigned" ∷ "cancelled" ∷ [])
    ∷ ("assigned", "running" ∷ "cancelled" ∷ [])
    ∷ (
      "running",
      "waiting" ∷ "blocked" ∷ "approval_required" ∷ "completed" ∷ "failed" ∷ "cancelled" ∷ [],
    )
    ∷ ("waiting", "running" ∷ "completed" ∷ "failed" ∷ "cancelled" ∷ [])
    ∷ ("blocked", "running" ∷ "cancelled" ∷ [])
    ∷ ("approval_required", "running" ∷ "completed" ∷ "failed" ∷ "cancelled" ∷ [])
    ∷ ("completed", [])
    ∷ ("failed", "pending" ∷ "cancelled" ∷ [])
    ∷ ("cancelled", [])
    ∷ []

unfoldable pub is_valid_transition : String → String → Bool
is_valid_transition from to = is_listed valid_transitions from to
