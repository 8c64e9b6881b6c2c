-- ===== src/Task/Update/Pending.antt =====
-- A pending task under UpdateTaskStatus of repository/task.go.
use open_agent_showcase.Common.{
  ℕ, String, some, List, [], ◌∷◌, Bool, true, not, ◌≡◌, refl, subst, inl, inr, has_str,
  every_str-has_str, err, Bool-cases,
}
use open_agent_showcase.Task.{Task, Db, find_row}
use open_agent_showcase.Task.Status.{valid_task_statuses, is_valid_task_transition}
use open_agent_showcase.Task.Update.{update_task_status}

-- The statuses that ExecuteTask, the orchestrator and the aggregation give a task.
abbrev pub run_time_statuses : List String
run_time_statuses =
    "running" ∷ "waiting" ∷ "blocked" ∷ "approval_required" ∷ "completed" ∷ "failed" ∷ []

closed :
    (status : String)
    → has_str run_time_statuses status ≡ true
    → not (is_valid_task_transition "pending" status) ≡ true
unfolding is_valid_task_transition
closed status h =
    every_str-has_str (λ s. not (is_valid_task_transition "pending" s)) run_time_statuses status
      refl h

-- UpdateTaskStatus refuses to take a pending task to any of the statuses that running it would give it:
-- it has to be assigned first.
update_task_status-pending :
    (refused : ℕ → Bool) (db : Db) (org id : ℕ) (row : Task) (status actor_type : String)
    (actor : ℕ)
    → find_row db.tasks org id ≡ some row
    → "pending" ≡ row.status
    → has_str run_time_statuses status ≡ true
    → (e : String) × (update_task_status refused db org id status actor_type actor ≡ (db, err e))
unfolding update_task_status
update_task_status-pending refused db org id row status actor_type actor found pending h =
    elim (Bool-cases (has_str valid_task_statuses status)) [
      | inr e ↦ ("invalid status", rw e refl)
      | inl e ↦ elim (Bool-cases (refused 0)) [
        | inl f ↦ ("begin", rw (e, f) refl)
        | inr f ↦ elim (Bool-cases (refused 1)) [
          | inl g ↦ ("sql: no rows in result set", rw (e, f, g) refl)
          | inr g ↦ (
            "invalid task transition",
            rw
                (
                  e,
                  f,
                  g,
                  found,
                  subst (λ s. not (is_valid_task_transition s status) ≡ true) pending
                      (closed status h),
                )
                refl,
          )
        ]
      ]
    ]
