-- ===== src/Team/Limits.antt =====
-- The limits that the orchestrator of backend/internal/team/orchestrator.go reads, and what is left of
-- them.
use open_agent_showcase.Common.{
  ℕ, Option, none, some, List, ◌∷◌, Bool, true, false, ◌==◌, any, if◌then◌else◌, Bytes, ◌≡◌, refl,
  arith, Bool-cases, inl, inr,
}
use open_agent_showcase.Task.{Task, hydrate, find_row, get_task}
use open_agent_showcase.Task.Dependency.{is_task_blocked}
use open_agent_showcase.Team.{State, coordinator, in_team, delegate_error, evaluate}

-- On a parent as GetTask returns it Delegate checks the team alone: the columns of the depth and the
-- retries are not among those that GetTask reads, so the limits refuse nothing.
delegate_error-hydrate :
    (members : List (ℕ × ℕ)) (row : Task) (dest : ℕ)
    → delegate_error members (hydrate row) dest
      ≡ (if in_team members row.team dest then none else some "agent not in team")
unfolding delegate_error
delegate_error-hydrate members row dest = ground arith

-- A failed task that is not blocked is escalated at once and never retried, whatever its row says of
-- its retries; nothing is written.
evaluate-failed :
    (show_id : ℕ → Bytes) (refused : ℕ → Bool) (now : ℕ) (st : State) (org id : ℕ) (row : Task)
    → find_row st.db.tasks org id ≡ some row
    → row.status ≡ "failed"
    → is_task_blocked st.db id ≡ false
    → evaluate show_id refused now st org id ≡ some (st, "escalated")
unfolding evaluate get_task
evaluate-failed show_id refused now st org id row found failed open_deps =
    rw (open_deps, found, failed) refl

-- The coordinator of a team with members is one of them.
pub coordinator-member :
    (set : Option ℕ) (m : ℕ) (members : List ℕ)
    → (c : ℕ) × ((coordinator set (m ∷ members) ≡ some c)
        × (any (λ x. x == c) (m ∷ members) ≡ true))
unfolding coordinator
coordinator-member none m members = (m, (refl, ground arith))
coordinator-member (some c) m members = elim (Bool-cases (any (λ x. x == c) (m ∷ members))) [
  | inl e ↦ (c, (rw e refl, e))
  | inr e ↦ (m, (rw e refl, ground arith))
]
