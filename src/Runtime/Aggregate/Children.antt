-- ===== src/Runtime/Aggregate/Children.antt =====
-- When the aggregation of backend/internal/runtime/aggregation.go completes a parent.
use open_agent_showcase.Common.{
  ℕ, some, Bool, true, false, ◌||◌, any, ◌≡◌, ◌≢◌, refl, arith, Bool-cases, Option-cases, inl, inr,
}
use open_agent_showcase.Task.{Task, Db, get_task}
use open_agent_showcase.Runtime.Aggregate.{
  is_final, listed_children, is_open, is_completed, check_parent_aggregation,
}

-- The aggregation changes the store only for a parent that has not ended, of which every child among
-- the project's 100 newest tasks has ended and one at least is completed.
pub check_parent_aggregation-children :
    (refused : ℕ → Bool) (db : Db) (org id : ℕ)
    → (check_parent_aggregation refused db org id).0 ≢ db
    → (parent : Task) × ((get_task db org id ≡ some parent)
        × ((is_final parent.status ≡ false)
            × ((any is_open (listed_children db org parent id) ≡ false)
                × (any is_completed (listed_children db org parent id) ≡ true))))
unfolding check_parent_aggregation
check_parent_aggregation-children refused db org id changed =
    elim (Option-cases (get_task db org id)) [
      | inl e ↦ absurd (changed (rw (e, check_parent_aggregation) refl))
      | inr (parent, e) ↦
          elim (Bool-cases
            (is_final parent.status || any is_open (listed_children db org parent id))) [
              | inl f ↦ absurd (changed (rw (e, check_parent_aggregation) (rw f refl)))
              | inr f ↦ elim (Bool-cases (any is_completed (listed_children db org parent id))) [
                | inr g ↦ absurd (changed (rw (e, check_parent_aggregation) (rw (f, g) refl)))
                | inl g ↦ (parent, (e, (ground arith, (ground arith, g))))
              ]
            ]
    ]
