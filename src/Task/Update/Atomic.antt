-- ===== src/Task/Update/Atomic.antt =====
-- What one call of UpdateTaskStatus does, on every branch.
use open_agent_showcase.Common.{
  ℕ, String, none, some, List, [], ◌∷◌, Bool, true, false, ◌≡◌, refl, inl, inr, arith, has_str,
  Result, ok, err, Bool-cases, Option-cases, ◌||◌, if◌then◌else◌,
}
use open_agent_showcase.Task.{Task, Db, hydrate, is_row, find_row, get_task, update_rows}
use open_agent_showcase.Task.Status.{valid_task_statuses, is_valid_task_transition}
use open_agent_showcase.Task.Update.{set_status, fetched, with_status, update_task_status}

-- An UPDATE that keeps the two identifiers is seen by the next SELECT.
pub find_row-update_rows :
    (f : Task → Task) (org id : ℕ) (rows : List Task)
    → ((t : Task) → is_row org id (f t) ≡ is_row org id t)
    → find_row (update_rows f org id rows) org id
      ≡ (elim (find_row rows org id) [ none ↦ none | some t ↦ some (f t) ])
find_row-update_rows f org id [] h = refl
find_row-update_rows f org id (t ∷ rows) h = elim (Bool-cases (is_row org id t)) [
  | inl here ↦ rw here (rw (h t) (rw here refl))
  | inr other ↦ rw other (rw other (find_row-update_rows f org id rows h))
]

-- The outcomes of UpdateTaskStatus.
pub data Outcome (db : Db) (org id : ℕ) (status actor_type : String) (actor : ℕ)
    (r : Db × Result Task) : Type 0 where
  rolled_back : (e : String) → r ≡ (db, err e) → Outcome db org id status actor_type actor r
  committed :
      (row : Task)
      → find_row db.tasks org id ≡ some row
      → has_str valid_task_statuses status ≡ true
      → is_valid_task_transition row.status status ≡ true
      → r
        ≡ (with_status db org id row status actor_type actor, ok (hydrate (set_status status row)))
      → Outcome db org id status actor_type actor r
  unread :
      (row : Task)
      → find_row db.tasks org id ≡ some row
      → has_str valid_task_statuses status ≡ true
      → is_valid_task_transition row.status status ≡ true
      → r ≡ (with_status db org id row status actor_type actor, err "get task")
      → Outcome db org id status actor_type actor r

fetched-with_status :
    (db : Db) (org id : ℕ) (row : Task) (status actor_type : String) (actor : ℕ)
    → find_row db.tasks org id ≡ some row
    → fetched false (with_status db org id row status actor_type actor) org id
      ≡ ok (hydrate (set_status status row))
unfolding with_status get_task
fetched-with_status db org id row status actor_type actor e =
    rw (find_row-update_rows (set_status status) org id db.tasks (λ t. refl), fetched, get_task)
      (rw e refl)

-- Either the call fails and the store is as it was, or the row was there, the status and the step to
-- it are allowed, and the call writes the status and one event and returns the row as it now stands; if
-- the query of the row after the commit fails, it has written both and fails all the same.
pub update_task_status-Outcome :
    (refused : ℕ → Bool) (db : Db) (org id : ℕ) (status actor_type : String) (actor : ℕ)
    → Outcome db org id status actor_type actor
        (update_task_status refused db org id status actor_type actor)
unfolding update_task_status
update_task_status-Outcome refused db org id status actor_type actor =
    elim (Bool-cases (has_str valid_task_statuses status)) [
      | inr bad ↦ rolled_back "invalid status" (rw (bad, update_task_status) refl)
      | inl valid ↦ elim (Bool-cases (refused 0)) [
        | inl r0 ↦ rolled_back "begin" (ground arith)
        | inr b0 ↦ elim (Option-cases (if refused 1 then none else find_row db.tasks org id)) [
          | inl missing ↦
              rolled_back "sql: no rows in result set"
                (rw (valid, update_task_status) (rw b0 (rw missing refl)))
          | inr (row, found) ↦ go valid b0 row found
        ]
      ]
    ]
  where
    go :
        has_str valid_task_statuses status ≡ true
        → refused 0 ≡ false
        → (row : Task) → (if refused 1 then none else find_row db.tasks org id) ≡ some row
        → Outcome db org id status actor_type actor
            (update_task_status refused db org id status actor_type actor)
    go valid b0 row found =
        let at_row : find_row db.tasks org id ≡ some row = ground arith in
        let read = fetched-with_status db org id row status actor_type actor at_row in
        elim (Bool-cases (is_valid_task_transition row.status status)) [
          | inr bad ↦
              rolled_back "invalid task transition"
                (rw (valid, update_task_status) (rw b0 (rw found (rw bad refl))))
          | inl step ↦ elim (Bool-cases (refused 2 || (refused 3 || refused 4))) [
            | inl lost ↦
                rolled_back "statement failed"
                  (rw (valid, update_task_status) (rw b0 (rw found (rw step (rw lost refl)))))
            | inr kept ↦ elim (Bool-cases (refused 5)) [
              | inl gone ↦ unread row at_row valid step (
                  rw (valid, update_task_status)
                    (rw b0 (rw found (rw step (rw kept (rw gone refl))))))
              | inr there ↦ committed row at_row valid step (
                  rw (valid, update_task_status)
                    (rw b0 (rw found (rw step (rw kept (rw there (rw read refl)))))))
            ]
          ]
        ]
