-- ===== src/Task/Update/Terminal.antt =====
-- Terminal statuses under the writes of repository/task.go.
use open_agent_showcase.Common.{
  ℕ, String, Option, none, some, List, [], ◌∷◌, ◌++◌, Bool, true, false, ◌&&◌, ◌||◌, ◌≡◌, refl, sym,
  ap, inl, inr, arith, ◌==◌, any, has, has_str, Result, ok, err, Bool-cases, subst,
}
use open_agent_showcase.Task.{Task, Db, hydrate, find_row, get_task, update_rows}
use open_agent_showcase.Task.Status.{is_valid_task_transition}
use open_agent_showcase.Task.Status.Tables.{terminal_statuses, is_valid_task_transition-terminal}
use open_agent_showcase.Task.Update.{
  set_status, correlation_of, fetched, with_status, update_task_status, with_assignee, assign_task,
}
use open_agent_showcase.Task.Update.Atomic.{
  find_row-update_rows, Outcome, rolled_back, committed, unread, update_task_status-Outcome,
}

-- One call of UpdateTaskStatus, with the statements that the database refuses.
pub record Request : Type 0 where
  pub refused : ℕ → Bool
  pub org : ℕ
  pub id : ℕ
  pub status : String
  pub actor_type : String
  pub actor : ℕ

abbrev pub serve : Db → Request → Db
serve db q = (update_task_status q.refused db q.org q.id q.status q.actor_type q.actor).0

abbrev pub serve_all : Db → List Request → Db
serve_all db [] = db
serve_all db (q ∷ qs) = serve_all (serve db q) qs

find_row-update_rows_ne :
    (status : String) (org id org' id' : ℕ) (rows : List Task)
    → (id == id' && org == org') ≡ false
    → find_row (update_rows (set_status status) org id rows) org' id' ≡ find_row rows org' id'
find_row-update_rows_ne status org id org' id' [] h = refl
find_row-update_rows_ne status org id org' id' (t ∷ rows) h =
    ground (arith, find_row-update_rows_ne status org id org' id' rows h)

find_row-set_status_self :
    (status : String) (org id org' id' : ℕ) (rows : List Task) (row : Task)
    → org' ≡ org
    → id' ≡ id
    → find_row rows org id ≡ some row
    → row.status ≡ status
    → find_row (update_rows (set_status status) org' id' rows) org id ≡ some row
find_row-set_status_self status org id org' id' rows row eo ei found e =
    subst (λ o. find_row (update_rows (set_status status) o id' rows) org id ≡ some row) (sym eo)
      (subst (λ j. find_row (update_rows (set_status status) org j rows) org id ≡ some row) (sym ei)
        (rw (find_row-update_rows (set_status status) org id rows (λ t. refl))
          (rw found (ap (λ s. some (set_status s row)) (sym e)))))

module _ (org id : ℕ) (row : Task) (ended : has_str terminal_statuses row.status ≡ true) where
  serve-terminal :
      (db : Db) (q : Request)
      → find_row db.tasks org id ≡ some row
      → find_row (serve db q).tasks org id ≡ some row
  unfolding with_status
  serve-terminal db q found =
      go (update_task_status-Outcome q.refused db q.org q.id q.status q.actor_type q.actor)
    where
      written :
          (old : Task) (answer : Result Task)
          → find_row db.tasks q.org q.id ≡ some old
          → is_valid_task_transition old.status q.status ≡ true
          → update_task_status q.refused db q.org q.id q.status q.actor_type q.actor
            ≡ (with_status db q.org q.id old q.status q.actor_type q.actor, answer)
          → find_row (serve db q).tasks org id ≡ some row
      written old answer at_old step same = elim (Bool-cases (q.id == id && q.org == org)) [
        | inr other ↦
            subst (λ (r : Db × Result Task). find_row r.0.tasks org id ≡ some row) (sym same)
              (rw (find_row-update_rows_ne q.status q.org q.id org id db.tasks other) found)
        | inl here ↦
            let ei : q.id ≡ id = ground arith in
            let eo : q.org ≡ org = ground arith in
            let at_old' : find_row db.tasks org id ≡ some old =
              subst (λ o. find_row db.tasks o id ≡ some old) eo
                (subst (λ j. find_row db.tasks q.org j ≡ some old) ei at_old) in
            let e : old ≡ row = cc in
            let still : is_valid_task_transition row.status q.status ≡ true =
              subst (λ (r : Task). is_valid_task_transition r.status q.status ≡ true) e step in
            subst (λ (r : Db × Result Task). find_row r.0.tasks org id ≡ some row) (sym same)
              (find_row-set_status_self q.status org id q.org q.id db.tasks row eo ei found
                (is_valid_task_transition-terminal row.status q.status ended still))
      ]

      go :
          Outcome db q.org q.id q.status q.actor_type q.actor
            (update_task_status q.refused db q.org q.id q.status q.actor_type q.actor)
          → find_row (serve db q).tasks org id ≡ some row
      go (rolled_back e same) =
          subst (λ (r : Db × Result Task). find_row r.0.tasks org id ≡ some row) (sym same) found
      go (committed old at_old valid step same) = written old _ at_old step same
      go (unread old at_old valid step same) = written old _ at_old step same

  -- A row with a terminal status stays as it is, whatever calls of UpdateTaskStatus follow.
  pub serve_all-terminal :
      (db : Db) (qs : List Request)
      → find_row db.tasks org id ≡ some row
      → find_row (serve_all db qs).tasks org id ≡ some row
  serve_all-terminal db [] found = found
  serve_all-terminal db (q ∷ qs) found =
      serve_all-terminal (serve db q) qs (serve-terminal db q found)

-- AssignTask looks at no status: an unrefused call sets the status of every row to `assigned`, also
-- that of a completed or cancelled task.
assign_task-reopens :
    (db : Db) (org id : ℕ) (agent user : Option ℕ) (by : ℕ) (row : Task)
    → find_row db.tasks org id ≡ some row
    → any (λ t. t.id == id) db.tasks ≡ true
    → has db.users by ≡ true
    → (assign_task (λ n. false) db org id agent user by).1
      ≡ ok (
          hydrate
            (record row { assigned_agent = agent; assigned_user = user; status = "assigned" }))
unfolding assign_task with_assignee get_task
assign_task-reopens db org id agent user by row found known user_known =
    rw (known, user_known)
      (rw
        (
          find_row-update_rows
              (λ t. record t { assigned_agent = agent; assigned_user = user; status = "assigned" })
              org id db.tasks (λ t. refl),
          fetched,
          get_task,
        )
        (rw found refl))

-- Of a task of another organization AssignTask writes no row and answers with an error, and yet
-- commits an event of that task.
assign_task-foreign :
    (db : Db) (org id : ℕ) (agent user : Option ℕ) (by : ℕ)
    → find_row db.tasks org id ≡ none
    → any (λ t. t.id == id) db.tasks ≡ true
    → has db.users by ≡ true
    → let r = assign_task (λ n. false) db org id agent user by in
      (r.1 ≡ err "sql: no rows in result set")
      × (r.0.events
          ≡ db.events
            ++ record {
              task = id;
              actor_type = "user";
              actor_user = some by;
              actor_agent = none;
              event_type = "assigned";
              event_correlation = correlation_of db.tasks id;
            }
              ∷ [])
unfolding assign_task with_assignee get_task
assign_task-foreign db org id agent user by missing known user_known = (
  rw (known, user_known)
      (rw
        (
          find_row-update_rows
              (λ t. record t { assigned_agent = agent; assigned_user = user; status = "assigned" })
              org id db.tasks (λ t. refl),
          fetched,
          get_task,
        )
        (rw missing refl)),
  rw (known, user_known) refl,
)

-- AssignTask fails and changes nothing when the identifier given as the assigner is no user's.
pub assign_task-not_user :
    (refused : ℕ → Bool) (db : Db) (org id : ℕ) (agent user : Option ℕ) (by : ℕ)
    → has db.users by ≡ false
    → (e : String) × (assign_task refused db org id agent user by ≡ (db, err e))
unfolding assign_task
assign_task-not_user refused db org id agent user by h =
    elim (Bool-cases (refused 0 || (refused 1 || (refused 2 || refused 3)))) [
      | inl e ↦ ("statement failed", rw e refl)
      | inr e ↦ elim (Bool-cases (any (λ t. t.id == id) db.tasks)) [
        | inl k ↦ ("foreign key", rw (e, k, h) refl)
        | inr k ↦ ("foreign key", rw (e, k) refl)
      ]
    ]
