-- ===== src/Scheduler.antt =====
-- The triggers of backend/internal/scheduler/service.go: CreateTrigger, nextWeekly, ListTriggers,
-- GetTrigger, DeleteTrigger and ProcessDueTriggers. Times are seconds since a Monday at 00:00 UTC; a time
-- zone is the number of seconds that its clock is ahead, taken modulo a week and so not negative. The
-- change to summer time is not modelled. FOR UPDATE SKIP LOCKED is read as a plain query, and one time is
-- that of the query and of all claims of a call.
pub mod Weekly
pub mod Again
pub mod Settled
use open_agent_showcase.Common.{
  ℕ, ◌+◌, ◌-◌, ◌*◌, ◌/◌, ◌%◌, ◌==◌, String, Option, none, some, List, [], ◌∷◌, ◌++◌, Bool, true,
  false, ◌||◌, ◌&&◌, not, ltb, leb, str_eq, if◌then◌else◌, is_some, has_str, any, find, keep, map,
  Result, ok, err,
}

-- The configuration; an empty text is one that is missing, and none is of another type. `scheduled_at` is what time.Parse makes of
-- scheduledAt, if it is there, and `ahead` what the time zone is.
pub record Config : Type 0 where
  pub title : String
  pub description : String
  pub scheduled_at : Option (Option ℕ)
  pub cron : String
  pub ahead : ℕ

-- domain.Trigger
pub record Trigger : Type 0 where
  pub id : ℕ
  pub org : ℕ
  pub name : String
  pub kind : String
  pub config : Config
  pub enabled : Bool
  pub agent : Option ℕ
  pub team : Option ℕ
  pub project : Option ℕ
  pub created_by : ℕ
  pub last_triggered : Option ℕ
  pub next_run : Option ℕ

-- A row of scheduled_tasks.
pub record Scheduled : Type 0 where
  pub org : ℕ
  pub trigger : ℕ
  pub title : String
  pub scheduled_at : ℕ
  pub recurrence : String

-- A row of tasks.
pub record NewTask : Type 0 where
  pub id : ℕ
  pub org : ℕ
  pub project : ℕ
  pub team : Option ℕ
  pub title : String
  pub description : String
  pub created_by : ℕ

-- The tables, and the jobs that were given to the pool: an agent and a task.
pub record Store : Type 0 where
  pub triggers : List Trigger
  pub scheduled : List Scheduled
  pub tasks : List NewTask
  pub jobs : List (ℕ × ℕ)

abbrev pub day : ℕ
day = 86400

-- From 0 for Monday; Go counts from 0 for Sunday.
abbrev pub weekday : ℕ → ℕ
weekday t = (t / day) % 7

abbrev pub is_monday_at_nine : String → Bool
is_monday_at_nine cron = str_eq cron "0 9 * * 1" || str_eq cron "weekly:mon@09:00"

-- daysUntilMonday, of (8 - weekday) % 7 with Go's weekday.
unfoldable pub days_until_monday : ℕ → ℕ
days_until_monday local =
    let days = (8 - (weekday local + 1) % 7) % 7 in
    if days == 0 && leb 9 ((local % day) / 3600) then 7 else days

unfoldable pub next_weekly : String → ℕ → ℕ → ℕ
unfolding days_until_monday
next_weekly cron ahead now =
    let local = now + ahead in
    if is_monday_at_nine cron
    then now + ((days_until_monday local * day + 9 * 3600) - local % day)
    else now + 60

-- The first run of a trigger.
unfoldable pub first_run : ℕ → String → Config → Option ℕ
unfolding next_weekly
first_run now kind cfg = if not (str_eq kind "schedule") then none else elim cfg.scheduled_at [
  | some t ↦ t
  | none ↦ if str_eq cfg.cron "" then none else some (next_weekly cfg.cron cfg.ahead now)
]

abbrev pub trigger_types : List String
trigger_types =
    "schedule" ∷ "message_received" ∷ "task_completed" ∷ "task_failed" ∷ "new_document"
    ∷ "approval_received" ∷ "project_event" ∷ []

-- `t` is the trigger that is asked for, with an identifier.
unfoldable pub create_trigger : ℕ → Trigger → Store → Store × Result Trigger
unfolding first_run
create_trigger now t st =
    if not (has_str trigger_types t.kind)
    then (st, err "invalid trigger_type")
    else let t' = record t {
      enabled = true;
      last_triggered = none;
      next_run = first_run now t.kind t.config;
    } in
      (record st { triggers = st.triggers ++ t' ∷ [] }, ok t')

unfoldable pub list_triggers : ℕ → Store → List Trigger
list_triggers o st = keep (λ (t : Trigger). t.org == o) st.triggers

unfoldable pub get_trigger : ℕ → ℕ → Store → Option Trigger
get_trigger o id st = find (λ (t : Trigger). t.id == id && t.org == o) st.triggers

unfoldable pub delete_trigger : ℕ → ℕ → Store → Store
delete_trigger o id st = record st {
  triggers = keep (λ (t : Trigger). not (t.id == id && t.org == o)) st.triggers;
}

-- next_run_at <= now()
abbrev pub has_come : ℕ → Option ℕ → Bool
has_come now none = false
has_come now (some t) = leb t now

abbrev pub is_due : ℕ → Trigger → Bool
is_due now t = t.enabled && (str_eq t.kind "schedule" && has_come now t.next_run)

-- What surrounds the processing: the time at which the triggers are read and claimed, the identifier of
-- the task, whether there is a pool, and whether the database refuses the row of scheduled_tasks or of
-- tasks.
pub record Setting : Type 0 where
  pub now : ℕ
  pub task_id : ℕ
  pub has_worker : Bool
  pub scheduling_fails : Bool
  pub task_fails : Bool

-- WHERE id=$1 AND next_run_at <= now() AND enabled=true
abbrev pub is_claimable : ℕ → ℕ → Trigger → Bool
is_claimable now id t = t.id == id && (has_come now t.next_run && t.enabled)

-- The claim: a trigger with a cron text runs again, another one is disabled. `cfg` is the configuration
-- that was read.
unfoldable pub claimed : ℕ → Config → Trigger → Trigger
unfolding next_weekly
claimed now cfg t =
    if str_eq cfg.cron ""
    then record t { last_triggered = some now; next_run = none; enabled = false }
    else record t {
      last_triggered = some now;
      next_run = some (next_weekly cfg.cron cfg.ahead now);
    }

unfoldable pub claim : ℕ → ℕ → Config → List Trigger → List Trigger
unfolding claimed
claim now id cfg [] = []
claim now id cfg (t ∷ rows) =
    (if is_claimable now id t then claimed now cfg t else t) ∷ claim now id cfg rows

abbrev title_of : Trigger → String
title_of r = if str_eq r.config.title "" then r.name else r.config.title

abbrev scheduled_of : ℕ → Trigger → Scheduled
scheduled_of now r = record {
  org = r.org;
  trigger = r.id;
  title = title_of r;
  scheduled_at = elim r.next_run [ none ↦ now | some t ↦ t ];
  recurrence = r.config.cron;
}

abbrev jobs_of : Setting → Option ℕ → List (ℕ × ℕ)
jobs_of set none = []
jobs_of set (some a) = if set.has_worker then (a, set.task_id) ∷ [] else []

-- The task of a trigger of a project. A refused row aborts the transaction, which the commit then rolls
-- back; `before` is the store as it was.
abbrev with_task : Setting → Trigger → Option ℕ → Store → Store → Store
with_task set r none before st = st
with_task set r (some p) before st = if set.task_fails then before else record st {
  tasks =
      st.tasks
      ++ record {
        id = set.task_id;
        org = r.org;
        project = p;
        team = r.team;
        title = title_of r;
        description = r.config.description;
        created_by = r.created_by;
      }
        ∷ [];
  jobs = st.jobs ++ jobs_of set r.agent;
}

-- One turn of the loop, and whether it is counted; `r` is the row that was read.
unfoldable pub process_trigger : Setting → Trigger → Store → Store × Bool
unfolding claim
process_trigger set r st =
    if not (any (is_claimable set.now r.id) st.triggers) || set.scheduling_fails
    then (st, false)
    else (
      with_task set r r.project st (record st {
        triggers = claim set.now r.id r.config st.triggers;
        scheduled = st.scheduled ++ scheduled_of set.now r ∷ [];
      }),
      true,
    )

unfoldable pub process_all : Setting → List Trigger → Store × ℕ → Store × ℕ
unfolding process_trigger
process_all set [] s = s
process_all set (r ∷ rs) (st, n) =
    let (st', counted) = process_trigger (record set { task_id = set.task_id + n }) r st in
    process_all set rs (st', if counted then n + 1 else n)

unfoldable pub process_due_triggers : Setting → Store → Store × ℕ
unfolding process_all
process_due_triggers set st = process_all set (keep (is_due set.now) st.triggers) (st, 0)
