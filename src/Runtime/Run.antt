-- ===== src/Runtime/Run.antt =====
-- The status of an agent run: backend/internal/repository/run.go.
pub mod Ended
use open_agent_showcase.Common.{
  ℕ, String, List, [], ◌∷◌, Bool, true, false, ◌||◌, ◌&&◌, not, str_eq, if◌then◌else◌, lookup_str,
  Result, ok, err, Option, none, some, has_str,
}

-- The columns of agent_runs that the status functions write.
pub record Run : Type 0 where
  pub status : String
  pub iteration : ℕ
  pub waiting_reason : Option String
  pub error : Option String
  pub started : Bool
  pub finished : Bool

abbrev pub valid_run_transitions : List (String × List String)
valid_run_transitions =
    ("queued", "running" ∷ "cancelled" ∷ [])
    ∷ (
      "running",
      "awaiting_approval" ∷ "succeeded" ∷ "failed" ∷ "cancelled" ∷ "waiting" ∷ "blocked" ∷ [],
    )
    ∷ ("awaiting_approval", "running" ∷ "failed" ∷ "cancelled" ∷ [])
    ∷ ("waiting", "running" ∷ "succeeded" ∷ "failed" ∷ "cancelled" ∷ [])
    ∷ ("blocked", "running" ∷ "cancelled" ∷ [])
    ∷ ("succeeded", [])
    ∷ ("failed", "queued" ∷ "running" ∷ [])
    ∷ ("cancelled", [])
    ∷ ("pending", "running" ∷ "cancelled" ∷ [])
    ∷ ("assigned", "running" ∷ "cancelled" ∷ [])
    ∷ ("completed", [])
    ∷ []

unfoldable pub is_valid_run_transition : String → String → Bool
is_valid_run_transition from to = elim (lookup_str valid_run_transitions from) [
  | none ↦ false
  | some allowed ↦ has_str allowed to || str_eq from to
]

abbrev pub finishes : String → Bool
finishes status =
    str_eq status "succeeded"
    || (str_eq status "failed" || (str_eq status "cancelled" || str_eq status "completed"))

-- UPDATE agent_runs SET status=$3, error=$5, started_at=…, finished_at=…
abbrev pub with_run_status : String → Option String → Run → Run
with_run_status status e run = record run {
  status = status;
  error = e;
  started = run.started || str_eq status "running";
  finished = if finishes status then true else run.finished;
}

-- The statuses that UpdateAgentRunStatus guards.
abbrev pub is_ended : String → Bool
is_ended status =
    str_eq status "succeeded" || (str_eq status "completed" || str_eq status "cancelled")

-- The CHECK of the column, migrations/000006_phase4_tasks_runtime.sql.
abbrev pub run_statuses : List String
run_statuses =
    "queued" ∷ "running" ∷ "awaiting_approval" ∷ "succeeded" ∷ "failed" ∷ "cancelled" ∷ "pending"
    ∷ "assigned" ∷ "waiting" ∷ "blocked" ∷ "approval_required" ∷ "completed" ∷ []

unfoldable pub admits : String → Bool
admits status = has_str run_statuses status

-- The condition under which UpdateAgentRunStatus refuses a step.
unfoldable pub refuses : String → String → Bool
refuses current status =
    not (str_eq current "")
    && not (is_valid_run_transition current status)
    && (not (str_eq current "succeeded" && str_eq status "running") && is_ended current)

-- UpdateAgentRunStatus on the run's row; the output column is not modelled.
unfoldable pub update_agent_run_status : Run → String → Option String → Run × Result (Unit {0})
update_agent_run_status run status e =
    if refuses run.status status
    then (run, err "invalid run transition")
    else if not (admits status)
    then (run, err "agent_runs_status_check")
    else (with_run_status status e run, ok tt)

-- UpdateAgentRunWaiting: no transition is checked.
unfoldable pub update_agent_run_waiting : Run → String → ℕ → Option String → Run × Result (Unit {0})
update_agent_run_waiting run status iteration reason =
    if not (admits status)
    then (run, err "agent_runs_status_check")
    else (record run { status = status; iteration = iteration; waiting_reason = reason }, ok tt)
