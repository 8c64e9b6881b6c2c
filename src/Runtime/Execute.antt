-- ===== src/Runtime/Execute.antt =====
-- Runtime.ExecuteTask of backend/internal/runtime/runtime.go and retryDecision of runtime/retry.go.
-- Prompts, messages, broadcasts, metrics, token counts and stored memories are not modelled; a write of
-- a run is refused only by the checks that Runtime.Run models.
pub mod Budget
pub mod Settled
use open_agent_showcase.Common.{
  ℕ, zero, suc, ◌+◌, ◌-◌, String, Option, none, some, List, [], ◌∷◌, ◌++◌, Bool, true, false, ◌||◌,
  ◌&&◌, not, str_eq, ltb, if◌then◌else◌, is_some, keep, length, take, Bytes, Result, ok, err,
}
use open_agent_showcase.Task.{Task, TaskEvent, Db, get_task}
use open_agent_showcase.Task.Update.{update_task_status}
use open_agent_showcase.Runtime.Decision.{Decision, validate_decision}
use open_agent_showcase.Runtime.Repair.{normalize_decision}
use open_agent_showcase.Runtime.Run.{Run, update_agent_run_status, update_agent_run_waiting}
use open_agent_showcase.Runtime.Gate.{Tool, Agent, max_tool_calls, count_tool_calls, gate}
use open_agent_showcase.Runtime.Perform.{Setting, Work, Answer, Output, perform_actions}

abbrev pub max_iterations : ℕ
max_iterations = 10

abbrev max_decision_retries : ℕ
max_decision_retries = 2

-- What provider.Complete returns, and what encoding/json makes of the text that extractJSON finds in
-- it.
pub data Reply : Type 0 where
  provider_error : String → Reply
  unreadable : String → Reply
  decoded : Decision → Reply

-- What one iteration meets: whether the context is done, the first reply and the repairs, the answers
-- to the actions, and the statements refused in the writes of the task's status.
pub record Turn : Type 0 where
  pub cancelled : Bool
  pub replies : ℕ → Reply
  pub answers : ℕ → Answer
  pub refused : ℕ → Bool

-- A row that ListToolExecutions returns.
pub record Execution : Type 0 where
  pub status : String
  pub has_output : Bool
  pub has_error : Bool

-- The variables of ExecuteTask: the store, the task that was read, the run's row, toolCallCount. In
-- `called` stand the calls of tools that were made, in order, with whether they failed, which no variable
-- holds; and the jobs that were given to the pool for new tasks.
pub record State : Type 0 where
  pub db : Db
  pub task : Task
  pub run : Run
  pub calls : ℕ
  pub called : List Output
  pub jobs : List (ℕ × ℕ)

-- The entries of outputs that calls of tools have left; each call leaves one.
abbrev pub tool_outputs : List Output → List Output
tool_outputs os = keep (λ (o : Output). str_eq o.action "call_tool") os

abbrev set_run : String → Option String → State → State
set_run status e st = record st { run = (update_agent_run_status st.run status e).0 }

abbrev is_waiting : String → Bool
is_waiting status = str_eq status "approval_required" || str_eq status "waiting"

-- How many results of earlier calls a resumed run starts with.
unfoldable pub previous_outputs : Bool → List Execution → ℕ
previous_outputs resumed rows =
    if resumed
    then length (
        keep
          (λ (x : Execution).
            (str_eq x.status "succeeded" && x.has_output)
            || (str_eq x.status "failed" && x.has_error))
          (take 5 rows))
    else 0

module _ (is_uuid : Bytes → Bool) where
  -- ParseAgentDecision on the reply.
  unfoldable pub parse_decision : Reply → Result Decision
  parse_decision (provider_error e) = err e
  parse_decision (unreadable e) = err e
  parse_decision (decoded d) = elim (validate_decision is_uuid (normalize_decision d)) [
    | some e ↦ err e
    | none ↦ ok (normalize_decision d)
  ]

  -- The loop of retryDecision, from the repair at `retry` on; `e` is the last error.
  unfoldable pub repair : ℕ → (ℕ → Reply) → ℕ → Result Decision
  repair zero replies retry = err "invalid decision after retries"
  repair (suc left) replies retry =
      let rest = repair left replies (suc retry) in
      elim (replies retry) [
        | provider_error e ↦ err e
        | unreadable e ↦ rest
        | decoded d ↦ elim (parse_decision (decoded d)) [ ok good ↦ ok good | err e ↦ rest ]
      ]

  -- The decision of an iteration whose first reply came: parsed, or repaired.
  unfoldable pub decide : (ℕ → Reply) → Result Decision
  decide replies = elim (parse_decision (replies 0)) [
    | ok d ↦ ok d
    | err e ↦ repair max_decision_retries replies 1
  ]

module _ (s : Setting) where
  unfoldable pub set_task : (ℕ → Bool) → String → State → State
  set_task refused status st = record st {
    db = (update_task_status refused st.db s.org st.task.id status "agent" s.agent).0;
  }

  -- `run` and the task get a status, and ExecuteTask returns.
  abbrev pub ends :
      (ℕ → Bool)
      → String
      → String
      → Option String
      → Result (Unit {0})
      → State
      → State × Option (Result (Unit {0}))
  ends refused run_status task_status e result st =
      (set_task refused task_status (set_run run_status e st), some result)

  -- CreateTaskEvent(taskID, "agent", &agentID, "completed", …)
  abbrev completion : State → State
  completion st = record st {
    db = record st.db {
      events =
          st.db.events
          ++ record {
            task = st.task.id;
            actor_type = "agent";
            actor_user = none;
            actor_agent = some s.agent;
            event_type = "completed";
            event_correlation = s.correlation;
          }
            ∷ [];
    };
  }

  -- The switch on the decision's status.
  unfoldable pub conclude : (ℕ → Bool) → String → State → State × Option (Result (Unit {0}))
  conclude refused status st =
      if str_eq status "completed"
      then (completion (set_task refused "completed" (set_run "succeeded" none st)), some (ok tt))
      else if str_eq status "failed"
      then ends refused "failed" "failed" none (err "agent decided failed") st
      else if str_eq status "needs_human" || is_waiting status
      then ends refused "awaiting_approval" "waiting" none (ok tt) st
      else if (str_eq status "continue" || str_eq status "delegate") && ltb max_tool_calls st.calls
      then (set_run "failed" none st, some (err "max tool calls exceeded"))
      else (st, none)

  -- After the actions: an error parks the run, or is returned as it is.
  unfoldable pub after_actions :
      (ℕ → Bool) → ℕ → Decision → Work × Option String → State → State × Option (Result (Unit {0}))
  after_actions refused iteration d (w, some e) st =
      let st' = record st {
        db = w.db;
        task = w.task;
        called = st.called ++ tool_outputs w.outputs;
        jobs = st.jobs ++ w.jobs;
      } in
      if is_waiting w.status
      then ends refused "awaiting_approval" "approval_required" none (ok tt) (record st' {
        run = (update_agent_run_waiting st.run "WAITING_FOR_APPROVAL" iteration (some w.status)).0;
      })
      else (st', some (err e))
  after_actions refused iteration d (w, none) st = conclude refused w.status (record {
    db = w.db;
    task = w.task;
    run = (update_agent_run_waiting st.run "running" iteration none).0;
    calls = st.calls + count_tool_calls d.actions;
    called = st.called ++ tool_outputs w.outputs;
    jobs = st.jobs ++ w.jobs;
  })

  module _ (tools : List Tool) (agent : Agent) where
    -- From the decision on.
    unfoldable pub act_on : Turn → ℕ → Decision → State → State × Option (Result (Unit {0}))
    act_on turn iteration d st = elim (gate tools s.org agent st.task d st.calls) [
      | some e ↦ ends turn.refused "failed" "failed" none (err e) st
      | none ↦
          after_actions turn.refused iteration d
            (perform_actions s d.response turn.answers 0
              (record { db = st.db; task = st.task; status = d.status; outputs = []; jobs = [] })
              d.actions)
            st
    ]

abbrev pub is_provider_error : Reply → Bool
is_provider_error (provider_error e) = true
is_provider_error (unreadable e) = false
is_provider_error (decoded d) = false

abbrev pub queued_run : Run
queued_run = record {
  status = "queued";
  iteration = 0;
  waiting_reason = none;
  error = none;
  started = false;
  finished = false;
}

module _ (is_uuid : Bytes → Bool) (s : Setting) (tools : List Tool) (agent : Agent) where
  -- The body of the loop; the answer is what ExecuteTask returns, if it does.
  unfoldable pub step : Turn → ℕ → State → State × Option (Result (Unit {0}))
  step turn iteration st =
      if turn.cancelled
      then (set_run "cancelled" none st, some (err "context canceled"))
      else if is_provider_error (turn.replies 0)
      then ends s turn.refused "failed" "failed" (some "provider") (err "provider") st
      else elim (decide is_uuid turn.replies) [
        | err e ↦ ends s turn.refused "failed" "failed" (some e) (err e) st
        | ok d ↦ act_on s tools agent turn iteration d st
      ]

  -- The loop, with `left` iterations to go.
  unfoldable pub iterate : (ℕ → Turn) → ℕ → State → State × Result (Unit {0})
  iterate turns zero st = (
    set_task s (turns 0).refused "failed" (set_run "failed" none st),
    err "max iterations exceeded",
  )
  iterate turns (suc left) st =
      let r = step (turns (suc left)) (max_iterations - left) st in
      elim r.1 [ some answer ↦ (r.0, answer) | none ↦ iterate turns left r.0 ]

  -- ExecuteTask; `none` where the task is not found, before there is a run. The turn with `left`
  -- iterations to go is at `left`, and the last writes have the turn at 0.
  unfoldable pub execute_task :
      (ℕ → Turn) → (ℕ → Bool) → Bool → List Execution → Db → ℕ → Option (State × Result (Unit {0}))
  execute_task turns refused resumed rows db id = elim (get_task db s.org id) [
    | none ↦ none
    | some task ↦ some (
        iterate turns max_iterations (
          set_task s refused "running" (
            set_run "running" none (record {
              db = db;
              task = task;
              run = queued_run;
              calls = previous_outputs resumed rows;
              called = [];
              jobs = [];
            }))))
  ]
