-- ===== src/Tests/Runs.antt =====
-- Tests of agent runs.
use open_agent_showcase.Common.{
  ◌+◌, length, ℕ, ◌≤◌, String, Option, none, some, [], ◌∷◌, Bool, true, false, ◌≡◌, ◌≢◌, refl, ap,
  Result, ok, any, Bytes, bytes,
}
use open_agent_showcase.Task.{Task, Db, find_row, get_task}
use open_agent_showcase.Task.Status.{is_valid_task_transition}
use open_agent_showcase.Task.Update.{with_status, update_task_status}
use open_agent_showcase.Task.Page.{list_tasks, passes}
use open_agent_showcase.Runtime.Decision.{
  Action, Decision, validate_action, check_actions, check_updates, check_code, validate_decision,
}
use open_agent_showcase.Runtime.Memory.{normalize_updates}
use open_agent_showcase.Runtime.Repair.{
  infer_kind, fill_task, fill_message, fill_tool, fill_query, normalize_action, normalize_actions,
  normalize_decision,
}
use open_agent_showcase.Runtime.Run.{
  Run, admits, refuses, is_valid_run_transition, update_agent_run_status, update_agent_run_waiting,
}
use open_agent_showcase.Runtime.Gate.{
  Agent, max_tool_calls, count_tool_calls, gate_action, gate_actions, gate,
}
use open_agent_showcase.Runtime.Perform.{
  Setting, Answer, Work, no_eligible, parked, done, perform_create, perform_action, perform_actions,
}
use open_agent_showcase.Runtime.Execute.{
  decoded, Turn, State, previous_outputs, parse_decision, decide, set_task, conclude, after_actions,
  act_on, step, iterate, queued_run, execute_task,
}
use open_agent_showcase.Runtime.Execute.Budget.{execute_task-calls}
use open_agent_showcase.Runtime.Aggregate.{
  is_final, listed_children, is_open, is_completed, check_parent_aggregation,
}
use open_agent_showcase.Runtime.Aggregate.Children.{check_parent_aggregation-children}
use open_agent_showcase.Tests.Data.{row, child, store, never, action, decision}

abbrev any_uuid : Bytes → Bool
any_uuid s = true

abbrev helper : Agent
helper = record { id = 3; autonomy = "assistant"; tools = [] }

-- An identifier is the byte that stands for it.
abbrev parse_id : Bytes → Option ℕ
parse_id [] = none
parse_id (c ∷ s) = some c

abbrev same : Bytes → Bytes
same s = s

abbrev setting : Setting
setting = record {
  has_pool = true;
  org = 1;
  agent = 3;
  agent_name = bytes "Ada";
  correlation = none;
  roster = record {
    agents = record { id = 4; org = 1; status = "active" } ∷ [];
    project_agents = (5, 4) ∷ [];
    team_members = [];
  };
  parse_uuid = parse_id;
  sanitize = same;
}

abbrev answer : Answer
answer = record { pick = no_eligible; new_id = 20; tool = done; stored = true; refused = never }

abbrev turn_of : Decision → ℕ → Turn
turn_of d left = record {
  cancelled = false;
  replies = λ n. decoded d;
  answers = λ n. answer;
  refused = never;
}

abbrev executed : Decision → String → Option (State × Result (Unit {0}))
executed d status =
    execute_task any_uuid setting [] helper (turn_of d) never false [] (store status) 7

-- The task and the run afterwards.
abbrev statuses : Option (State × Result (Unit {0})) → Option (Option Task × String)
statuses none = none
statuses (some r) = some (find_row r.0.db.tasks 1 7, r.0.run.status)

-- Of an assigned task a completed decision completes the run and the task.
execute_task_test :
    statuses (executed (decision "completed" []) "assigned")
    ≡ some (some (row 7 "completed"), "succeeded")
unfolding execute_task iterate step act_on after_actions conclude set_task decide parse_decision
    previous_outputs get_task update_task_status is_valid_task_transition with_status
    normalize_decision normalize_actions normalize_updates validate_decision check_actions
    check_updates check_code gate gate_actions perform_actions count_tool_calls
    update_agent_run_status update_agent_run_waiting admits refuses is_valid_run_transition
execute_task_test = refl

-- Of a pending task it completes the run, and the task stays pending.
execute_task_test_pending :
    statuses (executed (decision "completed" []) "pending")
    ≡ some (some (row 7 "pending"), "succeeded")
unfolding execute_task iterate step act_on after_actions conclude set_task decide parse_decision
    previous_outputs get_task update_task_status is_valid_task_transition with_status
    normalize_decision normalize_actions normalize_updates validate_decision check_actions
    check_updates check_code gate gate_actions perform_actions count_tool_calls
    update_agent_run_status update_agent_run_waiting admits refuses is_valid_run_transition
execute_task_test_pending = refl

abbrev subtasks : Decision
subtasks = decision "delegate" (record (action "create_task") { title = bytes "draft" } ∷ [])

-- Without an eligible agent the run is left running.
execute_task_test_unsettled :
    statuses (executed subtasks "assigned") ≡ some (some (row 7 "running"), "running")
unfolding execute_task iterate step act_on after_actions conclude set_task decide parse_decision
    previous_outputs get_task update_task_status is_valid_task_transition with_status
    normalize_decision normalize_actions normalize_action infer_kind fill_task fill_message
    fill_tool fill_query normalize_updates validate_decision check_actions validate_action
    check_updates check_code gate gate_actions gate_action perform_actions perform_action
    perform_create count_tool_calls update_agent_run_status update_agent_run_waiting admits refuses
    is_valid_run_transition
execute_task_test_unsettled = refl

abbrev or_start : Option (State × Result (Unit {0})) → State × Result (Unit {0})
or_start none = (
  record { db = store ""; task = row 0 ""; run = queued_run; calls = 0; called = []; jobs = [] },
  ok tt,
)
or_start (some r) = r

abbrev afterwards : State × Result (Unit {0})
afterwards = or_start (executed (decision "completed" []) "assigned")

execute_task-calls_example :
    (length afterwards.0.called + previous_outputs false [] ≤ max_tool_calls)
    × (afterwards.0.calls ≤ max_tool_calls)
unfolding execute_task get_task
execute_task-calls_example =
    execute_task-calls any_uuid setting [] helper (turn_of (decision "completed" [])) never false []
      (store "assigned") 7 afterwards.0 afterwards.1 refl

abbrev work : Work
work = record {
  db = store "running";
  task = row 7 "running";
  status = "delegate";
  outputs = [];
  jobs = [];
}

abbrev delegation : Action
delegation = record (action "delegate_task") { task_id = 7 ∷ []; agent_id = 4 ∷ [] }

abbrev parking : Answer
parking = record answer { tool = parked }

abbrev parked_work : Work × Option String
parked_work = perform_actions setting [] (λ n. parking) 0 work (action "call_tool" ∷ [])

abbrev run : String → Run
run status = record queued_run { status = status }

abbrev family : Db
family = record (store "running") {
  tasks = row 7 "running" ∷ child 11 7 "completed" ∷ child 12 7 "failed" ∷ [];
}

family_changes : (check_parent_aggregation never family 1 7).0 ≢ family
unfolding check_parent_aggregation listed_children list_tasks passes get_task update_task_status
    is_valid_task_transition with_status
family_changes p = cc (ap (λ d. d.events) p)

check_parent_aggregation-children_example :
    (parent : Task) × ((get_task family 1 7 ≡ some parent)
      × ((is_final parent.status ≡ false)
          × ((any is_open (listed_children family 1 parent 7) ≡ false)
              × (any is_completed (listed_children family 1 parent 7) ≡ true))))
check_parent_aggregation-children_example =
    check_parent_aggregation-children never family 1 7 family_changes
