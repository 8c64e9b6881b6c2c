-- ===== src/Tests/Store.antt =====
-- Tests of the task store.
use open_agent_showcase.Common.{String, some, [], ◌∷◌, true, ◌≡◌, refl, ok, err}
use open_agent_showcase.Task.{find_row, hydrate, get_task}
use open_agent_showcase.Task.Status.{is_valid_task_transition, is_valid_transition}
use open_agent_showcase.Task.Status.Tables.{
  is_valid_transition-is_valid_task_transition, is_valid_task_transition-terminal,
}
use open_agent_showcase.Task.Update.{update_task_status, with_status}
use open_agent_showcase.Task.Update.Atomic.{Outcome, update_task_status-Outcome}
use open_agent_showcase.Task.Update.Terminal.{Request, serve_all, serve_all-terminal}
use open_agent_showcase.Tests.Data.{row, store, never}

update_task_status_test :
    (update_task_status never (store "running") 1 7 "completed" "agent" 3).1
    ≡ ok (hydrate (row 7 "completed"))
unfolding update_task_status is_valid_task_transition with_status get_task
update_task_status_test = refl

update_task_status_test_refused :
    (update_task_status never (store "pending") 1 7 "running" "agent" 3).1
    ≡ err "invalid task transition"
unfolding update_task_status is_valid_task_transition
update_task_status_test_refused = refl

is_valid_transition-is_valid_task_transition_example :
    is_valid_task_transition "running" "waiting" ≡ true
unfolding is_valid_transition
is_valid_transition-is_valid_task_transition_example =
    is_valid_transition-is_valid_task_transition "running" "waiting" refl

is_valid_task_transition-terminal_example : ◌≡◌ {A = String} "done" "done"
unfolding is_valid_task_transition
is_valid_task_transition-terminal_example =
    is_valid_task_transition-terminal "done" "done" refl refl

update_task_status-Outcome_example :
    Outcome
      (store "running")
      1
      7
      "completed"
      "agent"
      3
      (update_task_status never (store "running") 1 7 "completed" "agent" 3)
update_task_status-Outcome_example =
    update_task_status-Outcome never (store "running") 1 7 "completed" "agent" 3

abbrev request : String → Request
request status = record {
  refused = never;
  org = 1;
  id = 7;
  status = status;
  actor_type = "agent";
  actor = 3;
}

serve_all-terminal_example :
    find_row
      (serve_all
        (store "completed")
        (request "running" ∷ request "failed" ∷ request "completed" ∷ [])).tasks
      1
      7
    ≡ some (row 7 "completed")
serve_all-terminal_example =
    serve_all-terminal 1 7 (row 7 "completed") refl (store "completed")
      (request "running" ∷ request "failed" ∷ request "completed" ∷ []) refl
