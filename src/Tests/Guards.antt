-- ===== src/Tests/Guards.antt =====
-- Tests of the guardrail service.
use open_agent_showcase.Common.{none, some, [], ◌∷◌, ◌≡◌, refl}
use open_agent_showcase.Guardrail.{
  Db, limit_of, check_task_creation, check_tool_call, check_timeout, last_seen, get_agent_status,
}

abbrev db : Db
db = record {
  budgets =
      record {
        org = 1;
        agent = some 3;
        team = none;
        max_tasks_per_day = some 1;
        max_delegation_depth = none;
        rate_limit_per_minute = some 0;
        max_tool_calls_per_day = none;
      }
      ∷ [];
  tasks = record { org = 1; agent = some 3; label = "blocked"; created = 100 } ∷ [];
  runs = [];
  executions = [];
  users = [];
  agents = (3, some 90) ∷ [];
}

check_task_creation_test :
    check_task_creation db 200 1 3 none 2 ≡ some "daily task limit exceeded for agent"
unfolding check_task_creation limit_of
check_task_creation_test = refl

check_tool_call_test : check_tool_call db 200 1 3 "search" ≡ none
unfolding check_tool_call
check_tool_call_test = refl

check_timeout_test : check_timeout 601 ≡ some "timeout exceeds max 600s"
unfolding check_timeout
check_timeout_test = refl

get_agent_status_test : get_agent_status db 200 1 3 ≡ "waiting"
unfolding get_agent_status last_seen
get_agent_status_test = refl
