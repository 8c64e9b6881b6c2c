-- ===== src/Tests/Teams.antt =====
-- Tests of the team orchestrator.
use open_agent_showcase.Common.{ℕ, String, some, [], ◌∷◌, ◌≡◌, refl, Bytes}
use open_agent_showcase.Task.{Task}
use open_agent_showcase.Team.{State, delegate_error}
use open_agent_showcase.Tests.Data.{row, store}

abbrev show_id : ℕ → Bytes
show_id n = n ∷ []

abbrev state : String → State
state status = record {
  db = store status;
  pool = record { capacity = 4; queue = []; idem = [] };
  teams = [];
  members = [];
}

-- At depth 5 of 5 the row itself would be refused.
abbrev deep : Task
deep = record (row 7 "running") { delegation_depth = 5 }

delegate_error_test : delegate_error [] deep 3 ≡ some "max delegation depth reached"
unfolding delegate_error
delegate_error_test = refl
