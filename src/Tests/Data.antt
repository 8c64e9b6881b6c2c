-- ===== src/Tests/Data.antt =====
-- The rows that the tests share.
use open_agent_showcase.Common.{ℕ, String, none, some, List, [], ◌∷◌, Bool, false, bytes}
use open_agent_showcase.Task.{Task, Db}
use open_agent_showcase.Runtime.Decision.{Action, Decision}

abbrev pub row : ℕ → String → Task
row id status = record {
  id = id;
  org = 1;
  project = 5;
  channel = none;
  parent = none;
  team = none;
  title = bytes "write";
  description = [];
  created_by = 9;
  assigned_agent = some 3;
  assigned_user = none;
  status = status;
  priority = bytes "medium";
  deadline = none;
  correlation = none;
  retry_count = 0;
  max_retries = 3;
  delegation_depth = 4;
  max_delegation_depth = 5;
  required_role = none;
  required_capabilities = [];
  preferred_agent = none;
}

abbrev pub child : ℕ → ℕ → String → Task
child id parent status = record (row id status) { parent = some parent }

-- User 9; task 7 with the given status, and a completed task 8 of organization 2.
abbrev pub store : String → Db
store status = record {
  users = 9 ∷ [];
  tasks = row 7 status ∷ record (row 8 "completed") { org = 2 } ∷ [];
  events = [];
  deps = [];
}

abbrev pub never : ℕ → Bool
never n = false

abbrev pub action : String → Action
action kind = record {
  kind = kind;
  params = none;
  title = [];
  description = [];
  agent_id = [];
  task_id = [];
  channel_id = [];
  body = [];
  tool = [];
  input = none;
}

abbrev pub decision : String → List Action → Decision
decision status acts = record {
  response = bytes "ok";
  status = status;
  actions = acts;
  memory_updates = [];
}
