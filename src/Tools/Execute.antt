-- ===== src/Tools/Execute.antt =====
-- Executor.Execute, backend/internal/tool/executor.go, with CreateToolExecution and
-- UpdateToolExecutionStatus of repository/tool.go.
pub mod Gated
pub mod Keys
pub mod Repeated
pub mod Once
use open_agent_showcase.Common.{
  ℕ, zero, suc, ◌+◌, String, Option, none, some, List, [], ◌∷◌, ◌++◌, Bool, true, false, ◌||◌, ◌&&◌,
  not, ◌==◌, str_eq, if◌then◌else◌, is_some, any, Bytes, bytes, has_prefix, Result, ok, err,
}
use open_agent_showcase.Approval.{Approval, create}
use open_agent_showcase.Tools.{Fields, Tool, requires_approval}
use open_agent_showcase.Tools.Permit.{
  Execution, Store, Request, Setting, Answer, with_key, find_execution, authorize,
}

unfoldable pub new_row : Setting → Request → Tool → String → Option ℕ → Execution
new_row set req t status approval = record {
  id = set.execution_id;
  org = req.org;
  agent = req.agent;
  task = req.task;
  run = req.run;
  tool = t.id;
  tool_name = t.name;
  input = req.input;
  output = none;
  status = status;
  approval = approval;
  key = req.key;
  error = none;
  created_at = set.now;
}

abbrev pub with_others : Setting → Store → Store
with_others set st = record st { executions = st.executions ++ set.others }

-- CreateToolExecution: the column idempotency_key is unique in the whole table.
unfoldable pub create_tool_execution : Execution → List Execution → Option (List Execution)
create_tool_execution x rows =
    if any (λ (y : Execution). str_eq y.key x.key) rows then none else some (rows ++ x ∷ [])

-- UpdateToolExecutionStatus, on a row.
abbrev pub ended : String → Option Fields → Option String → Execution → Execution
ended status output error x = record x { status = status; output = output; error = error }

abbrev pub update_status : ℕ → (Execution → Execution) → List Execution → List Execution
update_status id f [] = []
update_status id f (x ∷ rows) = (if x.id == id then f x else x) ∷ update_status id f rows

unfoldable pub is_browser : Tool → Bool
is_browser t = has_prefix (bytes t.name) (bytes "browser.")

-- The call waits for an approval, which is there also where the row is refused.
unfoldable pub after_request :
    Setting → Execution → Store → Option (List Execution) → Store × Answer
after_request set row st none = (st, (none, some "duplicate key"))
after_request set row st (some rows) =
    (record st { executions = rows }, (some row, some "approval_required"))

unfoldable pub request_approval : Setting → Request → Tool → Store → Store × Answer
unfolding create_tool_execution new_row create after_request
request_approval set req t st =
    let st1 = with_others set st in
    let approvals =
      create set.now set.approval_id req.org set.title t.risk t.name 86400 st1.approvals in
    let row = new_row set req t "approval_required" (some set.approval_id) in
    after_request set row (record st1 { approvals = approvals })
      (create_tool_execution row st1.executions)

unfoldable pub after_answer : Execution → Store → Result Fields → Store × Answer
after_answer row st (ok out) = (
  record st {
    executions = update_status row.id (ended "succeeded" (some out) none) st.executions;
    calls = row.id ∷ st.calls;
  },
  (some (record row { status = "succeeded"; output = some out }), none),
)
after_answer row st (err e) = (
  record st {
    executions = update_status row.id (ended "failed" none (some e)) st.executions;
    calls = row.id ∷ st.calls;
  },
  (some (record row { status = "failed"; error = some e }), some e),
)

-- A browser may refuse the profile: the value returned still reads running.
unfoldable pub after_profile : Result Fields → Execution → Store → Option String → Store × Answer
unfolding after_answer
after_profile answer row st (some e) = (
  record st { executions = update_status row.id (ended "failed" none (some e)) st.executions },
  (some row, some e),
)
after_profile answer row st none = after_answer row st answer

-- The tool is run, after its row is there.
unfoldable pub run_tool : Setting → Tool → Execution → Store → Store × Answer
unfolding is_browser after_profile
run_tool set t row st =
    after_profile set.answer row st (if is_browser t then set.profile_error else none)

-- Where another call of the organization has inserted the key, its row is returned.
unfoldable pub existing : Store → Option Execution → Store × Answer
existing st (some x) = (st, (some x, none))
existing st none = (st, (none, some "duplicate key"))

unfoldable pub after_insertion :
    Setting → Request → Tool → Store → Option (List Execution) → Store × Answer
unfolding existing new_row run_tool
after_insertion set req t st none = existing st (find_execution st.executions req.org req.key)
after_insertion set req t st (some rows) =
    run_tool set t (new_row set req t "running" none) (record st { executions = rows })

unfoldable pub start_tool : Setting → Request → Tool → Store → Store × Answer
unfolding create_tool_execution new_row is_browser after_insertion
start_tool set req t st =
    if is_browser t && not set.has_browser
    then (st, (none, some "browser capability unavailable"))
    else let st1 = with_others set st in
      after_insertion set req t st1
        (create_tool_execution (new_row set req t "running" none) st1.executions)

unfoldable pub after_checks : Setting → Request → Store → Result Tool → Store × Answer
unfolding requires_approval request_approval start_tool
after_checks set req st (err e) = (st, (none, some e))
after_checks set req st (ok t) =
    if requires_approval t then request_approval set req t st else start_tool set req t st

unfoldable pub after_lookup : Setting → Request → Store → Option Execution → Store × Answer
unfolding authorize after_checks
after_lookup set req st (some x) = (st, (some x, none))
after_lookup set req st none = after_checks set req st (authorize set req st)

-- Execute once the key is there.
unfoldable pub execute_keyed : Setting → Request → Store → Store × Answer
unfolding after_lookup
execute_keyed set req st = after_lookup set req st (find_execution st.executions req.org req.key)

unfoldable pub execute : Setting → Request → Store → Store × Answer
unfolding with_key execute_keyed
execute set req st = execute_keyed set (with_key set req) st
