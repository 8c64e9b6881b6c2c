-- ===== src/Tests/Tooling.antt =====
-- Tests of the tools.
use open_agent_showcase.Common.{
  ℕ, ◌⊎◌, contains, none, some, [], ◌∷◌, true, false, ok, err, ◌≡◌, ◌⊎◌, refl,
}
use open_agent_showcase.Tools.{
  text, array, object, stop, item, Fields, end, field, Tool, get, check_required, check_value,
  validate_input, needs_by_default, requires_approval,
}
use open_agent_showcase.Tools.Permit.{
  Execution, Grant, Store, Request, Setting, with_key, find_execution, is_allowed, is_in_project,
  is_limited, authorize,
}
use open_agent_showcase.Tools.Execute.{
  new_row, create_tool_execution, after_insertion, after_checks, after_lookup, is_browser,
  after_answer, after_profile, run_tool, start_tool, execute_keyed, execute,
}
use open_agent_showcase.Tools.Execute.Gated.{execute-calls}
use open_agent_showcase.Tools.Execute.Keys.{has_key}
use open_agent_showcase.Tools.Execute.Once.{is_known, execute_all, execute_all-once}
use open_agent_showcase.Tools.Execute.Repeated.{execute_again}
use open_agent_showcase.Tools.Approved.{
  recheck, is_still_in_project, after_run, unless_done, after_recheck, after_load, execute_approved,
}
use open_agent_showcase.Tools.Approved.Once.{execute_approved_all, execute_approved_once}

abbrev schema : Fields
schema = field "required" (array (item (text "query") stop)) (
    field "properties" (object (field "query" (object (field "type" (text "string") end)) end)) end)

abbrev search : Tool
search = record {
  id = 1;
  org = none;
  name = "web_search";
  schema = some schema;
  risk = "low";
  policy = none;
  enabled = true;
}

abbrev publish : Tool
publish = record {
  id = 2;
  org = some 9;
  name = "publish_social_post";
  schema = none;
  risk = "high";
  policy = none;
  enabled = true;
}

abbrev grant : Grant
grant = record { agent = 5; tool = 2; name = "publish_social_post"; enabled = false }

abbrev store : Store
store = record {
  tools = search ∷ publish ∷ [];
  grants = grant ∷ [];
  agents = record { id = 5; org = 9; capabilities = some ("research" ∷ []); tools = [] } ∷ [];
  tasks = [];
  project_agents = [];
  team_members = [];
  project_teams = [];
  budgets = [];
  approvals = [];
  executions = [];
  calls = [];
}

abbrev setting : Setting
setting = record {
  hash = λ req. "hash";
  print = λ v. "";
  now = 100;
  execution_id = 40;
  approval_id = 70;
  title = "Agent wants to publish";
  others = [];
  has_browser = false;
  profile_error = none;
  answer = ok end;
}

abbrev query : Fields
query = field "query" (text "antt") end

abbrev searching : Request
searching = record {
  org = 9;
  agent = 5;
  task = none;
  run = none;
  name = "web_search";
  input = query;
  key = "";
}

abbrev publishing : Request
publishing = record {
  org = 9;
  agent = 5;
  task = none;
  run = none;
  name = "publish_social_post";
  input = end;
  key = "k";
}

search_authorized : authorize setting (with_key setting searching) store ≡ ok search
unfolding with_key authorize is_allowed is_in_project is_limited validate_input check_required
    check_value get
search_authorized = refl

authorize_without_query :
    authorize setting (record searching { input = end }) store ≡ err "schema validation failed"
unfolding authorize is_allowed is_in_project is_limited validate_input check_required check_value
    get
authorize_without_query = refl

publish_authorized : authorize setting (with_key setting publishing) store ≡ ok publish
unfolding with_key authorize is_allowed is_in_project is_limited validate_input
publish_authorized = refl

publish_needs : requires_approval publish ≡ true
unfolding requires_approval needs_by_default
publish_needs = refl

execute-calls_example :
    let keyed = with_key setting searching in
    let after = (execute setting searching store).0 in
    (after.calls ≡ store.calls)
    ⊎ ((t : Tool) × ((find_execution store.executions keyed.org keyed.key ≡ none)
          × ((authorize setting keyed store ≡ ok t)
              × ((requires_approval t ≡ false)
                  × (after.calls ≡ setting.execution_id ∷ store.calls)))))
execute-calls_example = execute-calls setting searching store

searching_org : (with_key setting searching).org ≡ 9
unfolding with_key
searching_org = refl

execute_all-once_example :
    let key = (with_key setting searching).key in
    let after = execute_all ((setting, searching) ∷ (setting, searching) ∷ []) store in
    (after.calls ≡ store.calls)
    ⊎ ((id : ℕ) × (after.calls ≡ id ∷ store.calls) × (is_known after.executions 9 key ≡ true))
execute_all-once_example =
    execute_all-once 9 (with_key setting searching).key
      ((setting, searching) ∷ (setting, searching) ∷ []) store
      (searching_org, refl, (searching_org, refl, tt))

publishing_key :
    ((with_key setting publishing).org ≡ 9) × (has_key [] (with_key setting publishing).key ≡ false)
unfolding with_key
publishing_key = (refl, refl)

execute_again_example :
    let first = execute setting publishing store in
    (x : Execution) × ((x.status ≡ "approval_required")
      × ((first.1 ≡ (some x, some "approval_required"))
          × (execute setting publishing first.0 ≡ (first.0, (some x, none)))))
execute_again_example =
    execute_again setting setting publishing publishing store publish refl refl publishing_key.1
      publish_authorized publish_needs

abbrev waiting : Execution
waiting = record {
  id = 40;
  org = 9;
  agent = 5;
  task = none;
  run = none;
  tool = 2;
  tool_name = "publish_social_post";
  input = end;
  output = none;
  status = "approval_required";
  approval = some 70;
  key = "k";
  error = none;
  created_at = 100;
}

abbrev waiting_store : Store
waiting_store = record store { executions = waiting ∷ [] }

waiting_run :
    ((execute_approved setting 40 waiting_store).1.1 ≡ none)
    × ((execute_approved setting 40 waiting_store).0.calls ≡ 40 ∷ [])
unfolding execute_approved after_load recheck is_allowed validate_input is_still_in_project
    after_recheck unless_done after_run
waiting_run = (refl, refl)

execute_approved_once_example :
    let first = (execute_approved setting 40 waiting_store).0 in
    execute_approved_all (setting ∷ setting ∷ []) 40 first ≡ first
execute_approved_once_example =
    execute_approved_once setting (setting ∷ setting ∷ []) 40 waiting_store waiting_run.0

-- The grant is taken away and given back: the tool runs again.
execute_approved_test_revoked :
    let first = (execute_approved setting 40 waiting_store).0 in
    let revoked = (execute_approved setting 40 (record first { grants = [] })).0 in
    (execute_approved setting 40 (record revoked { grants = first.grants })).0.calls ≡ 40 ∷ 40 ∷ []
unfolding execute_approved after_load recheck is_allowed validate_input is_still_in_project
    after_recheck unless_done after_run
execute_approved_test_revoked = refl

execute_search : (execute setting searching store).0.calls ≡ 40 ∷ []
unfolding execute execute_keyed after_lookup after_checks requires_approval needs_by_default
    start_tool is_browser create_tool_execution after_insertion new_row run_tool after_profile
    after_answer contains with_key authorize is_allowed is_in_project is_limited validate_input
    check_required check_value get
execute_search = refl
