-- ===== src/Tests/Decisions.antt =====
-- Tests of the runtime's decisions.
use open_agent_showcase.Common.{
  none, some, [], ◌∷◌, Bool, true, false, ◌≡◌, ◌≢◌, refl, ◌↔◌, inl, inr, Bytes, bytes, All, has_str,
  to_lower, contains,
}
use mathlib.Core.List.Memᴰ
use open_agent_showcase.Runtime.Json.{end, field, text, get}
use open_agent_showcase.Runtime.Decision.{
  Action, Decision, MemoryUpdate, unset, half, valid_decision_statuses, runs_code, validate_action,
  check_actions, check_updates, check_code, validate_decision,
}
use open_agent_showcase.Runtime.Decision.Checks.{IsAllowed, IsStorable, validate_decision_iff}
use open_agent_showcase.Runtime.Memory.{normal_type, normal_scope, normalize_update}
use open_agent_showcase.Runtime.Gate.{Agent, gate}
use open_agent_showcase.Runtime.Gate.Refusals.{gate-stale}
use open_agent_showcase.Tests.Data.{row, action, decision}

abbrev any_uuid : Bytes → Bool
any_uuid s = true

abbrev posted : Decision
posted = decision "continue" (record (action "send_message") { body = bytes "hi" } ∷ [])

validate_decision_test : validate_decision any_uuid posted ≡ none
unfolding validate_decision check_actions validate_action check_updates check_code
validate_decision_test = refl

validate_decision_test_code :
    validate_decision any_uuid (
      decision "completed" (
        record (action "complete_task") { params = some (field "code" (text (bytes "x")) end) }
        ∷ []))
    ≡ some "code execution not allowed"
unfolding validate_decision check_actions validate_action check_updates check_code get
validate_decision_test_code = refl

validate_decision_iff_example : (validate_decision any_uuid posted ≡ none) ↔ (
    (has_str valid_decision_statuses posted.status ≡ true)
    × (All (IsAllowed any_uuid) posted.actions
        × (All (IsStorable any_uuid) posted.memory_updates
            × All (λ act. runs_code act.params ≡ false) posted.actions)))
validate_decision_iff_example = validate_decision_iff any_uuid posted

abbrev loose_update : MemoryUpdate
loose_update = record {
  content = bytes "x";
  memory_type = bytes "Project Notes";
  scope = bytes "team";
  importance = unset;
}

normalize_update_test : normalize_update loose_update ≡ record {
  content = bytes "x";
  memory_type = bytes "project";
  scope = bytes "agent";
  importance = half;
}
unfolding normalize_update normal_type normal_scope to_lower contains
normalize_update_test = refl

abbrev untyped : Action
untyped = record (action "") { tool = bytes "web_search" }

abbrev helper : Agent
helper = record { id = 3; autonomy = "assistant"; tools = [] }

abbrev ending : Decision
ending = decision "continue" (action "complete_task" ∷ [])

abbrev searching : Decision
searching = decision "continue" (record (action "call_tool") { tool = bytes "web_search" } ∷ [])

gate-stale_example : gate [] 1 helper (row 7 "assigned") ending 0 ≢ none
gate-stale_example =
    gate-stale [] 1 helper (row 7 "assigned") ending 0 (action "complete_task") (inr refl)
      (Memᴰ.head refl) (inl refl)
