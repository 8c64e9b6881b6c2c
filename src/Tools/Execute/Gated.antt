-- ===== src/Tools/Execute/Gated.antt =====
-- When Executor.Execute of backend/internal/tool/executor.go runs a tool, and what a repeated key
-- comes to.
use open_agent_showcase.Common.{
  String, Option, none, some, List, ◌∷◌, false, ◌&&◌, not, Result, ok, err, ◌≡◌, refl, ◌⊎◌, inl,
  inr, Bool-cases,
}
use open_agent_showcase.Tools.{Fields, Tool, requires_approval}
use open_agent_showcase.Tools.Permit.{
  Execution, Store, Request, Setting, with_key, find_execution, authorize,
}
use open_agent_showcase.Tools.Execute.{
  new_row, with_others, after_request, existing, after_insertion, after_answer, after_profile,
  after_checks, after_lookup, is_browser, request_approval, run_tool, start_tool, execute_keyed,
  execute,
}

after_request-calls :
    (set : Setting) (row : Execution) (st : Store) (o : Option (List Execution))
    → (after_request set row st o).0.calls ≡ st.calls
unfolding after_request
after_request-calls set row st none = refl
after_request-calls set row st (some rows) = refl

pub request_approval-calls :
    (set : Setting) (req : Request) (t : Tool) (st : Store)
    → (request_approval set req t st).0.calls ≡ st.calls
unfolding request_approval
request_approval-calls set req t st = after_request-calls set _ _ _

after_answer-calls :
    (row : Execution) (st : Store) (r : Result Fields)
    → (after_answer row st r).0.calls ≡ row.id ∷ st.calls
unfolding after_answer
after_answer-calls row st (ok out) = refl
after_answer-calls row st (err e) = refl

after_profile-calls :
    (answer : Result Fields) (row : Execution) (st : Store) (o : Option String)
    → ((after_profile answer row st o).0.calls ≡ st.calls)
      ⊎ ((after_profile answer row st o).0.calls ≡ row.id ∷ st.calls)
unfolding after_profile
after_profile-calls answer row st (some e) = inl refl
after_profile-calls answer row st none = inr (after_answer-calls row st answer)

run_tool-calls :
    (set : Setting) (t : Tool) (row : Execution) (st : Store)
    → ((run_tool set t row st).0.calls ≡ st.calls)
      ⊎ ((run_tool set t row st).0.calls ≡ row.id ∷ st.calls)
unfolding run_tool
run_tool-calls set t row st = after_profile-calls set.answer row st _

pub existing-calls : (st : Store) (o : Option Execution) → (existing st o).0.calls ≡ st.calls
unfolding existing
existing-calls st (some x) = refl
existing-calls st none = refl

after_insertion-calls :
    (set : Setting) (req : Request) (t : Tool) (st : Store) (o : Option (List Execution))
    → ((after_insertion set req t st o).0.calls ≡ st.calls)
      ⊎ ((after_insertion set req t st o).0.calls ≡ set.execution_id ∷ st.calls)
unfolding after_insertion new_row
after_insertion-calls set req t st none =
    inl (existing-calls st (find_execution st.executions req.org req.key))
after_insertion-calls set req t st (some rows) =
    run_tool-calls set t (new_row set req t "running" none) (record st { executions = rows })

start_tool-calls :
    (set : Setting) (req : Request) (t : Tool) (st : Store)
    → ((start_tool set req t st).0.calls ≡ st.calls)
      ⊎ ((start_tool set req t st).0.calls ≡ set.execution_id ∷ st.calls)
unfolding start_tool
start_tool-calls set req t st = elim (Bool-cases (is_browser t && not set.has_browser)) [
  | inl e ↦ inl (rw e refl)
  | inr e ↦ rw e (after_insertion-calls set req t (with_others set st) _)
]

-- The tool of a call is run, at most once, and only where the key is new, the checks pass and the
-- tool needs no approval.
abbrev IsRun : Setting → Request → Store → Store → Type 0
IsRun set req st after =
    (t : Tool) × ((find_execution st.executions req.org req.key ≡ none)
      × ((authorize set req st ≡ ok t)
          × ((requires_approval t ≡ false) × (after.calls ≡ set.execution_id ∷ st.calls))))

after_checks-calls :
    (set : Setting) (req : Request) (st : Store) (r : Result Tool)
    → authorize set req st ≡ r
    → find_execution st.executions req.org req.key ≡ none
    → ((after_checks set req st r).0.calls ≡ st.calls)
      ⊎ IsRun set req st (after_checks set req st r).0
unfolding after_checks
after_checks-calls set req st (err e) f g = inl refl
after_checks-calls set req st (ok t) f g = elim (Bool-cases (requires_approval t)) [
  | inl h ↦ inl (rw h (request_approval-calls set req t st))
  | inr h ↦ elim (start_tool-calls set req t st) [
    | inl i ↦ inl (rw h i)
    | inr i ↦ inr (t, (g, (f, (h, rw h i))))
  ]
]

after_lookup-calls :
    (set : Setting) (req : Request) (st : Store) (o : Option Execution)
    → find_execution st.executions req.org req.key ≡ o
    → ((after_lookup set req st o).0.calls ≡ st.calls)
      ⊎ IsRun set req st (after_lookup set req st o).0
unfolding after_lookup
after_lookup-calls set req st (some x) e = inl refl
after_lookup-calls set req st none e = after_checks-calls set req st (authorize set req st) refl e

-- Execute runs a tool at most once, and only where no execution of the organization has the key, all
-- checks pass and the tool needs no approval.
pub execute-calls :
    (set : Setting) (req : Request) (st : Store)
    → let keyed = with_key set req in
      let after = (execute set req st).0 in
      (after.calls ≡ st.calls)
      ⊎ ((t : Tool) × ((find_execution st.executions keyed.org keyed.key ≡ none)
            × ((authorize set keyed st ≡ ok t)
                × ((requires_approval t ≡ false) × (after.calls ≡ set.execution_id ∷ st.calls)))))
unfolding execute execute_keyed
execute-calls set req st = after_lookup-calls set (with_key set req) st _ refl
