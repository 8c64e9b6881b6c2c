-- ===== src/Tools/Execute/Repeated.antt =====
-- A second call of Executor.Execute, backend/internal/tool/executor.go, with the key of the first.
use open_agent_showcase.Common.{
  ℕ, String, none, some, List, [], ◌∷◌, ◌++◌, true, false, ==_refl, ok, ◌≡◌, refl, ap, ◌∙◌, arith,
  eq_refl,
}
use open_agent_showcase.Tools.{Tool, requires_approval}
use open_agent_showcase.Tools.Permit.{
  Execution, Store, Request, Setting, with_key, find_execution, authorize,
}
use open_agent_showcase.Tools.Execute.{
  new_row, create_tool_execution, after_request, after_checks, after_lookup, request_approval,
  execute_keyed, execute,
}
use open_agent_showcase.Tools.Execute.Keys.{has_key}

find_execution-none :
    (rows others : List Execution) (org : ℕ) (k : String)
    → has_key (rows ++ others) k ≡ false
    → find_execution rows org k ≡ none
find_execution-none [] others org k h = refl
find_execution-none (y ∷ rows) others org k h =
    ground (arith, find_execution-none rows others org k)

find_execution-snoc :
    (rows : List Execution) (x : Execution)
    → has_key rows x.key ≡ false
    → find_execution (rows ++ x ∷ []) x.org x.key ≡ some x
find_execution-snoc [] x h = rw (==_refl x.org, eq_refl x.key) refl
find_execution-snoc (y ∷ rows) x h = ground (arith, find_execution-snoc rows x)

create_tool_execution-new :
    (x : Execution) (rows : List Execution)
    → has_key rows x.key ≡ false
    → create_tool_execution x rows ≡ some (rows ++ x ∷ [])
unfolding create_tool_execution
create_tool_execution-new x rows h = rw h refl

-- The row that waits for an approval.
unfoldable waiting_row : Setting → Request → Tool → Execution
unfolding new_row
waiting_row set req t = new_row set req t "approval_required" (some set.approval_id)

request_approval-new :
    (set : Setting) (req : Request) (t : Tool) (st : Store)
    → has_key (st.executions ++ set.others) req.key ≡ false
    → ((request_approval set req t st).1 ≡ (some (waiting_row set req t), some "approval_required"))
      × ((request_approval set req t st).0.executions
          ≡ (st.executions ++ set.others) ++ waiting_row set req t ∷ [])
unfolding request_approval waiting_row new_row after_request
request_approval-new set req t st h =
    rw (create_tool_execution-new (waiting_row set req t) (st.executions ++ set.others) h)
      (refl, refl)

execute_keyed-new :
    (set : Setting) (req : Request) (t : Tool) (st : Store)
    → has_key (st.executions ++ set.others) req.key ≡ false
    → authorize set req st ≡ ok t
    → requires_approval t ≡ true
    → execute_keyed set req st ≡ request_approval set req t st
unfolding execute_keyed after_lookup after_checks
execute_keyed-new set req t st h f g =
    rw (find_execution-none st.executions set.others req.org req.key h, f, g) refl

execute_keyed-old :
    (set : Setting) (req : Request) (st : Store) (x : Execution)
    → find_execution st.executions req.org req.key ≡ some x
    → execute_keyed set req st ≡ (st, (some x, none))
unfolding execute_keyed after_lookup
execute_keyed-old set req st x h = rw h refl

-- The first call with a key, of a tool that needs an approval, answers approval_required. A second one
-- with the key then changes nothing, runs no check and returns the row that still waits, without an
-- error.
pub execute_again :
    (set set' : Setting) (req req' : Request) (st : Store) (t : Tool)
    → (with_key set' req').org ≡ (with_key set req).org
    → (with_key set' req').key ≡ (with_key set req).key
    → has_key (st.executions ++ set.others) (with_key set req).key ≡ false
    → authorize set (with_key set req) st ≡ ok t
    → requires_approval t ≡ true
    → let first = execute set req st in
      (x : Execution) × ((x.status ≡ "approval_required")
        × ((first.1 ≡ (some x, some "approval_required"))
            × (execute set' req' first.0 ≡ (first.0, (some x, none)))))
unfolding execute waiting_row new_row
execute_again set set' req req' st t o k h f g =
    let keyed = with_key set req in
    let x = waiting_row set keyed t in
    let e = execute_keyed-new set keyed t st h f g in
    let (answer, rows) = request_approval-new set keyed t st h in
    let found =
      ap (λ r. find_execution r keyed.org keyed.key) (ap (λ a. a.0.executions) e ∙ rows)
      ∙ find_execution-snoc (st.executions ++ set.others) x h in
    (
      x,
      (
        refl,
        (
          ap (λ a. a.1) e ∙ answer,
          execute_keyed-old set' (with_key set' req') (execute_keyed set keyed st).0 x (
              ap
                (λ n.
                  find_execution (execute_keyed set keyed st).0.executions n
                    (with_key set' req').key)
                o
              ∙ (ap (λ n. find_execution (execute_keyed set keyed st).0.executions keyed.org n) k
                  ∙ found)),
        ),
      ),
    )
