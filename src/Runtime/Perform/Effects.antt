-- ===== src/Runtime/Perform/Effects.antt =====
-- What executing a decision's actions does to the task store.
use open_agent_showcase.Common.{
  ℕ, suc, String, Option, none, some, List, [], ◌∷◌, Bool, true, false, ◌||◌, str_eq, if◌then◌else◌,
  Bytes, has, ◌≡◌, refl, arith, ◌⊎◌,
}
use open_agent_showcase.Task.Update.Terminal.{assign_task-not_user}
use open_agent_showcase.Runtime.Decision.{Action}
use open_agent_showcase.Runtime.Perform.{
  Setting, Work, Answer, perform_create, delegate_to, perform_delegate, perform_tool,
  perform_action, perform_actions,
}

delegate_to-db :
    (s : Setting) (w : Work) (tid aid : Option ℕ) (ans : Answer)
    → has w.db.users s.agent ≡ false
    → (delegate_to s w tid aid ans).db ≡ w.db
unfolding delegate_to
delegate_to-db s w none aid ans h = refl
delegate_to-db s w (some t) none ans h = refl
delegate_to-db s w (some t) (some dest) ans h =
    ground (arith, assign_task-not_user ans.refused w.db s.org t (some dest) none s.agent h)

-- The action delegate_task gives the agent as the assigner, a column that refers to users: where no
-- user has the agent's identifier, it changes no row.
perform_delegate-db :
    (s : Setting) (w : Work) (act : Action) (ans : Answer)
    → has w.db.users s.agent ≡ false
    → (perform_delegate s w act ans).db ≡ w.db
unfolding perform_delegate
perform_delegate-db s w act ans h = delegate_to-db s w _ _ ans h

-- The errors with which the loop may end, and the decision's status then.
unfoldable pub IsStop : Work × Option String → Type 0
IsStop r =
    (e : String)
    → r.1 ≡ some e
    → ((e ≡ "approval_required") × (r.0.status ≡ "approval_required")) ⊎ (e ≡ "no eligible agent")

going-IsStop : (w : Work) → IsStop (w, none)
unfolding IsStop
going-IsStop w e h = absurd (cc h)

if-IsStop :
    (b : Bool) (x y : Work × Option String) → IsStop x → IsStop y → IsStop (if b then x else y)
if-IsStop true x y hx hy = hx
if-IsStop false x y hx hy = hy

perform_create-IsStop :
    (s : Setting) (response : Bytes) (w : Work) (act : Action) (ans : Answer)
    → IsStop (perform_create s response w act ans)
unfolding perform_create IsStop
perform_create-IsStop s response w act ans e h = ground arith

perform_tool-IsStop : (s : Setting) (w : Work) (ans : Answer) → IsStop (perform_tool s w ans)
unfolding perform_tool IsStop
perform_tool-IsStop s w ans e h = ground arith

perform_action-IsStop :
    (s : Setting) (response : Bytes) (w : Work) (act : Action) (ans : Answer)
    → IsStop (perform_action s response w act ans)
unfolding perform_action
perform_action-IsStop s response w act ans =
    if-IsStop (str_eq act.kind "send_message") _ _ (going-IsStop _) (
      if-IsStop (str_eq act.kind "create_task") _ _ (perform_create-IsStop s response w act ans) (
        if-IsStop (str_eq act.kind "delegate_task") _ _ (going-IsStop _) (
          if-IsStop (str_eq act.kind "call_tool") _ _ (perform_tool-IsStop s w ans) (
            if-IsStop (str_eq act.kind "request_approval" || str_eq act.kind "request_human_input")
              _ _ (going-IsStop _)
              (if-IsStop (str_eq act.kind "update_task") _ _ (going-IsStop _) (
                if-IsStop (str_eq act.kind "complete_task") _ _ (going-IsStop _) (
                  if-IsStop (str_eq act.kind "fail_task") _ _ (going-IsStop _) (
                    if-IsStop (str_eq act.kind "store_memory") _ _ (going-IsStop _)
                      (going-IsStop _)))))))))

pub perform_actions-IsStop :
    (s : Setting) (response : Bytes) (answers : ℕ → Answer) (i : ℕ) (w : Work) (acts : List Action)
    → IsStop (perform_actions s response answers i w acts)
unfolding perform_actions
perform_actions-IsStop s response answers i w [] = going-IsStop w
perform_actions-IsStop s response answers i w (act ∷ acts) =
    go (perform_action s response w act (answers i))
      (perform_action-IsStop s response w act (answers i))
      (λ w'. perform_actions-IsStop s response answers (suc i) w' acts)
  where
    go :
        (r : Work × Option String)
        → IsStop r
        → ((w' : Work) → IsStop (perform_actions s response answers (suc i) w' acts))
        → IsStop (elim r.1 [
          | some e ↦ (r.0, some e)
          | none ↦ perform_actions s response answers (suc i) r.0 acts
        ])
    go (w', some e) h rest = h
    go (w', none) h rest = rest w'

-- The loop ends with an error only where a tool call waits for an approval, and then the decision's
-- status is `approval_required`, or where no agent is eligible for a new task.
perform_actions-error :
    (s : Setting) (response : Bytes) (answers : ℕ → Answer) (i : ℕ) (w : Work) (acts : List Action)
    (e : String)
    → (perform_actions s response answers i w acts).1 ≡ some e
    → ((e ≡ "approval_required")
        × ((perform_actions s response answers i w acts).0.status ≡ "approval_required"))
      ⊎ (e ≡ "no eligible agent")
unfolding IsStop
perform_actions-error s response answers i w acts e h =
    perform_actions-IsStop s response answers i w acts e h
