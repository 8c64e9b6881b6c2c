-- ===== src/Runtime/Execute/Budget.antt =====
-- The number of tool calls of an execution, backend/internal/runtime/runtime.go.
use open_agent_showcase.Common.{
  ℕ, zero, suc, ◌+◌, ◌-◌, ◌≤◌, String, Option, none, some, List, [], ◌∷◌, ◌++◌, Bool, true, false,
  Bool-cases, inl, inr, ◌||◌, not, if◌then◌else◌, str_eq, length, length-append, ap, ◌∙◌, is_err,
  Bytes, Result, ok, err, take, length-keep-le, length-take-le, subst, ◌≡◌, refl, arith,
}
use open_agent_showcase.Task.{Task, Db, get_task}
use open_agent_showcase.Task.Status.{valid_task_statuses}
use open_agent_showcase.Runtime.Json.{is_empty, or_empty, param_text}
use open_agent_showcase.Runtime.Repair.{named_kind}
use open_agent_showcase.Task.Update.{create_task, assign_task}
use open_agent_showcase.Runtime.Decision.{Action, Decision}
use open_agent_showcase.Runtime.Gate.{Tool, Agent, max_tool_calls, count_tool_calls, gate}
use open_agent_showcase.Runtime.Gate.Refusals.{gate-budget}
use open_agent_showcase.Runtime.Perform.{
  Setting, Work, Answer, Output, Pick, no_eligible, assignee, note, after_create,
  is_refused_assignee, new_subtask, perform_create, delegate_to, perform_delegate, move_task,
  perform_update, perform_end, perform_tool, perform_action, perform_actions,
}
use open_agent_showcase.Runtime.Execute.{
  Turn, Execution, State, tool_outputs, set_run, previous_outputs, decide, ends, is_provider_error,
  set_task, conclude, after_actions, act_on, step, iterate, execute_task, max_iterations,
  queued_run,
}

pub previous_outputs-le :
    (resumed : Bool) (rows : List Execution) → previous_outputs resumed rows ≤ 5
unfolding previous_outputs
previous_outputs-le false rows = omega arith
previous_outputs-le true rows = omega (arith, length-keep-le _ (take 5 rows), length-take-le 5 rows)

-- How many tools the entries of outputs are of.
abbrev tools_in : List Output → ℕ
tools_in os = length (tool_outputs os)

tools_in-append : (os ps : List Output) → tools_in (os ++ ps) ≡ tools_in os + tools_in ps
tools_in-append [] ps = omega arith
tools_in-append (o ∷ os) ps = ground (arith, tools_in-append os ps)

abbrev is_tool : String → ℕ
is_tool kind = if str_eq kind "call_tool" then 1 else 0

-- The result has at most `n` more entries of tools.
Adds : ℕ → Work → Work → Type 0
Adds n w v = tools_in v.outputs ≤ tools_in w.outputs + n

abbrev entry : String → Bool → Output
entry action e = record { action = action; is_error = e }

entry-tools :
    (os : List Output) (action : String) (e : Bool)
    → tools_in (os ++ entry action e ∷ []) ≡ tools_in os + is_tool action
entry-tools os action e =
    tools_in-append os (entry action e ∷ [])
    ∙ ap {B = ℕ} (λ (n : ℕ). tools_in os + n) (single (entry action e) (str_eq action "call_tool"))
  where
    single :
        (o : Output) (b : Bool)
        → length {A = Output} (if b then o ∷ [] else []) ≡ (if b then 1 else 0)
    single o true = refl
    single o false = refl

-- The same of the result of an action.
AddsBy : ℕ → Work → Work × Option String → Type 0
unfolding Adds
AddsBy n w r = Adds n w r.0

if-AddsBy :
    (n : ℕ) (w : Work) (b : Bool) (x y : Work × Option String)
    → (b ≡ true → AddsBy n w x)
    → AddsBy n w y
    → AddsBy n w (if b then x else y)
if-AddsBy n w true x y hx hy = hx refl
if-AddsBy n w false x y hx hy = hy

going-AddsBy : (n : ℕ) (w v : Work) → Adds n w v → AddsBy n w (v, none)
unfolding AddsBy
going-AddsBy n w v h = h

more-AddsBy : (n : ℕ) (w v : Work) → Adds 0 w v → AddsBy n w (v, none)
unfolding AddsBy Adds
more-AddsBy n w v h = omega (arith, h)

more-result : (n : ℕ) (w : Work) (r : Work × Option String) → Adds 0 w r.0 → AddsBy n w r
unfolding AddsBy Adds
more-result n w r h = omega (arith, h)

note-Adds :
    (w v : Work) (action : String) (e : Bool)
    → v.outputs ≡ w.outputs
    → Adds (is_tool action) w (note v action e)
unfolding Adds
note-Adds w v action e h =
    subst
      (λ os.
        tools_in (v.outputs ++ record { action = action; is_error = e } ∷ [])
        ≤ tools_in os + is_tool action)
      h (omega (arith, entry-tools v.outputs action e))

-- An action that is left out where it has no text.
unless-Adds :
    (b : Bool) (w : Work) (action : String) (e : Bool)
    → is_tool action ≡ 0
    → Adds 0 w (if b then w else note w action e)
unfolding Adds
unless-Adds true w action e h = omega arith
unless-Adds false w action e h = omega (arith, h, entry-tools w.outputs action e)

delegate_to-Adds :
    (s : Setting) (w : Work) (t a : Option ℕ) (ans : Answer) → Adds 0 w (delegate_to s w t a ans)
unfolding Adds delegate_to
delegate_to-Adds s w none a ans = omega (arith, entry-tools w.outputs "delegate_task" true)
delegate_to-Adds s w (some t) none ans = omega (arith, entry-tools w.outputs "delegate_task" true)
delegate_to-Adds s w (some t) (some a) ans =
    let r = assign_task ans.refused w.db s.org t (some a) none s.agent in
    ground (
      arith,
      entry-tools w.outputs "delegate_task" true,
      entry-tools w.outputs "delegate_task" (is_err r.1),
    )

perform_create-Adds :
    (s : Setting) (response : Bytes) (w : Work) (act : Action) (ans : Answer)
    → Adds 0 w (perform_create s response w act ans).0
unfolding Adds perform_create
perform_create-Adds s response w act ans = go ans.pick
  where
    go :
        (p : Pick)
        → Adds 0 w
            (elim p as (λ p. Work × Option String) [
              | no_eligible ↦ (w, some "no eligible agent")
              | assignee dest ↦
                  if is_refused_assignee s w dest
                  then (note w "create_task" true, none)
                  else let r =
                      create_task ans.refused w.db
                        (new_subtask s response act ans.new_id dest w.task) in
                    (after_create s w ans.new_id dest r.0 (is_err r.1), none)
            ]).0
    go no_eligible = omega arith
    go (assignee dest) =
        let r = create_task ans.refused w.db (new_subtask s response act ans.new_id dest w.task) in
        ground (
          arith,
          entry-tools w.outputs "create_task" true,
          entry-tools w.outputs "create_task" false,
        )

move_task-Adds :
    (s : Setting) (w : Work) (action status : String) (ans : Answer)
    → is_tool action ≡ 0
    → Adds 0 w (move_task s w action status ans).0
unfolding Adds move_task
move_task-Adds s w action status ans h =
    ground (arith, h, entry-tools w.outputs action true, entry-tools w.outputs action false)

perform_end-Adds :
    (s : Setting) (w : Work) (action status : String) (ans : Answer)
    → is_tool action ≡ 0
    → Adds 0 w (perform_end s w action status ans)
unfolding Adds perform_end
perform_end-Adds s w action status ans h = ground (arith, move_task-Adds s w action status ans h)

perform_update-Adds :
    (s : Setting) (w : Work) (act : Action) (ans : Answer) → Adds 0 w (perform_update s w act ans)
unfolding Adds
perform_update-Adds s w act ans =
    let given = or_empty (param_text act.params "status") in
    go (is_empty given) (named_kind valid_task_statuses given)
  where
    go :
        (b : Bool) (o : Option String)
        → Adds 0 w (
            if b then note w "update_task" false else elim o as (λ o. Work) [
              | none ↦ note w "update_task" true
              | some status ↦ (move_task s w "update_task" status ans).0
            ])
    go true o = omega (arith, entry-tools w.outputs "update_task" false)
    go false none = omega (arith, entry-tools w.outputs "update_task" true)
    go false (some status) = move_task-Adds s w "update_task" status ans refl

perform_tool-Adds : (s : Setting) (w : Work) (ans : Answer) → Adds 1 w (perform_tool s w ans).0
unfolding Adds perform_tool
perform_tool-Adds s w ans =
    ground (arith, entry-tools w.outputs "call_tool" true, entry-tools w.outputs "call_tool" false)

perform_tool-AddsBy :
    (s : Setting) (w : Work) (act : Action) (ans : Answer)
    → str_eq act.kind "call_tool" ≡ true
    → AddsBy (is_tool act.kind) w (perform_tool s w ans)
unfolding AddsBy
perform_tool-AddsBy s w act ans e = rw e (perform_tool-Adds s w ans)

parked-AddsBy :
    (w : Work) (act : Action)
    → AddsBy
        (is_tool act.kind)
        w
        (record (note w act.kind false) { status = "approval_required" }, none)
unfolding AddsBy Adds
parked-AddsBy w act = note-Adds w w act.kind false refl

-- An action leaves at most one entry of a tool, and that only if it calls one.
perform_action-tools :
    (s : Setting) (response : Bytes) (w : Work) (act : Action) (ans : Answer)
    → AddsBy (is_tool act.kind) w (perform_action s response w act ans)
unfolding perform_action perform_delegate
perform_action-tools s response w act ans =
    let n = is_tool act.kind in
    if-AddsBy n w (str_eq act.kind "send_message") _ _
      (λ _. more-AddsBy n w _ (unless-Adds _ w "send_message" false refl))
      (if-AddsBy n w (str_eq act.kind "create_task") _ _
        (λ _. more-result n w _ (perform_create-Adds s response w act ans))
        (if-AddsBy n w (str_eq act.kind "delegate_task") _ _
          (λ _. more-AddsBy n w _ (delegate_to-Adds s w _ _ ans))
          (if-AddsBy n w (str_eq act.kind "call_tool") _ _ (perform_tool-AddsBy s w act ans) (
            if-AddsBy n w
              (str_eq act.kind "request_approval" || str_eq act.kind "request_human_input") _ _
              (λ _. parked-AddsBy w act)
              (if-AddsBy n w (str_eq act.kind "update_task") _ _
                (λ _. more-AddsBy n w _ (perform_update-Adds s w act ans))
                (if-AddsBy n w (str_eq act.kind "complete_task") _ _
                  (λ _.
                    more-AddsBy n w _ (perform_end-Adds s w "complete_task" "completed" ans refl))
                  (if-AddsBy n w (str_eq act.kind "fail_task") _ _
                    (λ _. more-AddsBy n w _ (perform_end-Adds s w "fail_task" "failed" ans refl))
                    (if-AddsBy n w (str_eq act.kind "store_memory") _ _
                      (λ _.
                        more-AddsBy n w _ (unless-Adds _ w "store_memory" (not ans.stored) refl))
                      (going-AddsBy n w _ (note-Adds w w act.kind true refl))))))))))

of_AddsBy :
    (n : ℕ) (w : Work) (r : Work × Option String)
    → AddsBy n w r
    → tools_in r.0.outputs ≤ tools_in w.outputs + n
unfolding AddsBy Adds
of_AddsBy n w r h = h

perform_actions-tools :
    (s : Setting) (response : Bytes) (answers : ℕ → Answer) (i : ℕ) (w : Work) (acts : List Action)
    → tools_in (perform_actions s response answers i w acts).0.outputs
      ≤ tools_in w.outputs + count_tool_calls acts
unfolding perform_actions count_tool_calls
perform_actions-tools s response answers i w [] = omega arith
perform_actions-tools s response answers i w (act ∷ acts) =
    go (perform_action s response w act (answers i))
      (of_AddsBy (is_tool act.kind) w _ (perform_action-tools s response w act (answers i)))
      (λ v. perform_actions-tools s response answers (suc i) v acts)
  where
    go :
        (r : Work × Option String)
        → tools_in r.0.outputs ≤ tools_in w.outputs + (if str_eq act.kind "call_tool" then 1 else 0)
        → ((v : Work)
            → tools_in (perform_actions s response answers (suc i) v acts).0.outputs
              ≤ tools_in v.outputs + count_tool_calls acts)
        → tools_in
            (elim r.1 as (λ o. Work × Option String) [
              | some e ↦ (r.0, some e)
              | none ↦ perform_actions s response answers (suc i) r.0 acts
            ]).0.outputs
          ≤ tools_in w.outputs
            + (if str_eq act.kind "call_tool"
                then suc (count_tool_calls acts)
                else count_tool_calls acts)
    go (v, some e) first rest = ground (arith, first)
    go (v, none) first rest = ground (arith, first, rest v)

-- The calls that were made, with the `before` of the run that is resumed.
abbrev made : ℕ → State → ℕ
made before st = length st.called + before

-- They are counted, and at most ten.
abbrev Spent : ℕ → State → Type 0
Spent before st = (made before st ≤ st.calls) × (st.calls ≤ max_tool_calls)

-- Where the execution ends not all need be counted, but they are at most ten.
abbrev SpentEnd : ℕ → State → Type 0
SpentEnd before st = (made before st ≤ max_tool_calls) × (st.calls ≤ max_tool_calls)

abbrev SpentOr : ℕ → State × Option (Result (Unit {0})) → Type 0
SpentOr before (st, none) = Spent before st
SpentOr before (st, some answer) = SpentEnd before st

module _ (s : Setting) (before : ℕ) where
  conclude-Spent :
      (refused : ℕ → Bool) (status : String) (st : State)
      → Spent before st
      → SpentOr before (conclude s refused status st)
  unfolding conclude set_task
  conclude-Spent refused status st h = ground (arith, h)

  after_actions-Spent :
      (refused : ℕ → Bool) (i : ℕ) (d : Decision) (r : Work × Option String) (st : State)
      → Spent before st
      → tools_in r.0.outputs ≤ count_tool_calls d.actions
      → st.calls + count_tool_calls d.actions ≤ max_tool_calls
      → SpentOr before (after_actions s refused i d r st)
  unfolding after_actions set_task
  after_actions-Spent refused i d (w, some e) st h made bound =
      ground (arith, h, made, bound, length-append st.called (tool_outputs w.outputs))
  after_actions-Spent refused i d (w, none) st h made bound =
      conclude-Spent refused w.status _
        (omega (arith, h, made, bound, length-append st.called (tool_outputs w.outputs)), bound)

module _ (s : Setting) (before : ℕ) (tools : List Tool) (agent : Agent) where
  act_on-Spent :
      (turn : Turn) (i : ℕ) (d : Decision) (st : State)
      → Spent before st
      → SpentOr before (act_on s tools agent turn i d st)
  unfolding act_on set_task
  act_on-Spent turn i d st h =
      go (gate tools s.org agent st.task d st.calls)
        (gate-budget tools s.org agent st.task d st.calls)
    where
      go :
          (o : Option String)
          → (o ≡ none → st.calls + count_tool_calls d.actions ≤ max_tool_calls)
          → SpentOr before (elim o as (λ o. State × Option (Result (Unit {0}))) [
            | some e ↦ ends s turn.refused "failed" "failed" none (err e) st
            | none ↦
                after_actions s turn.refused i d
                  (perform_actions s d.response turn.answers 0
                    (record {
                      db = st.db;
                      task = st.task;
                      status = d.status;
                      outputs = [];
                      jobs = [];
                    })
                    d.actions)
                  st
          ])
      go (some e) bound = (omega (arith, h), h.1)
      go none bound =
          let start : Work = record {
            db = st.db;
            task = st.task;
            status = d.status;
            outputs = [];
            jobs = [];
          } in
          after_actions-Spent s before turn.refused i d
            (perform_actions s d.response turn.answers 0 start d.actions) st h
            (omega (arith, perform_actions-tools s d.response turn.answers 0 start d.actions))
            (bound refl)

abbrev EndsSpent : ℕ → Option (State × Result (Unit {0})) → Type 0
EndsSpent before none = Unit
EndsSpent before (some r) = SpentEnd before r.0

module _ (is_uuid : Bytes → Bool) (s : Setting) (before : ℕ) (tools : List Tool)
    (agent : Agent) where
  step-Spent :
      (turn : Turn) (i : ℕ) (st : State)
      → Spent before st
      → SpentOr before (step is_uuid s tools agent turn i st)
  unfolding step set_task
  step-Spent turn i st h = go (decide is_uuid turn.replies)
    where
      go :
          (r : Result Decision)
          → SpentOr before (
              if turn.cancelled
              then (set_run "cancelled" none st, some (err "context canceled"))
              else if is_provider_error (turn.replies 0)
              then ends s turn.refused "failed" "failed" (some "provider") (err "provider") st
              else elim r [
                | err e ↦ ends s turn.refused "failed" "failed" (some e) (err e) st
                | ok d ↦ act_on s tools agent turn i d st
              ])
      go (ok d) = elim (Bool-cases turn.cancelled) [
        | inl c ↦ rw c (omega (arith, h), h.1)
        | inr c ↦ elim (Bool-cases (is_provider_error (turn.replies 0))) [
          | inl e ↦ rw (c, e) (omega (arith, h), h.1)
          | inr e ↦ simp (c, e) (act_on-Spent s before tools agent turn i d st h)
        ]
      ]
      go (err e) = ground (arith, h)

  iterate-Spent :
      (turns : ℕ → Turn) (left : ℕ) (st : State)
      → Spent before st
      → SpentEnd before (iterate is_uuid s tools agent turns left st).0
  unfolding iterate set_task
  iterate-Spent turns zero st h = (omega (arith, h), h.1)
  iterate-Spent turns (suc left) st h =
      go (step is_uuid s tools agent (turns (suc left)) (max_iterations - left) st)
        (step-Spent (turns (suc left)) (max_iterations - left) st h)
        (λ st' h'. iterate-Spent turns left st' h')
    where
      go :
          (r : State × Option (Result (Unit {0})))
          → SpentOr before r
          → ((st' : State)
              → Spent before st'
              → SpentEnd before (iterate is_uuid s tools agent turns left st').0)
          → SpentEnd before
              (elim r.1 as (λ o. State × Result (Unit {0})) [
                | some answer ↦ (r.0, answer)
                | none ↦ iterate is_uuid s tools agent turns left r.0
              ]).0
      go (st', some answer) bound rest = bound
      go (st', none) bound rest = rest st' bound

module _ (is_uuid : Bytes → Bool) (s : Setting) (tools : List Tool) (agent : Agent) where
  -- An execution calls tools at most 10 times, where the results of the run that it resumes count as
  -- calls as well; and toolCallCount is at most 10 in the end, so that the test for too many calls after
  -- the actions never finds any.
  pub execute_task-calls :
      (turns : ℕ → Turn) (refused : ℕ → Bool) (resumed : Bool) (rows : List Execution) (db : Db)
      (id : ℕ) (st : State) (answer : Result (Unit {0}))
      → execute_task is_uuid s tools agent turns refused resumed rows db id ≡ some (st, answer)
      → (length st.called + previous_outputs resumed rows ≤ max_tool_calls)
        × (st.calls ≤ max_tool_calls)
  unfolding execute_task set_task
  execute_task-calls turns refused resumed rows db id st answer h = go (get_task db s.org id) h
    where
      go :
          (o : Option Task)
          → (elim o as (λ o. Option (State × Result (Unit {0}))) [
            | none ↦ none
            | some task ↦ some (
                iterate is_uuid s tools agent turns max_iterations (
                  set_task s refused "running" (
                    set_run "running" none (record {
                      db = db;
                      task = task;
                      run = queued_run;
                      calls = previous_outputs resumed rows;
                      called = [];
                      jobs = [];
                    }))))
          ])
            ≡ some (st, answer)
          → SpentEnd (previous_outputs resumed rows) st
      go none e = absurd (cc e)
      go (some task) e =
          let bound : previous_outputs resumed rows ≤ 10 =
            omega (arith, previous_outputs-le resumed rows) in
          subst (EndsSpent (previous_outputs resumed rows)) e (
            iterate-Spent is_uuid s (previous_outputs resumed rows) tools agent turns max_iterations
              _ (omega arith, bound))
