-- ===== src/Tools/Execute/Once.antt =====
-- How often the calls of Executor.Execute with one key, backend/internal/tool/executor.go, run a tool.
use open_agent_showcase.Common.{
  ℕ, ◌==◌, ==_refl, String, Option, none, some, List, [], ◌∷◌, ◌++◌, Bool, true, ◌&&◌, not, str_eq,
  eq_refl, any, Result, ok, err, ◌≡◌, refl, sym, ap, ◌∙◌, subst, ◌⊎◌, inl, inr, arith, Bool-cases,
}
use open_agent_showcase.Tools.{Fields, Tool, requires_approval}
use open_agent_showcase.Tools.Permit.{
  Execution, Store, Request, Setting, with_key, find_execution, authorize,
}
use open_agent_showcase.Tools.Execute.{
  new_row, with_others, create_tool_execution, after_insertion, after_answer, after_profile,
  after_checks, after_lookup, ended, update_status, is_browser, run_tool, start_tool, execute_keyed,
  execute,
}
use open_agent_showcase.Tools.Execute.Gated.{request_approval-calls, existing-calls, execute-calls}

-- Whether the organization has an execution with the key.
abbrev pub is_known : List Execution → ℕ → String → Bool
is_known rows org key = any (λ (x : Execution). x.org == org && str_eq x.key key) rows

is_known-update :
    (id : ℕ) (status : String) (out : Option Fields) (e : Option String) (rows : List Execution)
    (org : ℕ) (key : String)
    → is_known (update_status id (ended status out e) rows) org key ≡ is_known rows org key
is_known-update id status out e [] org key = refl
is_known-update id status out e (x ∷ rows) org key =
    ground (arith, is_known-update id status out e rows org key)

is_known-snoc :
    (rows : List Execution) (x : Execution) → is_known (rows ++ x ∷ []) x.org x.key ≡ true
is_known-snoc [] x = rw (==_refl x.org, eq_refl x.key) refl
is_known-snoc (y ∷ rows) x = ground (arith, is_known-snoc rows x)

is_known-found :
    (rows : List Execution) (org : ℕ) (key : String)
    → is_known rows org key ≡ true
    → (x : Execution) × (find_execution rows org key ≡ some x)
is_known-found [] org key h = absurd (cc h)
is_known-found (y ∷ rows) org key h = elim (Bool-cases (y.org == org && str_eq y.key key)) [
  | inl e ↦ (y, rw e refl)
  | inr e ↦ let (x, f) = is_known-found rows org key (rw e at h) in (x, rw e f)
]

after_answer-is_known :
    (row : Execution) (st : Store) (r : Result Fields) (org : ℕ) (key : String)
    → is_known st.executions org key ≡ true
    → is_known (after_answer row st r).0.executions org key ≡ true
unfolding after_answer
after_answer-is_known row st (ok out) org key h =
    is_known-update row.id _ _ _ st.executions org key ∙ h
after_answer-is_known row st (err e) org key h =
    is_known-update row.id _ _ _ st.executions org key ∙ h

after_profile-is_known :
    (answer : Result Fields) (row : Execution) (st : Store) (o : Option String) (org : ℕ)
    (key : String)
    → is_known st.executions org key ≡ true
    → is_known (after_profile answer row st o).0.executions org key ≡ true
unfolding after_profile
after_profile-is_known answer row st (some e) org key h =
    is_known-update row.id _ _ _ st.executions org key ∙ h
after_profile-is_known answer row st none org key h = after_answer-is_known row st answer org key h

create_tool_execution-is_known :
    (x : Execution) (rows after : List Execution)
    → create_tool_execution x rows ≡ some after
    → is_known after x.org x.key ≡ true
unfolding create_tool_execution
create_tool_execution-is_known x rows after h =
    elim (Bool-cases (any (λ (y : Execution). str_eq y.key x.key) rows)) [
      | inl e ↦ absurd (cc (rw e at h))
      | inr e ↦ subst (λ r. is_known r x.org x.key ≡ true) (cc (rw e at h)) (is_known-snoc rows x)
    ]

-- The tool is not run, or the organization has the key afterwards.
abbrev pub IsKept : Request → Store → Store → Type 0
IsKept req st after = (after.calls ≡ st.calls) ⊎ (is_known after.executions req.org req.key ≡ true)

after_insertion-IsKept :
    (set : Setting) (req : Request) (t : Tool) (st : Store) (o : Option (List Execution))
    → create_tool_execution (new_row set req t "running" none) st.executions ≡ o
    → IsKept req st (after_insertion set req t st o).0
unfolding after_insertion run_tool new_row
after_insertion-IsKept set req t st none h = inl (existing-calls st _)
after_insertion-IsKept set req t st (some rows) h = inr (
    after_profile-is_known set.answer (new_row set req t "running" none)
      (record st { executions = rows }) _ req.org req.key
      (create_tool_execution-is_known (new_row set req t "running" none) st.executions rows h))

start_tool-IsKept :
    (set : Setting) (req : Request) (t : Tool) (st : Store)
    → IsKept req st (start_tool set req t st).0
unfolding start_tool
start_tool-IsKept set req t st = elim (Bool-cases (is_browser t && not set.has_browser)) [
  | inl e ↦ inl (rw e refl)
  | inr e ↦ rw e (after_insertion-IsKept set req t (with_others set st) _ refl)
]

after_checks-IsKept :
    (set : Setting) (req : Request) (st : Store) (r : Result Tool)
    → IsKept req st (after_checks set req st r).0
unfolding after_checks
after_checks-IsKept set req st (err e) = inl refl
after_checks-IsKept set req st (ok t) = elim (Bool-cases (requires_approval t)) [
  | inl h ↦ inl (rw h (request_approval-calls set req t st))
  | inr h ↦ rw h (start_tool-IsKept set req t st)
]

execute-IsKept :
    (set : Setting) (req : Request) (st : Store)
    → IsKept (with_key set req) st (execute set req st).0
unfolding execute execute_keyed after_lookup
execute-IsKept set req st =
    go (find_execution st.executions (with_key set req).org (with_key set req).key)
  where
    go :
        (o : Option Execution)
        → IsKept (with_key set req) st (after_lookup set (with_key set req) st o).0
    go (some x) = inl refl
    go none = after_checks-IsKept set (with_key set req) st (authorize set (with_key set req) st)

-- Where the organization has the key, nothing is changed.
execute-known :
    (set : Setting) (req : Request) (st : Store)
    → is_known st.executions (with_key set req).org (with_key set req).key ≡ true
    → (execute set req st).0 ≡ st
unfolding execute execute_keyed after_lookup
execute-known set req st h =
    let (x, f) = is_known-found st.executions (with_key set req).org (with_key set req).key h in
    rw f refl

-- Calls one after the other, each with what it meets.
unfoldable pub execute_all : List (Setting × Request) → Store → Store
execute_all [] st = st
execute_all ((set, req) ∷ qs) st = execute_all qs (execute set req st).0

module _ (org : ℕ) (key : String) where
  -- The calls are of the organization and have the key, as given or made up.
  abbrev pub HasKey : List (Setting × Request) → Type 0
  HasKey [] = Unit
  HasKey ((set, req) ∷ qs) =
      ((with_key set req).org ≡ org) × ((with_key set req).key ≡ key) × HasKey qs

  execute_all-known :
      (qs : List (Setting × Request)) (st : Store)
      → HasKey qs
      → is_known st.executions org key ≡ true
      → execute_all qs st ≡ st
  unfolding execute_all
  execute_all-known [] st h k = refl
  execute_all-known ((set, req) ∷ qs) st (o, e, h) k =
      ap (execute_all qs) (
        execute-known set req st (
          ap (λ n. is_known st.executions n (with_key set req).key) o
          ∙ ap (is_known st.executions org) e
          ∙ k))
      ∙ execute_all-known qs st h k

  -- Any number of calls of Execute of one organization with one key, whatever each meets and whatever
  -- rows others insert in between, run a tool at most once altogether; and when one has run it, the
  -- organization has a row with the key.
  pub execute_all-once :
      (qs : List (Setting × Request)) (st : Store)
      → HasKey qs
      → ((execute_all qs st).calls ≡ st.calls)
        ⊎ ((id : ℕ) × ((execute_all qs st).calls ≡ id ∷ st.calls)
            × (is_known (execute_all qs st).executions org key ≡ true))
  unfolding execute_all
  execute_all-once [] st h = inl refl
  execute_all-once ((set, req) ∷ qs) st (o, e, h) =
      let st1 = (execute set req st).0 in
      let rest' = execute_all-once qs st1 h in
      elim (execute-calls set req st) [
        | inl same ↦ unchanged same rest'
        | inr (t, (f, (a, (r, run)))) ↦ elim (execute-IsKept set req st) [
          | inl same ↦ unchanged same rest'
          | inr k ↦
              let known : is_known st1.executions org key ≡ true =
                sym (
                  ap (λ n. is_known st1.executions n (with_key set req).key) o
                  ∙ ap (is_known st1.executions org) e)
                ∙ k in
              let rest = execute_all-known qs st1 h known in
              inr (
                set.execution_id,
                ap (λ (s : Store). s.calls) rest ∙ run,
                subst (λ (s : Store). is_known s.executions org key ≡ true) (sym rest) known,
              )
        ]
      ]
    where
      unchanged :
          (execute set req st).0.calls ≡ st.calls
          → (((execute_all qs (execute set req st).0).calls ≡ (execute set req st).0.calls)
              ⊎ ((id : ℕ) × ((execute_all qs (execute set req st).0).calls
                    ≡ id ∷ (execute set req st).0.calls)
                  × (is_known (execute_all qs (execute set req st).0).executions org key ≡ true)))
          → ((execute_all qs (execute set req st).0).calls ≡ st.calls)
            ⊎ ((id : ℕ) × ((execute_all qs (execute set req st).0).calls ≡ id ∷ st.calls)
                × (is_known (execute_all qs (execute set req st).0).executions org key ≡ true))
      unchanged same (inl none_run) = inl (none_run ∙ same)
      unchanged same (inr (id, one, known)) =
          inr (id, one ∙ ap (λ (cs : List ℕ). id ∷ cs) same, known)
