-- ===== src/Tools/Approved/Once.antt =====
-- How often Executor.ExecuteApproved of backend/internal/tool/executor.go runs a tool.
use open_agent_showcase.Common.{
  ℕ, String, Option, none, some, List, [], ◌∷◌, Bool, true, false, ◌&&◌, ◌==◌, ==_refl, str_eq,
  Result, ok, err, not, is_some, ap, ◌∙◌, ◌≡◌, ◌≢◌, refl, sym, subst, arith, Bool-cases, inl, inr,
  eq_refl, if◌then◌else◌,
}
use open_agent_showcase.Tools.{Fields, Tool, get_tool, validate_input}
use open_agent_showcase.Tools.Permit.{Execution, Store, Setting, find_execution, is_allowed}
use open_agent_showcase.Tools.Execute.{ended, update_status}
use open_agent_showcase.Tools.Approved.{
  find_id, request_of, is_still_in_project, recheck, set_row, after_run, rerun, unless_done,
  after_recheck, after_load, execute_approved,
}

find_id-id : (rows : List Execution) (id : ℕ) (x : Execution) → find_id rows id ≡ some x → x.id ≡ id
find_id-id [] id x h = cc
find_id-id (y ∷ rows) id x h = ground (arith, find_id-id rows id x)

find_id-update :
    (status : String) (out : Option Fields) (e : Option String) (rows : List Execution) (id : ℕ)
    (x : Execution)
    → find_id rows id ≡ some x
    → find_id (update_status id (ended status out e) rows) id ≡ some (ended status out e x)
find_id-update status out e [] id x h = cc
find_id-update status out e (y ∷ rows) id x h =
    ground (arith, find_id-update status out e rows id x)

of_some : (x y : Execution) → some x ≡ some y → x ≡ y
of_some x y h = cc h

first_key : (y : Execution) (rows : List Execution) → find_execution (y ∷ rows) y.org y.key ≢ none
first_key y rows k = cc (rw (==_refl y.org, eq_refl y.key) at k)

skipped :
    (b : Bool) (y : Execution) (o : Option Execution) → (if b then some y else o) ≡ none → o ≡ none
skipped true y o h = absurd (cc h)
skipped false y o h = h

find_id-key :
    (rows : List Execution) (id : ℕ) (x : Execution)
    → find_id rows id ≡ some x
    → find_execution rows x.org x.key ≢ none
find_id-key [] id x h k = cc
find_id-key (y ∷ rows) id x h k = elim (Bool-cases (y.id == id)) [
  | inl e ↦
      first_key y rows (
        subst (λ z. find_execution (y ∷ rows) z.org z.key ≡ none) (sym (of_some y x (rw e at h))) k)
  | inr e ↦ find_id-key rows id x (rw e at h) (skipped (y.org == x.org && str_eq y.key x.key) y _ k)
]

-- Whether a refusal is written to the row.
abbrev pub is_written : Option (String × Bool) → Bool
is_written none = false
is_written (some e) = e.1

-- No call on this store writes a refusal to the row: what is written depends on the tables alone.
NoRefusal : Store → Execution → Type 0
NoRefusal st x = (set : Setting) → is_written (recheck set st x) ≡ false

recheck-NoRefusal :
    (set : Setting) (st : Store) (x : Execution) → recheck set st x ≡ none → NoRefusal st x
unfolding recheck NoRefusal
recheck-NoRefusal set st x h set' = go (get_tool st.tools x.org x.tool_name) h
  where
    go :
        (o : Option Tool)
        → (elim o as (λ o. Option (String × Bool)) [
          | none ↦ some ("tool not found", false)
          | some t ↦
              if not t.enabled
              then some ("tool disabled", false)
              else if is_some (validate_input set.print t.schema x.input)
              then some ("schema validation failed", false)
              else if not (is_allowed st (request_of x) x.tool)
              then some ("agent not authorized", true)
              else if not (is_still_in_project st x)
              then some ("agent not assigned to project", true)
              else none
        ])
          ≡ none
        → is_written (elim o as (λ o. Option (String × Bool)) [
          | none ↦ some ("tool not found", false)
          | some t ↦
              if not t.enabled
              then some ("tool disabled", false)
              else if is_some (validate_input set'.print t.schema x.input)
              then some ("schema validation failed", false)
              else if not (is_allowed st (request_of x) x.tool)
              then some ("agent not authorized", true)
              else if not (is_still_in_project st x)
              then some ("agent not assigned to project", true)
              else none
        ])
          ≡ false
    go none k = refl
    go (some t) k = ground arith

-- A call on a row that has succeeded leaves the store, where no refusal is written.
unless_done-same :
    (set : Setting) (x : Execution) (st : Store) (o : Option Execution)
    → o ≢ none
    → str_eq x.status "succeeded" ≡ true
    → (unless_done set x st o).0 ≡ st
unfolding unless_done
unless_done-same set x st none k h = absurd (k refl)
unless_done-same set x st (some y) k h = rw h refl

after_recheck-same :
    (set : Setting) (x : Execution) (st : Store) (id : ℕ) (o : Option (String × Bool))
    → find_id st.executions id ≡ some x
    → str_eq x.status "succeeded" ≡ true
    → is_written o ≡ false
    → (after_recheck set x st o).0 ≡ st
unfolding after_recheck
after_recheck-same set x st id (some e) f h w = rw w refl
after_recheck-same set x st id none f h w =
    unless_done-same set x st _ (find_id-key st.executions id x f) h

-- The row has succeeded, and no refusal is written to it.
IsSettled : ℕ → Store → Type 0
IsSettled id st =
    (y : Execution) × ((find_id st.executions id ≡ some y)
      × (str_eq y.status "succeeded" ≡ true)
      × NoRefusal st y)

execute_approved-same :
    (set : Setting) (st : Store) (id : ℕ) → IsSettled id st → (execute_approved set id st).0 ≡ st
unfolding execute_approved after_load IsSettled NoRefusal
execute_approved-same set st id (y, (f, e, none_written)) =
    rw f (after_recheck-same set y st id _ f e (none_written set))

-- Calls one after the other.
unfoldable pub execute_approved_all : List Setting → ℕ → Store → Store
execute_approved_all [] id st = st
execute_approved_all (set ∷ sets) id st =
    execute_approved_all sets id (execute_approved set id st).0

execute_approved_all-same :
    (sets : List Setting) (st : Store) (id : ℕ)
    → IsSettled id st
    → execute_approved_all sets id st ≡ st
unfolding execute_approved_all
execute_approved_all-same [] st id s = refl
execute_approved_all-same (set ∷ sets) st id s =
    ap (execute_approved_all sets id) (execute_approved-same set st id s)
    ∙ execute_approved_all-same sets st id s

after_run-IsSettled :
    (x : Execution) (st : Store) (id : ℕ) (r : Result Fields)
    → find_id st.executions id ≡ some x
    → NoRefusal st x
    → (after_run x (set_row x.id "running" none none st) r).1.1 ≡ none
    → IsSettled id (after_run x (set_row x.id "running" none none st) r).0
unfolding IsSettled NoRefusal after_run recheck is_allowed is_still_in_project
after_run-IsSettled x st id (err e) f n h = absurd (cc h)
after_run-IsSettled x st id (ok out) f n h =
    let i = find_id-id st.executions id x f in
    let running =
      subst
        (λ k.
          find_id (update_status k (ended "running" none none) st.executions) id
          ≡ some (ended "running" none none x))
        (sym i) (find_id-update "running" none none st.executions id x f) in
    (
      ended "succeeded" (some out) none (ended "running" none none x),
      (
        subst
            (λ k.
              find_id
                (update_status k (ended "succeeded" (some out) none)
                  (update_status x.id (ended "running" none none) st.executions))
                id
              ≡ some (ended "succeeded" (some out) none (ended "running" none none x)))
            (sym i)
            (find_id-update "succeeded" (some out) none
              (update_status x.id (ended "running" none none) st.executions) id _ running),
        refl,
        λ set. n set,
      ),
    )

unless_done-IsSettled :
    (set : Setting) (x : Execution) (st : Store) (id : ℕ) (o : Option Execution)
    → find_id st.executions id ≡ some x
    → NoRefusal st x
    → (unless_done set x st o).1.1 ≡ none
    → IsSettled id (unless_done set x st o).0
unfolding unless_done rerun IsSettled
unless_done-IsSettled set x st id none f n h = after_run-IsSettled x st id set.answer f n h
unless_done-IsSettled set x st id (some y) f n h = elim (Bool-cases (str_eq x.status "succeeded")) [
  | inl e ↦ rw e (x, (f, e, n))
  | inr e ↦ rw e (after_run-IsSettled x st id set.answer f n (rw e at h))
]

after_recheck-IsSettled :
    (set : Setting) (x : Execution) (st : Store) (id : ℕ) (o : Option (String × Bool))
    → recheck set st x ≡ o
    → find_id st.executions id ≡ some x
    → (after_recheck set x st o).1.1 ≡ none
    → IsSettled id (after_recheck set x st o).0
unfolding after_recheck
after_recheck-IsSettled set x st id (some e) c f h = absurd (cc h)
after_recheck-IsSettled set x st id none c f h =
    unless_done-IsSettled set x st id _ f (recheck-NoRefusal set st x c) h

after_load-IsSettled :
    (set : Setting) (st : Store) (id : ℕ) (o : Option Execution)
    → find_id st.executions id ≡ o
    → (after_load set st o).1.1 ≡ none
    → IsSettled id (after_load set st o).0
unfolding after_load
after_load-IsSettled set st id none f h = absurd (cc h)
after_load-IsSettled set st id (some x) f h =
    after_recheck-IsSettled set x st id (recheck set st x) refl f h

-- Once ExecuteApproved has answered without an error, any number of later calls for the same execution
-- leave the store as it is and so do not run the tool again, whatever they are given, as long as nothing
-- else changes the tables.
pub execute_approved_once :
    (set : Setting) (sets : List Setting) (id : ℕ) (st : Store)
    → (execute_approved set id st).1.1 ≡ none
    → let first = (execute_approved set id st).0 in execute_approved_all sets id first ≡ first
unfolding execute_approved
execute_approved_once set sets id st h =
    execute_approved_all-same sets _ id (after_load-IsSettled set st id _ refl h)
