-- ===== src/Tools/Execute/Keys.antt =====
-- The idempotency keys of tool_executions under Executor.Execute of backend/internal/tool/executor.go.
use open_agent_showcase.Common.{
  ℕ, String, Option, none, some, List, [], ◌∷◌, ◌++◌, Bool, true, false, ◌||◌, ◌&&◌, not, ◌==◌,
  str_eq, any, Result, ok, err, ◌≡◌, refl, subst, inl, inr, arith, Bool-cases, eq_iff, eq_refl,
}
use open_agent_showcase.Tools.{Fields, Tool, requires_approval}
use open_agent_showcase.Tools.Permit.{Execution, Store, Request, Setting, with_key, authorize}
use open_agent_showcase.Tools.Execute.{
  new_row, with_others, create_tool_execution, after_request, existing, after_insertion,
  after_answer, after_profile, after_checks, after_lookup, ended, update_status, is_browser,
  request_approval, run_tool, start_tool, execute_keyed, execute,
}

abbrev pub has_key : List Execution → String → Bool
has_key rows k = any (λ (y : Execution). str_eq y.key k) rows

-- No two rows have the same key.
abbrev pub Distinct : List Execution → Type 0
Distinct [] = Unit
Distinct (x ∷ rows) = (has_key rows x.key ≡ false) × Distinct rows

str_eq-swap : (a b : String) → str_eq a b ≡ false → str_eq b a ≡ false
str_eq-swap a b h = elim (Bool-cases (str_eq b a)) [
  | inl e ↦ absurd (cc (subst (λ c. str_eq a c ≡ false) ((eq_iff b a).0 e) h, eq_refl a))
  | inr e ↦ e
]

or_iff : (a b : Bool) → (a || b) ≡ false → (a ≡ false) × (b ≡ false)
or_iff true b h = absurd (cc h)
or_iff false b h = (refl, h)

single_key : (x : Execution) (k : String) → str_eq x.key k ≡ false → has_key (x ∷ []) k ≡ false
single_key x k h = rw h refl

has_key-append :
    (rows others : List Execution) (k : String)
    → has_key rows k ≡ false
    → has_key others k ≡ false
    → has_key (rows ++ others) k ≡ false
has_key-append [] others k h i = i
has_key-append (x ∷ rows) others k h i = ground (arith, has_key-append rows others k)

has_key-prefix :
    (rows others : List Execution) (k : String)
    → has_key (rows ++ others) k ≡ false
    → has_key rows k ≡ false
has_key-prefix [] others k h = refl
has_key-prefix (x ∷ rows) others k h = ground (arith, has_key-prefix rows others k)

Distinct-prefix : (rows others : List Execution) → Distinct (rows ++ others) → Distinct rows
Distinct-prefix [] others h = tt
Distinct-prefix (x ∷ rows) others h =
    (has_key-prefix rows others x.key h.0, Distinct-prefix rows others h.1)

Distinct-snoc :
    (rows : List Execution) (x : Execution)
    → has_key rows x.key ≡ false
    → Distinct rows
    → Distinct (rows ++ x ∷ [])
Distinct-snoc [] x h d = (refl, tt)
Distinct-snoc (y ∷ rows) x h d =
    let (y_x, rest) = or_iff (str_eq y.key x.key) (has_key rows x.key) h in
    (
      has_key-append rows (x ∷ []) y.key d.0 (single_key x y.key (str_eq-swap y.key x.key y_x)),
      Distinct-snoc rows x rest d.1,
    )

has_key-update :
    (id : ℕ) (status : String) (out : Option Fields) (e : Option String) (rows : List Execution)
    (k : String)
    → has_key (update_status id (ended status out e) rows) k ≡ has_key rows k
has_key-update id status out e [] k = refl
has_key-update id status out e (x ∷ rows) k = ground (arith, has_key-update id status out e rows k)

Distinct-update :
    (id : ℕ) (status : String) (out : Option Fields) (e : Option String) (rows : List Execution)
    → Distinct rows
    → Distinct (update_status id (ended status out e) rows)
Distinct-update id status out e [] d = tt
Distinct-update id status out e (x ∷ rows) d = elim (Bool-cases (x.id == id)) [
  | inl h ↦
      rw (h, has_key-update id status out e rows x.key)
        (d.0, Distinct-update id status out e rows d.1)
  | inr h ↦
      rw (h, has_key-update id status out e rows x.key)
        (d.0, Distinct-update id status out e rows d.1)
]

create_tool_execution-Distinct :
    (x : Execution) (rows after : List Execution)
    → create_tool_execution x rows ≡ some after
    → Distinct rows
    → Distinct after
unfolding create_tool_execution
create_tool_execution-Distinct x rows after e d = elim (Bool-cases (has_key rows x.key)) [
  | inl h ↦ absurd (cc (rw h at e))
  | inr h ↦ subst Distinct (cc (rw h at e)) (Distinct-snoc rows x h d)
]

after_answer-Distinct :
    (row : Execution) (st : Store) (r : Result Fields)
    → Distinct st.executions
    → Distinct (after_answer row st r).0.executions
unfolding after_answer
after_answer-Distinct row st (ok out) d = Distinct-update row.id _ _ _ st.executions d
after_answer-Distinct row st (err e) d = Distinct-update row.id _ _ _ st.executions d

after_profile-Distinct :
    (answer : Result Fields) (row : Execution) (st : Store) (o : Option String)
    → Distinct st.executions
    → Distinct (after_profile answer row st o).0.executions
unfolding after_profile
after_profile-Distinct answer row st (some e) d = Distinct-update row.id _ _ _ st.executions d
after_profile-Distinct answer row st none d = after_answer-Distinct row st answer d

run_tool-Distinct :
    (set : Setting) (t : Tool) (row : Execution) (st : Store)
    → Distinct st.executions
    → Distinct (run_tool set t row st).0.executions
unfolding run_tool
run_tool-Distinct set t row st d = after_profile-Distinct set.answer row st _ d

existing-Distinct :
    (st : Store) (o : Option Execution)
    → Distinct st.executions
    → Distinct (existing st o).0.executions
unfolding existing
existing-Distinct st (some x) d = d
existing-Distinct st none d = d

after_insertion-Distinct :
    (set : Setting) (req : Request) (t : Tool) (st : Store) (o : Option (List Execution))
    → create_tool_execution (new_row set req t "running" none) st.executions ≡ o
    → Distinct st.executions
    → Distinct (after_insertion set req t st o).0.executions
unfolding after_insertion
after_insertion-Distinct set req t st none e d = existing-Distinct st _ d
after_insertion-Distinct set req t st (some rows) e d =
    run_tool-Distinct set t _ _ (create_tool_execution-Distinct _ st.executions rows e d)

after_request-Distinct :
    (set : Setting) (row : Execution) (st : Store) (o : Option (List Execution))
    → create_tool_execution row st.executions ≡ o
    → Distinct st.executions
    → Distinct (after_request set row st o).0.executions
unfolding after_request
after_request-Distinct set row st none e d = d
after_request-Distinct set row st (some rows) e d =
    create_tool_execution-Distinct row st.executions rows e d

after_checks-Distinct :
    (set : Setting) (req : Request) (st : Store) (r : Result Tool)
    → Distinct (st.executions ++ set.others)
    → Distinct (after_checks set req st r).0.executions
unfolding after_checks request_approval start_tool
after_checks-Distinct set req st (err e) d = Distinct-prefix st.executions set.others d
after_checks-Distinct set req st (ok t) d = elim (Bool-cases (requires_approval t)) [
  | inl h ↦ rw h (after_request-Distinct set _ _ _ refl d)
  | inr h ↦ elim (Bool-cases (is_browser t && not set.has_browser)) [
    | inl i ↦ rw (h, i) (Distinct-prefix st.executions set.others d)
    | inr i ↦ rw (h, i) (after_insertion-Distinct set req t (with_others set st) _ refl d)
  ]
]

after_lookup-Distinct :
    (set : Setting) (req : Request) (st : Store) (o : Option Execution)
    → Distinct (st.executions ++ set.others)
    → Distinct (after_lookup set req st o).0.executions
unfolding after_lookup
after_lookup-Distinct set req st (some x) d = Distinct-prefix st.executions set.others d
after_lookup-Distinct set req st none d = after_checks-Distinct set req st (authorize set req st) d

-- Execute keeps the keys of the executions distinct, also where other calls insert rows between its
-- look-up of the key and its insertion.
pub execute-Distinct :
    (set : Setting) (req : Request) (st : Store)
    → Distinct (st.executions ++ set.others)
    → Distinct (execute set req st).0.executions
unfolding execute execute_keyed
execute-Distinct set req st d = after_lookup-Distinct set (with_key set req) st _ d
