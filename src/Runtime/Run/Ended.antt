-- ===== src/Runtime/Run/Ended.antt =====
-- Which changes of a run's status repository/run.go refuses.
use open_agent_showcase.Common.{
  String, List, [], ◌∷◌, true, false, str_eq, ok, Option, ◌≡◌, refl, Bool-cases, inl, inr, subst,
  sym, eq_iff, ◌⊎◌, arith, ◌∙◌,
}
use open_agent_showcase.Runtime.Run.{
  Run, admits, refuses, is_valid_run_transition, with_run_status, is_ended, update_agent_run_status,
}

ended_cases :
    (s : String) → is_ended s ≡ true → ("succeeded" ≡ s) ⊎ ("completed" ≡ s) ⊎ ("cancelled" ≡ s)
ended_cases s h = ground (arith, eq_iff s "succeeded", eq_iff s "completed", eq_iff s "cancelled")

-- Out of an ended status the table leads only back to the same status.
is_valid_run_transition-ended :
    (from to : String) → is_ended from ≡ true → is_valid_run_transition from to ≡ str_eq from to
unfolding is_valid_run_transition
is_valid_run_transition-ended from to h = elim (ended_cases from h) [
  | inl e ↦ subst (λ s. is_valid_run_transition s to ≡ str_eq s to) e refl
  | inr (inl e) ↦ subst (λ s. is_valid_run_transition s to ≡ str_eq s to) e refl
  | inr (inr e) ↦ subst (λ s. is_valid_run_transition s to ≡ str_eq s to) e refl
]

is_ended-nonempty : (s : String) → is_ended s ≡ true → str_eq s "" ≡ false
is_ended-nonempty s h = elim (ended_cases s h) [
  | inl e ↦ subst (λ s. str_eq s "" ≡ false) e refl
  | inr (inl e) ↦ subst (λ s. str_eq s "" ≡ false) e refl
  | inr (inr e) ↦ subst (λ s. str_eq s "" ≡ false) e refl
]

refuses-ended :
    (from to : String)
    → is_ended from ≡ true
    → refuses from to ≡ false
    → (to ≡ from) ⊎ ((from ≡ "succeeded") × (to ≡ "running"))
unfolding refuses
refuses-ended from to h passed = ground (
  arith,
  is_valid_run_transition-ended from to h,
  is_ended-nonempty from h,
  eq_iff from to,
  eq_iff from "succeeded",
  eq_iff to "running",
)

-- UpdateAgentRunStatus takes a run out of an ended status only from `succeeded` to `running`, which
-- its table does not list; every other call keeps the status, by an error or because it is the same.
update_agent_run_status-ended :
    (run : Run) (status : String) (e : Option String)
    → is_ended run.status ≡ true
    → ((update_agent_run_status run status e).0.status ≡ run.status)
      ⊎ ((run.status ≡ "succeeded")
          × ((status ≡ "running") × ((update_agent_run_status run status e).0.status ≡ "running")))
unfolding update_agent_run_status
update_agent_run_status-ended run status e h = elim (Bool-cases (refuses run.status status)) [
  | inl stop ↦ inl (rw stop refl)
  | inr pass ↦ ground (arith, refuses-ended run.status status h pass)
]

refuses-open : (from to : String) → is_ended from ≡ false → refuses from to ≡ false
unfolding refuses
refuses-open from to h = rw h (ground arith)

-- Of a run that has not ended UpdateAgentRunStatus writes any status that the column admits, also
-- where its table does not list the step.
pub update_agent_run_status-unguarded :
    (run : Run) (status : String) (e : Option String)
    → is_ended run.status ≡ false
    → admits status ≡ true
    → update_agent_run_status run status e ≡ (with_run_status status e run, ok tt)
unfolding update_agent_run_status
update_agent_run_status-unguarded run status e h known =
    rw (refuses-open run.status status h, known) refl

abbrev pub update_all : Run → List (String × Option String) → Run
update_all run [] = run
update_all run ((status, e) ∷ calls) = update_all (update_agent_run_status run status e).0 calls

-- A cancelled run stays cancelled, whatever calls of UpdateAgentRunStatus follow.
update_all-cancelled :
    (run : Run) (calls : List (String × Option String))
    → run.status ≡ "cancelled"
    → (update_all run calls).status ≡ "cancelled"
update_all-cancelled run [] h = h
update_all-cancelled run ((status, e) ∷ calls) h =
    update_all-cancelled (update_agent_run_status run status e).0 calls
      (elim (update_agent_run_status-ended run status e
        (subst (λ s. is_ended s ≡ true) (sym h) refl)) [
          | inl same ↦ same ∙ h
          | inr (reopened, _) ↦ absurd (cancelled_ne (sym h ∙ reopened))
        ])
  where
    cancelled_ne : ¬ (◌≡◌ {A = String} "cancelled" "succeeded")
    cancelled_ne p = cc (subst (λ x. str_eq x "cancelled" ≡ true) p refl)
