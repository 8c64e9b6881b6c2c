-- ===== src/Runtime/Gate/Refusals.antt =====
-- What the guardrails of backend/internal/runtime/execution.go refuse.
use open_agent_showcase.Common.{
  ℕ, ◌+◌, ◌≤◌, String, none, some, List, [], ◌∷◌, false, ltb, ◌≡◌, ◌≢◌, refl, arith, Bool-cases,
  inl, inr, ◌⊎◌, subst, sym, Memᴰ, guard_iff, then_iff,
}
use mathlib.Core.List.Memᴰ
use open_agent_showcase.Task.{Task}
use open_agent_showcase.Task.Status.{is_valid_transition}
use open_agent_showcase.Runtime.Decision.{Action, Decision}
use open_agent_showcase.Runtime.Gate.{
  Tool, Agent, max_tool_calls, count_tool_calls, gate_action, gate_actions, gate,
}

module _ (tools : List Tool) (org : ℕ) (agent : Agent) (task : Task) where
  -- A decision that passes keeps the tool calls within the limit.
  pub gate-budget :
      (d : Decision) (calls : ℕ)
      → gate tools org agent task d calls ≡ none
      → calls + count_tool_calls d.actions ≤ max_tool_calls
  unfolding gate
  gate-budget d calls h =
      elim (Bool-cases (ltb max_tool_calls (calls + count_tool_calls d.actions))) [
        | inl over ↦ absurd (cc (rw over at h))
        | inr within ↦ ground arith
      ]

  gate_actions-Memᴰ :
      (acts : List Action) (act : Action)
      → gate_actions tools org agent task acts ≡ none
      → Memᴰ act acts
      → gate_action tools org agent task act ≡ none
  unfolding gate_actions
  gate_actions-Memᴰ [] act h m = absurd (Memᴰ.not-nil m)
  gate_actions-Memᴰ (a ∷ acts) act h m =
      let both = (then_iff (gate_action tools org agent task a) _).0 h in
      elim (Memᴰ.cases_cons m) [
        | inl same ↦ subst (λ x. gate_action tools org agent task x ≡ none) (sym same) both.0
        | inr later ↦ gate_actions-Memᴰ acts act both.1 later
      ]

  -- In a decision that passes, every action passes on its own.
  gate-Memᴰ :
      (d : Decision) (calls : ℕ) (act : Action)
      → gate tools org agent task d calls ≡ none
      → Memᴰ act d.actions
      → gate_action tools org agent task act ≡ none
  unfolding gate
  gate-Memᴰ d calls act h m =
      gate_actions-Memᴰ d.actions act ((then_iff _ _).0 ((guard_iff _ _ _).0 h).1).0 m

  stale_cases :
      (status : String)
      → ("pending" ≡ status) ⊎ ("assigned" ≡ status)
      → (is_valid_transition status "completed" ≡ false)
        × (is_valid_transition status "failed" ≡ false)
  unfolding is_valid_transition
  stale_cases status (inl e) =
      subst
        (λ s.
          (is_valid_transition s "completed" ≡ false) × (is_valid_transition s "failed" ≡ false))
        e (refl, refl)
  stale_cases status (inr e) =
      subst
        (λ s.
          (is_valid_transition s "completed" ≡ false) × (is_valid_transition s "failed" ≡ false))
        e (refl, refl)

  gate_action-stale :
      (act : Action)
      → ("pending" ≡ task.status) ⊎ ("assigned" ≡ task.status)
      → ("complete_task" ≡ act.kind) ⊎ ("fail_task" ≡ act.kind)
      → gate_action tools org agent task act ≡ some "invalid transition"
  unfolding gate_action
  gate_action-stale act fresh (inl e) =
      rw ((stale_cases task.status fresh).0, (stale_cases task.status fresh).1, sym e) refl
  gate_action-stale act fresh (inr e) =
      rw ((stale_cases task.status fresh).0, (stale_cases task.status fresh).1, sym e) refl

  -- Against a task that was read as `pending` or `assigned`, as ExecuteTask reads the one it is about
  -- to start, a decision with an action complete_task or fail_task is refused.
  pub gate-stale :
      (d : Decision) (calls : ℕ) (act : Action)
      → ("pending" ≡ task.status) ⊎ ("assigned" ≡ task.status)
      → Memᴰ act d.actions
      → ("complete_task" ≡ act.kind) ⊎ ("fail_task" ≡ act.kind)
      → gate tools org agent task d calls ≢ none
  gate-stale d calls act fresh m ends h =
      cc (gate-Memᴰ d calls act h m, gate_action-stale act fresh ends)
