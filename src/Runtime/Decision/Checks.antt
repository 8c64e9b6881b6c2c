-- ===== src/Runtime/Decision/Checks.antt =====
-- What ValidateDecision of backend/internal/runtime/decision.go lets through.
use open_agent_showcase.Common.{
  String, none, List, [], ◌∷◌, Bool, true, false, ◌&&◌, not, ◌≡◌, refl, ltb, has_str, length, Bytes,
  to_lower, All, str_eq, Bool-cases, inl, inr, subst, eq_iff, ◌↔◌, guard_iff, then_iff, not_iff,
}
use open_agent_showcase.Runtime.Json.{is_empty}
use open_agent_showcase.Runtime.Decision.{
  Action, MemoryUpdate, Decision, valid_decision_statuses, valid_action_types, is_valid_memory_type,
  max_text, validate_action, check_actions, check_update, check_updates, check_code, runs_code,
  holds_secret, validate_decision,
}

is_named-nonempty : (s : String) → has_str valid_decision_statuses s ≡ true → str_eq s "" ≡ false
is_named-nonempty s h = elim (Bool-cases (str_eq s "")) [
  | inr e ↦ e
  | inl e ↦
      absurd (ending (subst (λ t. has_str valid_decision_statuses t ≡ true) ((eq_iff s "").0 e) h))
]
  where
    ending : ¬ (has_str valid_decision_statuses "" ≡ true)
    ending h = cc

module _ (is_uuid : Bytes → Bool) where
  abbrev pub IsAllowed : Action → Type 0
  IsAllowed act =
      (has_str valid_action_types act.kind ≡ true) × (validate_action is_uuid act ≡ none)

  -- Content of 1 to 5000 bytes, with no key in sight, of a known type or of none yet.
  abbrev pub IsStorable : MemoryUpdate → Type 0
  IsStorable mu =
      (is_empty mu.content ≡ false)
      × ((not (is_empty mu.memory_type) && not (is_valid_memory_type mu.memory_type) ≡ false)
          × ((ltb max_text (length mu.content) ≡ false)
              × (holds_secret (to_lower mu.content) ≡ false)))

  check_actions_iff :
      (acts : List Action) → (check_actions is_uuid acts ≡ none) ↔ All IsAllowed acts
  unfolding check_actions
  check_actions_iff [] = (λ h. tt, λ h. refl)
  check_actions_iff (act ∷ acts) = (
    λ h.
        let a = (guard_iff _ _ _).0 h in
        let b = (then_iff _ _).0 a.1 in (((not_iff _).0 a.0, b.0), (check_actions_iff acts).0 b.1),
    λ h.
        (guard_iff _ _ _).1
          ((not_iff _).1 h.0.0, (then_iff _ _).1 (h.0.1, (check_actions_iff acts).1 h.1)),
  )

  check_update_iff : (mu : MemoryUpdate) → (check_update mu ≡ none) ↔ IsStorable mu
  unfolding check_update
  check_update_iff mu = (
    λ h.
        let a = (guard_iff _ _ _).0 h in
        let b = (guard_iff _ _ _).0 a.1 in
        let c = (guard_iff _ _ _).0 b.1 in (a.0, (b.0, (c.0, ((guard_iff _ _ none).0 c.1).0))),
    λ h. (guard_iff _ _ _).1 (
      h.0,
      (guard_iff _ _ _).1
          (h.1.0, (guard_iff _ _ _).1 (h.1.1.0, (guard_iff _ _ none).1 (h.1.1.1, refl))),
    ),
  )

  check_updates_iff : (mus : List MemoryUpdate) → (check_updates mus ≡ none) ↔ All IsStorable mus
  unfolding check_updates
  check_updates_iff [] = (λ h. tt, λ h. refl)
  check_updates_iff (mu ∷ mus) = (
    λ h. let a = (then_iff _ _).0 h in ((check_update_iff mu).0 a.0, (check_updates_iff mus).0 a.1),
    λ h. (then_iff _ _).1 ((check_update_iff mu).1 h.0, (check_updates_iff mus).1 h.1),
  )

  check_code_iff :
      (acts : List Action)
      → (check_code acts ≡ none) ↔ All (λ act. runs_code act.params ≡ false) acts
  unfolding check_code
  check_code_iff [] = (λ h. tt, λ h. refl)
  check_code_iff (act ∷ acts) = (
    λ h. let a = (guard_iff _ _ _).0 h in (a.0, (check_code_iff acts).0 a.1),
    λ h. (guard_iff _ _ _).1 (h.0, (check_code_iff acts).1 h.1),
  )

  -- ValidateDecision passes exactly the decisions with a known status, with actions of known types
  -- that validateAction passes and that carry no `code` and no `exec`, and with storable memory updates.
  pub validate_decision_iff :
      (d : Decision)
      → (validate_decision is_uuid d ≡ none) ↔ (
          (has_str valid_decision_statuses d.status ≡ true)
          × (All IsAllowed d.actions
              × (All IsStorable d.memory_updates
                  × All (λ act. runs_code act.params ≡ false) d.actions)))
  unfolding validate_decision
  validate_decision_iff d = (
    λ h.
        let a = (guard_iff _ _ _).0 h in
        let b = (guard_iff _ _ _).0 a.1 in
        let c = (then_iff _ _).0 b.1 in
        let e = (then_iff _ _).0 c.1 in
        (
          (not_iff _).0 b.0,
          ((check_actions_iff _).0 c.0, ((check_updates_iff _).0 e.0, (check_code_iff _).0 e.1)),
        ),
    λ h. (guard_iff _ _ _).1 (
      is_named-nonempty _ h.0,
      (guard_iff _ _ _).1 (
        (not_iff _).1 h.0,
        (then_iff _ _).1 (
          (check_actions_iff _).1 h.1.0,
          (then_iff _ _).1 ((check_updates_iff _).1 h.1.1.0, (check_code_iff _).1 h.1.1.1),
        ),
      ),
    ),
  )
