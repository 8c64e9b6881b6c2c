-- ===== src/Task/Status/Tables.antt =====
-- What the two transition tables allow.
use open_agent_showcase.Common.{
  String, List, [], ◌∷◌, Bool, true, false, ◌&&◌, ◌≡◌, refl, ◌⊎◌, inl, inr, arith, has_str, str_eq,
  eq_iff, subst, Bool-cases,
}
use open_agent_showcase.Task.Status.{
  is_listed, valid_task_transitions, is_valid_task_transition, valid_transitions,
  is_valid_transition,
}

abbrev pub terminal_statuses : List String
terminal_statuses = "completed" ∷ "cancelled" ∷ "done" ∷ []

-- Whether a second table lists every target of one row, and of every row.
abbrev row_covered : List (String × List String) → String → List String → Bool
row_covered table from [] = true
row_covered table from (to ∷ tos) = is_listed table from to && row_covered table from tos

abbrev covered : List (String × List String) → List (String × List String) → Bool
covered table [] = true
covered table ((from, tos) ∷ rows) = row_covered table from tos && covered table rows

row_covered_sound :
    (table : List (String × List String)) (from : String) (tos : List String) (to : String)
    → row_covered table from tos ≡ true
    → has_str tos to ≡ true
    → is_listed table from to ≡ true
row_covered_sound table from [] to c h = cc
row_covered_sound table from (x ∷ tos) to c h =
    ground (arith, row_covered_sound table from tos to, eq_iff x to)

covered_sound :
    (table rows : List (String × List String)) (from to : String)
    → covered table rows ≡ true
    → is_listed rows from to ≡ true
    → is_listed table from to ≡ true
covered_sound table [] from to c h = cc
covered_sound table ((x, tos) ∷ rows) from to c h =
    ground
      (arith, covered_sound table rows from to, row_covered_sound table from tos to, eq_iff x from)

-- Every step that the runtime's table allows, the repository's table allows too.
pub is_valid_transition-is_valid_task_transition :
    (from to : String)
    → is_valid_transition from to ≡ true
    → is_valid_task_transition from to ≡ true
unfolding is_valid_transition is_valid_task_transition
is_valid_transition-is_valid_task_transition from to h =
    ground (arith, covered_sound valid_task_transitions valid_transitions from to refl h)

terminal_cases :
    (from : String)
    → has_str terminal_statuses from ≡ true
    → ("completed" ≡ from) ⊎ ("cancelled" ≡ from) ⊎ ("done" ≡ from)
terminal_cases from t =
    ground (arith, eq_iff "completed" from, eq_iff "cancelled" from, eq_iff "done" from)

closed_at :
    (from to : String)
    → has_str terminal_statuses from ≡ true
    → is_listed valid_task_transitions from to ≡ false
closed_at from to t = elim (terminal_cases from t) [
  | inl e ↦ subst (λ s. is_listed valid_task_transitions s to ≡ false) e refl
  | inr (inl e) ↦ subst (λ s. is_listed valid_task_transitions s to ≡ false) e refl
  | inr (inr e) ↦ subst (λ s. is_listed valid_task_transitions s to ≡ false) e refl
]

-- From a terminal status the repository's table allows no step but the one to itself.
pub is_valid_task_transition-terminal :
    (from to : String)
    → has_str terminal_statuses from ≡ true
    → is_valid_task_transition from to ≡ true
    → from ≡ to
unfolding is_valid_task_transition
is_valid_task_transition-terminal from to t h = elim (Bool-cases (str_eq from to)) [
  | inl same ↦ (eq_iff from to).0 same
  | inr other ↦ cc (closed_at from to t, rw other at h)
]
