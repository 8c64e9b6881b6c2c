-- ===== src/Guardrail/Status.antt =====
-- The statuses that GetAgentStatus of backend/internal/guardrail/service.go answers.
use open_agent_showcase.Common.{
  ℕ, List, [], ◌∷◌, Bool, true, false, ◌||◌, ◌&&◌, ltb, str_eq, if◌then◌else◌, ◌≤◌, ◌≡◌, ◌≢◌, refl,
  sym, ap, ◌∙◌, arith, Bool-cases, inl, inr,
}
use open_agent_showcase.Guardrail.{
  Entry, Db, is_within, count, is_of, has_label, is_offline, last_seen, get_agent_status,
}

count_le :
    (p q : Entry → Bool) (rows : List Entry)
    → ((e : Entry) → p e ≡ true → q e ≡ true)
    → count p rows ≤ count q rows
count_le p q [] h = omega arith
count_le p q (e ∷ rows) h = elim (Bool-cases (p e)) [
  | inl i ↦ let rest = count_le p q rows h in rw (i, h e i) (omega (arith, rest))
  | inr i ↦
      let rest = count_le p q rows h in
      elim (Bool-cases (q e)) [ inl j ↦ rw (i, j) (omega (arith, rest)) | inr j ↦ rw (i, j) rest ]
]

blocked_waits :
    (org agent : ℕ) (e : Entry)
    → has_label org agent ("blocked" ∷ []) e ≡ true
    → has_label org agent ("waiting" ∷ "blocked" ∷ []) e ≡ true
blocked_waits org agent e h =
    widen (is_of org agent e) (str_eq "waiting" e.label) (str_eq "blocked" e.label) h
  where
    widen : (a w b : Bool) → (a && (b || false)) ≡ true → (a && (w || (b || false))) ≡ true
    widen a w b h = ground arith

-- The chain of the tests, where the fourth does not pass unless the third does.
chain :
    (a b c d e f : Bool)
    → (c ≡ false → d ≡ false)
    → str_eq
        (if a
          then "approval_required"
          else if b
          then "working"
          else if c
          then "waiting"
          else if d
          then "blocked"
          else if e
          then "failed"
          else if f
          then "offline"
          else "idle")
        "blocked"
      ≡ false
chain true b c d e f h = refl
chain false true c d e f h = refl
chain false false true d e f h = refl
chain false false false true e f h = absurd (cc (h refl))
chain false false false false true f h = refl
chain false false false false false true h = refl
chain false false false false false false h = refl

-- GetAgentStatus never answers that an agent is blocked: its blocked tasks count as waiting before.
get_agent_status-blocked :
    (db : Db) (now org agent : ℕ) → get_agent_status db now org agent ≢ "blocked"
unfolding get_agent_status
get_agent_status-blocked db now org agent h =
    let never =
      chain (ltb 0 (count (has_label org agent ("awaiting_approval" ∷ [])) db.runs))
        (ltb 0 (count (has_label org agent ("running" ∷ [])) db.runs))
        (ltb 0 (count (has_label org agent ("waiting" ∷ "blocked" ∷ [])) db.tasks))
        (ltb 0 (count (has_label org agent ("blocked" ∷ [])) db.tasks))
        (ltb 0 (
          count
            (λ (e : Entry). has_label org agent ("failed" ∷ []) e && is_within now 3600 e.created)
            db.runs))
        (is_offline now (last_seen db agent))
        (λ c. ground (
          arith,
          c,
          count_le (has_label org agent ("blocked" ∷ []))
              (has_label org agent ("waiting" ∷ "blocked" ∷ [])) db.tasks (blocked_waits org agent),
        )) in
    absurd (true_false (sym (ap (λ t. str_eq t "blocked") h) ∙ never))
  where
    true_false : true ≡ false → ⊥
    true_false e = cc e
