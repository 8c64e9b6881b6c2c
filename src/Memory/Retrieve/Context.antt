-- ===== src/Memory/Retrieve/Context.antt =====
-- What deduplicateForContext of backend/internal/memory/service.go leaves.
use mathlib.Core.List.Memᴰ
use open_agent_showcase.Common.{
  ℕ, ◌+◌, if◌then◌else◌, List, [], ◌∷◌, Bool, true, false, ◌||◌, Memᴰ, Bytes, bytes_eq,
  bytes_eq_refl, bytes_eq_iff, ◌≡◌, refl, sym, ◌∙◌, subst, ⊎_elim, arith, Bool-cases, inl, inr,
}
use open_agent_showcase.Memory.Text.{normalize, has_bytes}
use open_agent_showcase.Memory.Store.{Memory}
use open_agent_showcase.Memory.Retrieve.{is_retired, first_of_each, deduplicate_for_context}

unfoldable pub texts : List Memory → List Bytes
texts [] = []
texts (m ∷ ms) = normalize m.content ∷ texts ms

abbrev pub has_repeat : List Bytes → Bool
has_repeat [] = false
has_repeat (s ∷ ss) = has_bytes ss s || has_repeat ss

or_false : (a b : Bool) → a ≡ false → b ≡ false → (a || b) ≡ false
or_false a b e f = rw (e, f) refl

or_left : (a b : Bool) → (a || b) ≡ false → a ≡ false
or_left true b h = h
or_left false b h = refl

or_right : (a b : Bool) → (a || b) ≡ false → b ≡ false
or_right true b h = absurd (cc h)
or_right false b h = h

or_of_left : (a b : Bool) → (a || b) ≡ true → b ≡ false → a ≡ true
or_of_left a b h k = ground arith

or_swap : (a b c : Bool) → ((b || a) || c) ≡ true → (a || (b || c)) ≡ true
or_swap a b c h = ground arith

-- What has been seen is not met again.
seen_unmet :
    (seen : List Bytes) (ms : List Memory) (t : Bytes)
    → has_bytes seen t ≡ true
    → has_bytes (texts (first_of_each seen ms)) t ≡ false
unfolding first_of_each texts
seen_unmet seen [] t h = refl
seen_unmet seen (m ∷ ms) t h =
    let text = normalize m.content in
    elim (Bool-cases (has_bytes seen text || is_retired m.status)) [
      | inl e ↦ rw e (seen_unmet seen ms t h)
      | inr e ↦ elim (Bool-cases (bytes_eq t text)) [
        | inl f ↦ absurd (
            cc (
              sym h
              ∙ subst (λ u. has_bytes seen u ≡ false) (sym ((bytes_eq_iff t text).0 f))
                  (or_left (has_bytes seen text) (is_retired m.status) e)))
        | inr f ↦ rw (e, f) (seen_unmet (text ∷ seen) ms t (rw f h))
      ]
    ]

no_repeat :
    (seen : List Bytes) (ms : List Memory) → has_repeat (texts (first_of_each seen ms)) ≡ false
unfolding first_of_each texts
no_repeat seen [] = refl
no_repeat seen (m ∷ ms) =
    let text = normalize m.content in
    elim (Bool-cases (has_bytes seen text || is_retired m.status)) [
      | inl e ↦ rw e (no_repeat seen ms)
      | inr e ↦ rw e (
          or_false _ _ (seen_unmet (text ∷ seen) ms text (rw (bytes_eq_refl text) refl))
            (no_repeat (text ∷ seen) ms))
    ]

-- No two memories that are left have the same normalized text.
deduplicate_for_context-Distinct :
    (ms : List Memory) → has_repeat (texts (deduplicate_for_context ms)) ≡ false
unfolding deduplicate_for_context
deduplicate_for_context-Distinct ms = no_repeat [] ms

module _ (m : Memory) (live : is_retired m.status ≡ false) where
  met :
      (seen : List Bytes) (ms : List Memory)
      → Memᴰ m ms
      → (has_bytes seen (normalize m.content)
          || has_bytes (texts (first_of_each seen ms)) (normalize m.content))
        ≡ true
  unfolding first_of_each texts
  met seen [] h = absurd (Memᴰ.not-nil h)
  met seen (x ∷ ms) h =
      let text = normalize x.content in
      elim (Bool-cases (has_bytes seen text || is_retired x.status)) [
        | inl e ↦ rw e (
            ⊎_elim
              (λ i.
                let both =
                  subst
                    (λ (y : Memory).
                      (has_bytes seen (normalize y.content) || is_retired y.status) ≡ true)
                    (sym i) e in
                let was_seen =
                  or_of_left (has_bytes seen (normalize m.content)) (is_retired m.status) both
                    live in
                ground (arith, was_seen))
              (met seen ms) (Memᴰ.cases_cons h))
        | inr e ↦ rw e (
            or_swap (has_bytes seen (normalize m.content)) (bytes_eq (normalize m.content) text) _ (
              ⊎_elim
                (λ i.
                  let same =
                    subst
                      (λ (y : Memory). bytes_eq (normalize m.content) (normalize y.content) ≡ true)
                      i (bytes_eq_refl (normalize m.content)) in
                  ground (arith, same))
                (met (text ∷ seen) ms) (Memᴰ.cases_cons h)))
      ]

-- How often a text occurs.
abbrev pub occurrences : List Bytes → Bytes → ℕ
occurrences [] t = 0
occurrences (s ∷ ss) t = (if bytes_eq t s then 1 else 0) + occurrences ss t

occurrences_none : (ss : List Bytes) (t : Bytes) → has_bytes ss t ≡ false → occurrences ss t ≡ 0
occurrences_none [] t h = refl
occurrences_none (s ∷ ss) t h = ground (arith, occurrences_none ss t)

occurrences_one :
    (ss : List Bytes) (t : Bytes)
    → has_repeat ss ≡ false
    → has_bytes ss t ≡ true
    → occurrences ss t ≡ 1
occurrences_one [] t r h = absurd (cc h)
occurrences_one (s ∷ ss) t r h = elim (Bool-cases (bytes_eq t s)) [
  | inl e ↦
      let gone =
        subst (λ u. has_bytes ss u ≡ false) (sym ((bytes_eq_iff t s).0 e))
          (or_left (has_bytes ss s) (has_repeat ss) r) in
      rw (e, occurrences_none ss t gone) refl
  | inr e ↦
      let rest = occurrences_one ss t (or_right (has_bytes ss s) (has_repeat ss) r) (rw e at h) in
      rw e (omega (arith, rest))
]

-- The text of every memory that is not retired occurs once in what is left.
pub deduplicate_for_context-once :
    (ms : List Memory) (m : Memory)
    → Memᴰ m ms
    → is_retired m.status ≡ false
    → occurrences (texts (deduplicate_for_context ms)) (normalize m.content) ≡ 1
unfolding deduplicate_for_context
deduplicate_for_context-once ms m h live =
    occurrences_one (texts (first_of_each [] ms)) (normalize m.content) (no_repeat [] ms)
      (met m live [] ms h)
