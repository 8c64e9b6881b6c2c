-- ===== src/Memory/Consolidate/Created.antt =====
-- What Consolidate of backend/internal/memory/service.go leaves where it answers that a memory was
-- created.
use open_agent_showcase.Common.{
  ℕ, String, Option, none, some, List, [], ◌∷◌, true, str_eq, any, Result, ok, ◌≡◌, refl, ◌∙◌,
  Bool-cases, inl, inr,
}
use open_agent_showcase.Memory.Fraction.{Fraction}
use open_agent_showcase.Memory.Text.{normalize}
use open_agent_showcase.Memory.Similar.{classify_relationship}
use open_agent_showcase.Memory.Store.{Memory, Store, Input, Reply, Setting, find_memory}
use open_agent_showcase.Memory.Handle.{
  Output, created, reinforce_confidence, after_read, handle_exact_duplicate,
}
use open_agent_showcase.Memory.Consolidate.{
  accepted, with_text, after_query, is_merge, by_reply, by_relation, settle, is_exact, find_exact,
  find_candidates, after_exact, screen, after_screen, consolidate,
}
use open_agent_showcase.Memory.Consolidate.Stored.{
  Stored, IsOther, same_outcome, rejected-IsOther, merge_with-Stored, handle_merge-Stored,
  create_new_memory-Stored, handle_update-Stored, handle_contradiction-Stored,
}

module _ (set : Setting) (in' : Input) (hash : ℕ) where
  module _ (m : Memory) (st : Store) (rest : Store × Result Output)
      (stored : Stored in' hash rest) where
    by_reply-Stored : (o : Option Reply) → Stored in' hash (by_reply set in' hash m st rest o)
    unfolding by_reply
    by_reply-Stored none = stored
    by_reply-Stored (some r) = elim (Bool-cases (is_merge r.relationship)) [
      | inl e ↦ rw e (handle_merge-Stored set in' hash (with_text r in') m r.confidence st)
      | inr e ↦ elim (Bool-cases (str_eq r.relationship "contradiction")) [
        | inl f ↦ rw (e, f) (handle_contradiction-Stored set in' hash m st)
        | inr f ↦ elim (Bool-cases (str_eq r.relationship "update")) [
          | inl g ↦ rw (e, f, g) (handle_update-Stored set in' hash m st)
          | inr g ↦ rw (e, f, g) stored
        ]
      ]
    ]

    by_relation-Stored :
        (rel : String) (found : Fraction)
        → Stored in' hash (by_relation set in' hash m st rest (rel, found))
    unfolding by_relation
    by_relation-Stored rel found = elim (Bool-cases (is_merge rel)) [
      | inl e ↦ rw e (handle_merge-Stored set in' hash in' m found st)
      | inr e ↦ elim (Bool-cases (str_eq rel "contradiction")) [
        | inl f ↦ rw (e, f) (handle_contradiction-Stored set in' hash m st)
        | inr f ↦ elim (Bool-cases (str_eq rel "update")) [
          | inl g ↦ rw (e, f, g) (handle_update-Stored set in' hash m st)
          | inr g ↦ elim (Bool-cases (str_eq rel "ambiguous")) [
            | inl i ↦ rw (e, f, g, i) (by_reply-Stored (accepted (set.model m.content in'.content)))
            | inr i ↦ rw (e, f, g, i) stored
          ]
        ]
      ]
    ]

  settle-Stored : (ms : List Memory) (st : Store) → Stored in' hash (settle set in' hash ms st)
  unfolding settle
  settle-Stored [] st = create_new_memory-Stored set in' hash st
  settle-Stored (m ∷ ms) st =
      let (rel, found) = classify_relationship m.content in'.content in
      by_relation-Stored m st (settle set in' hash ms st) (settle-Stored ms st) rel found

  after_read-Stored :
      (st : Store) (o : Option Memory) → Stored in' hash (after_read set in' hash st o)
  unfolding after_read
  after_read-Stored st none = create_new_memory-Stored set in' hash st
  after_read-Stored st (some m) =
      merge_with-Stored set in' hash in' m (reinforce_confidence m.confidence in'.source)
        "reinforce duplicate" "exact duplicate reinforced" st

  after_exact-Stored :
      (st : Store) (o : Option Memory) → Stored in' hash (after_exact set in' hash st o)
  unfolding after_exact handle_exact_duplicate
  after_exact-Stored st (some m) = after_read-Stored st (find_memory st.memories m.id)
  after_exact-Stored st none =
      settle-Stored (after_query set.query_fails (find_candidates set in' st)) st

-- Where a memory was created, the input was not screened out, and a live row of the place has its hash.
pub consolidate-created :
    (set : Setting) (in' : Input) (st : Store) (out : Output)
    → (consolidate set in' st).1 ≡ ok out
    → out.outcome ≡ created
    → (screen in' ≡ none)
      × (any (is_exact in' (set.hash (normalize in'.content))) (consolidate set in' st).0.memories
          ≡ true)
unfolding consolidate after_screen Stored IsOther
consolidate-created set in' st out h k = by_screen (screen in') h
  where
    by_screen :
        (o : Option String)
        → (after_screen set in' st o).1 ≡ ok out
        → (o ≡ none)
          × (any
                (is_exact in' (set.hash (normalize in'.content)))
                (after_screen set in' st o).0.memories
              ≡ true)
    by_screen (some reason) h = absurd (rejected-IsOther (same_outcome h ∙ k))
    by_screen none h =
        let hash = set.hash (normalize in'.content) in
        (refl, after_exact-Stored set in' hash st (find_exact in' hash st.memories) out h k)
