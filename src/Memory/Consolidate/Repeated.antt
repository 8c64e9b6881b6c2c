-- ===== src/Memory/Consolidate/Repeated.antt =====
-- That Consolidate of backend/internal/memory/service.go adds no row for a text that is there.
use open_agent_showcase.Common.{
  ℕ, suc, String, Option, none, some, List, [], ◌∷◌, Bool, true, ◌==◌, any, find, length, find-Memᴰ,
  ok, ◌≡◌, refl, sym, ap, ◌∙◌, subst, Bool-cases, inl, inr,
}
use open_agent_showcase.Memory.Fraction.{Fraction}
use open_agent_showcase.Memory.Text.{normalize}
use open_agent_showcase.Memory.Store.{
  Memory, Store, Input, Setting, is_taken, find_memory, update_memory, update_unless_taken,
  checked_update, with_version,
}
use open_agent_showcase.Memory.Handle.{
  Output, created, reinforce_confidence, merge_change, after_confirm, merge_with, after_read,
  handle_exact_duplicate,
}
use open_agent_showcase.Memory.Handle.Place.{of_some}
use open_agent_showcase.Memory.Consolidate.{
  is_exact, find_exact, after_exact, screen, after_screen, consolidate,
}
use open_agent_showcase.Memory.Consolidate.Isolation.{present}
use open_agent_showcase.Memory.Consolidate.Created.{consolidate-created}

length-update_memory :
    (id : ℕ) (f : Memory → Memory) (rows : List Memory)
    → length (update_memory id f rows) ≡ length rows
unfolding update_memory
length-update_memory id f [] = refl
length-update_memory id f (m ∷ rows) = ap suc (length-update_memory id f rows)

length-update_unless_taken :
    (id : ℕ) (f : Memory → Memory) (rows after : List Memory) (o : Option Memory)
    → update_unless_taken id f rows o ≡ some after
    → length after ≡ length rows
unfolding update_unless_taken
length-update_unless_taken id f rows after none h = sym (ap length (of_some h))
length-update_unless_taken id f rows after (some m) h = elim (Bool-cases (is_taken rows (f m))) [
  | inl t ↦ absurd (cc (rw t at h))
  | inr t ↦ sym (ap length (of_some (rw t at h))) ∙ length-update_memory id f rows
]

length-after_confirm :
    (reason : String) (id : ℕ) (st : Store) (o : Option (List Memory))
    → ((after : List Memory) → o ≡ some after → length after ≡ length st.memories)
    → length (after_confirm reason id st o).0.memories ≡ length st.memories
unfolding after_confirm
length-after_confirm reason id st none h = refl
length-after_confirm reason id st (some rows) h = h rows refl

length-merge_with :
    (set : Setting) (in' : Input) (m : Memory) (confidence : Fraction) (note reason : String)
    (st : Store)
    → length (merge_with set in' m confidence note reason st).0.memories ≡ length st.memories
unfolding merge_with checked_update
length-merge_with set in' m confidence note reason st =
    length-after_confirm reason m.id (with_version m note st)
      (checked_update m.id (merge_change set in' m confidence) st.memories)
      λ after h.
        length-update_unless_taken m.id (merge_change set in' m confidence) st.memories after
          (find_memory st.memories m.id) h

-- What is there is found.
found :
    (p : Memory → Bool) (rows : List Memory)
    → any p rows ≡ true
    → (m : Memory) × (find p rows ≡ some m)
found p [] h = absurd (cc h)
found p (m ∷ rows) h = elim (Bool-cases (p m)) [
  | inl e ↦ (m, rw e refl)
  | inr e ↦ let (k, f) = found p rows (rw e at h) in (k, rw e f)
]

length-after_exact :
    (set : Setting) (in' : Input) (hash : ℕ) (st : Store)
    → any (is_exact in' hash) st.memories ≡ true
    → length (after_exact set in' hash st (find_exact in' hash st.memories)).0.memories
      ≡ length st.memories
unfolding after_exact handle_exact_duplicate after_read
length-after_exact set in' hash st h =
    let (m, e) = found (is_exact in' hash) st.memories h in
    let (i, q) = find-Memᴰ (is_exact in' hash) m st.memories e in
    let (k, f) = found (λ (x : Memory). x.id == m.id) st.memories (present m st.memories i) in
    rw (e, f)
      (length-merge_with set in' k (reinforce_confidence k.confidence in'.source)
        "reinforce duplicate" "exact duplicate reinforced" st)

length-consolidate :
    (set : Setting) (in' : Input) (st : Store)
    → screen in' ≡ none
    → any (is_exact in' (set.hash (normalize in'.content))) st.memories ≡ true
    → length (consolidate set in' st).0.memories ≡ length st.memories
unfolding consolidate after_screen
length-consolidate set in' st passed stored =
    rw passed (length-after_exact set in' (set.hash (normalize in'.content)) st stored)

-- After a call that creates a memory, a second one with the same input, at any time and with whatever
-- identifiers, candidates and model, adds no row; both have the same hash.
pub consolidate_again :
    (set set2 : Setting) (in' : Input) (st : Store) (out : Output)
    → (consolidate set in' st).1 ≡ ok out
    → out.outcome ≡ created
    → set2.hash (normalize in'.content) ≡ set.hash (normalize in'.content)
    → let after = (consolidate set in' st).0 in
      length (consolidate set2 in' after).0.memories ≡ length after.memories
consolidate_again set set2 in' st out h k same =
    let after = (consolidate set in' st).0 in
    let (passed, stored) = consolidate-created set in' st out h k in
    length-consolidate set2 in' after passed
      (subst (λ n. any (is_exact in' n) after.memories ≡ true) (sym same) stored)
