-- ===== src/Memory/Handle/Place.antt =====
-- Which rows the handlers of backend/internal/memory/service.go touch.
use open_agent_showcase.Common.{
  ℕ, String, Option, none, some, List, [], ◌∷◌, ◌++◌, true, not, ◌==◌, ==_refl, eq_refl,
  if◌then◌else◌, keep, Bytes, ◌≡◌, refl, ap, subst, Bool-cases, inl, inr,
}
use open_agent_showcase.Memory.Fraction.{Fraction, larger}
use open_agent_showcase.Memory.Text.{normalize, choose_stronger}
use open_agent_showcase.Memory.Store.{
  Memory, Store, Input, Setting, same_id, is_in_place, find_memory, update_memory, checked_update,
  update_unless_taken, with_version, new_memory, is_taken,
}
use open_agent_showcase.Memory.Handle.{
  reinforce_confidence, merge_change, confirm, after_confirm, merge_with, handle_merge,
}

-- The rows of other places.
abbrev pub elsewhere : Input → List Memory → List Memory
elsewhere in' rows = keep (λ m. not (is_in_place in' m)) rows

-- Only rows of the place have the identifier.
abbrev pub Owned : Input → ℕ → List Memory → Type 0
Owned in' id [] = Unit
Owned in' id (m ∷ rows) = ((m.id == id) ≡ true → is_in_place in' m ≡ true) × Owned in' id rows

-- The rows of other places are kept.
abbrev pub Kept : Input → List Memory → List Memory → Type 0
Kept in' rows after = elsewhere in' after ≡ elsewhere in' rows

-- A change that keeps the identifier and the place.
unfoldable pub StaysIn : Input → (Memory → Memory) → Type 0
StaysIn in' f = (m : Memory) → ((f m).id ≡ m.id) × (is_in_place in' (f m) ≡ is_in_place in' m)

pub update_memory-Kept :
    (in' : Input) (id : ℕ) (f : Memory → Memory) (rows : List Memory)
    → StaysIn in' f
    → Owned in' id rows
    → Kept in' rows (update_memory id f rows)
unfolding update_memory StaysIn
update_memory-Kept in' id f [] s o = refl
update_memory-Kept in' id f (m ∷ rows) s o = elim (Bool-cases (m.id == id)) [
  | inl e ↦ rw (e, (s m).1, o.0 e) (update_memory-Kept in' id f rows s o.1)
  | inr e ↦ rw e (
      ap (λ rest. if not (is_in_place in' m) then m ∷ rest else rest)
        (update_memory-Kept in' id f rows s o.1))
]

pub update_memory-Owned :
    (in' : Input) (id k : ℕ) (f : Memory → Memory) (rows : List Memory)
    → StaysIn in' f
    → Owned in' k rows
    → Owned in' k (update_memory id f rows)
unfolding update_memory StaysIn
update_memory-Owned in' id k f [] s o = tt
update_memory-Owned in' id k f (m ∷ rows) s o = elim (Bool-cases (m.id == id)) [
  | inl e ↦
      rw e (λ h. rw (s m).1 (o.0 (rw (s m).0 at h)), update_memory-Owned in' id k f rows s o.1)
  | inr e ↦ rw e (o.0, update_memory-Owned in' id k f rows s o.1)
]

pub snoc-Kept :
    (in' : Input) (rows : List Memory) (m : Memory)
    → is_in_place in' m ≡ true
    → Kept in' rows (rows ++ m ∷ [])
snoc-Kept in' [] m h = rw h refl
snoc-Kept in' (k ∷ rows) m h =
    ap (λ rest. if not (is_in_place in' k) then k ∷ rest else rest) (snoc-Kept in' rows m h)

pub snoc-Owned :
    (in' : Input) (id : ℕ) (rows : List Memory) (m : Memory)
    → is_in_place in' m ≡ true
    → Owned in' id rows
    → Owned in' id (rows ++ m ∷ [])
snoc-Owned in' id [] m h o = (λ e. h, tt)
snoc-Owned in' id (k ∷ rows) m h o = (o.0, snoc-Owned in' id rows m h o.1)

same_id_refl : (o : Option ℕ) → same_id o o ≡ true
same_id_refl none = refl
same_id_refl (some a) = ==_refl a

pub new_memory-in_place :
    (set : Setting) (in' : Input) (hash : ℕ) (status : String) (content : Bytes)
    → is_in_place in' (new_memory set in' hash status content) ≡ true
unfolding is_in_place new_memory
new_memory-in_place set in' hash status content =
    rw
      (
        ==_refl in'.org,
        eq_refl in'.scope,
        same_id_refl in'.agent,
        same_id_refl in'.project,
        same_id_refl in'.conversation,
        same_id_refl in'.task,
      )
      refl

confirm-StaysIn :
    (set : Setting) (in' : Input) (content : Bytes) (hash : ℕ) (importance confidence : Fraction)
    → StaysIn in' (confirm set content hash importance confidence)
unfolding StaysIn confirm is_in_place
confirm-StaysIn set in' content hash importance confidence m = (refl, refl)

pub of_some {ℓ} : {A : Type ℓ} {x y : A} → some x ≡ some y → x ≡ y
of_some h = cc h

update_unless_taken-Kept :
    (in' : Input) (id : ℕ) (f : Memory → Memory) (rows after : List Memory) (o : Option Memory)
    → StaysIn in' f
    → Owned in' id rows
    → update_unless_taken id f rows o ≡ some after
    → Kept in' rows after
unfolding update_unless_taken
update_unless_taken-Kept in' id f rows after none s o h = subst (Kept in' rows) (of_some h) refl
update_unless_taken-Kept in' id f rows after (some m) s o h =
    elim (Bool-cases (is_taken rows (f m))) [
      | inl t ↦ absurd (cc (rw t at h))
      | inr t ↦ subst (Kept in' rows) (of_some (rw t at h)) (update_memory-Kept in' id f rows s o)
    ]

pub after_confirm-Kept :
    (in' : Input) (reason : String) (id : ℕ) (st : Store) (o : Option (List Memory))
    → ((after : List Memory) → o ≡ some after → Kept in' st.memories after)
    → Kept in' st.memories (after_confirm reason id st o).0.memories
unfolding after_confirm
after_confirm-Kept in' reason id st none h = refl
after_confirm-Kept in' reason id st (some rows) h = h rows refl

-- The input that a merge is given may have another text than the one that is placed, `base`.
module _ (set : Setting) (in' base : Input) (m : Memory) (st : Store)
    (owned : Owned base m.id st.memories) where
  pub merge_with-Kept :
      (confidence : Fraction) (note reason : String)
      → Kept base st.memories (merge_with set in' m confidence note reason st).0.memories
  unfolding merge_with checked_update merge_change
  merge_with-Kept confidence note reason =
      after_confirm-Kept base reason m.id (with_version m note st)
        (checked_update m.id (merge_change set in' m confidence) st.memories)
        λ after h.
          update_unless_taken-Kept base m.id (merge_change set in' m confidence) st.memories after
            (find_memory st.memories m.id)
            (confirm-StaysIn set base (choose_stronger m.content in'.content)
              (set.hash (normalize (choose_stronger m.content in'.content)))
              (larger m.importance in'.importance) confidence)
            owned h

  pub handle_merge-Kept :
      (found : Fraction) → Kept base st.memories (handle_merge set in' m found st).0.memories
  unfolding handle_merge
  handle_merge-Kept found =
      merge_with-Kept (larger (reinforce_confidence m.confidence in'.source) found) "semantic merge"
        "semantic duplicate merged"
