-- ===== src/Memory/Consolidate/Stored.antt =====
-- That the handlers of backend/internal/memory/service.go, where they create a memory, leave its row.
use open_agent_showcase.Common.{
  ℕ, String, Option, none, some, List, [], ◌∷◌, ◌++◌, Bool, true, ◌&&◌, ==_refl, any, find, take,
  trim_space, Result, ok, err, ◌≡◌, refl, ◌∙◌, subst, arith, Bool-cases, inl, inr,
}
use open_agent_showcase.Memory.Fraction.{Fraction, over, percent, below, at_most, larger}
use open_agent_showcase.Memory.Text.{choose_stronger}
use open_agent_showcase.Memory.Store.{
  Memory, Store, Input, Setting, is_in_place, update_memory, checked_update, or_half, with_version,
  new_memory, Inserted, taken, failed, row, insert_memory,
}
use open_agent_showcase.Memory.Handle.{
  Output, Outcome, created, merged, updated, conflict, rejected, reinforce_confidence, merge_change,
  after_confirm, merge_with, handle_merge, max_content, has_hash, reuse, after_creation,
  create_new_memory, supersede, after_update, handle_update, in_conflict, is_explicit,
  after_conflict, handle_contradiction,
}
use open_agent_showcase.Memory.Handle.Place.{new_memory-in_place}
use open_agent_showcase.Memory.Handle.Isolated.{insert_memory-row}
use open_agent_showcase.Memory.Consolidate.{is_exact}

-- A result that is created leaves a live row of the place with the hash.
unfoldable pub Stored : Input → ℕ → Store × Result Output → Type 0
Stored in' hash r =
    (out : Output)
    → r.1 ≡ ok out
    → out.outcome ≡ created
    → any (is_exact in' hash) r.0.memories ≡ true

pub same_outcome : {x y : Output} → ok x ≡ ok y → x.outcome ≡ y.outcome
same_outcome h = cc h

-- Other outcomes.
unfoldable pub IsOther : (o : Outcome) → Type 0
IsOther o = o ≡ created → ⊥

other_Stored :
    (in' : Input) (hash : ℕ) (st : Store) (x : Output)
    → IsOther x.outcome
    → Stored in' hash (st, ok x)
unfolding Stored IsOther
other_Stored in' hash st x o out h k = absurd (o (same_outcome h ∙ k))

error_Stored : (in' : Input) (hash : ℕ) (st : Store) (e : String) → Stored in' hash (st, err e)
unfolding Stored
error_Stored in' hash st e out h k = absurd (cc h)

merged-IsOther : IsOther merged
unfolding IsOther
merged-IsOther h = cc h

updated-IsOther : IsOther updated
unfolding IsOther
updated-IsOther h = cc h

conflict-IsOther : IsOther conflict
unfolding IsOther
conflict-IsOther h = cc h

pub rejected-IsOther : IsOther rejected
unfolding IsOther
rejected-IsOther h = cc h

any-snoc :
    (p : Memory → Bool) (rows : List Memory) (m : Memory)
    → p m ≡ true
    → any p (rows ++ m ∷ []) ≡ true
any-snoc p [] m h = ground (arith, h)
any-snoc p (k ∷ rows) m h = let rest = any-snoc p rows m h in ground (arith, rest)

module _ (set : Setting) (in' : Input) (hash : ℕ) where
  after_confirm-Stored :
      (reason : String) (id : ℕ) (st : Store) (o : Option (List Memory))
      → Stored in' hash (after_confirm reason id st o)
  unfolding after_confirm
  after_confirm-Stored reason id st none = error_Stored in' hash st "duplicate key"
  after_confirm-Stored reason id st (some rows) =
      other_Stored in' hash (record st { memories = rows }) _ merged-IsOther

  -- The text that is merged may be another one.
  pub merge_with-Stored :
      (in2 : Input) (m : Memory) (confidence : Fraction) (note reason : String) (st : Store)
      → Stored in' hash (merge_with set in2 m confidence note reason st)
  unfolding merge_with
  merge_with-Stored in2 m confidence note reason st =
      after_confirm-Stored reason m.id (with_version m note st)
        (checked_update m.id (merge_change set in2 m confidence) st.memories)

  pub handle_merge-Stored :
      (in2 : Input) (m : Memory) (found : Fraction) (st : Store)
      → Stored in' hash (handle_merge set in2 m found st)
  unfolding handle_merge
  handle_merge-Stored in2 m found st =
      merge_with-Stored in2 m (larger (reinforce_confidence m.confidence in2.source) found)
        "semantic merge" "semantic duplicate merged" st

  reuse-Stored : (st : Store) (o : Option Memory) → Stored in' hash (reuse st o)
  unfolding reuse
  reuse-Stored st none = error_Stored in' hash st "duplicate key"
  reuse-Stored st (some m) = other_Stored in' hash st _ merged-IsOther

  after_creation-Stored :
      (st : Store) (o : Inserted)
      → ((m : Memory) → o ≡ row m → is_exact in' hash m ≡ true)
      → Stored in' hash (after_creation set in' hash st o)
  unfolding after_creation
  after_creation-Stored st failed p = error_Stored in' hash st "insert failed"
  after_creation-Stored st taken p = reuse-Stored st (find (has_hash in' hash) st.memories)
  after_creation-Stored st (row m) p =
      unfold Stored in
      λ out h k. any-snoc (is_exact in' hash) st.memories _ (unfold is_in_place in p m refl)

  new_memory-is_exact :
      (content : _) → is_exact in' hash (new_memory set in' hash "active" content) ≡ true
  new_memory-is_exact content =
      rw (new_memory-in_place set in' hash "active" content)
        (unfold new_memory in rw (==_refl hash) refl)

  pub create_new_memory-Stored : (st : Store) → Stored in' hash (create_new_memory set in' hash st)
  unfolding create_new_memory
  create_new_memory-Stored st =
      let m = new_memory set in' hash "active" (take max_content (trim_space in'.content)) in
      after_creation-Stored st (insert_memory set m st) (λ k e.
        subst (λ x. is_exact in' hash x ≡ true) (insert_memory-row set m k st e)
          (new_memory-is_exact (take max_content (trim_space in'.content))))

  after_update-Stored :
      (m : Memory) (st : Store) (o : Inserted) → Stored in' hash (after_update set in' m st o)
  unfolding after_update
  after_update-Stored m st taken = handle_merge-Stored in' m (over 0 1) st
  after_update-Stored m st failed = handle_merge-Stored in' m (over 0 1) st
  after_update-Stored m st (row new) = other_Stored in' hash _ _ updated-IsOther

  pub handle_update-Stored :
      (m : Memory) (st : Store) → Stored in' hash (handle_update set in' m hash st)
  unfolding handle_update
  handle_update-Stored m st =
      let st2 : Store = record (with_version m "superseded by update" st) {
        memories = supersede set.link_id m.id st.memories;
      } in
      after_update-Stored m st2 (
        insert_memory set (new_memory set in' hash "active" (choose_stronger m.content in'.content))
          st2)

  after_conflict-Stored :
      (m : Memory) (st : Store) (o : Inserted) → Stored in' hash (after_conflict m st o)
  unfolding after_conflict
  after_conflict-Stored m st taken = error_Stored in' hash st "duplicate key"
  after_conflict-Stored m st failed = error_Stored in' hash st "insert failed"
  after_conflict-Stored m st (row new) = other_Stored in' hash _ _ conflict-IsOther

  pub handle_contradiction-Stored :
      (m : Memory) (st : Store) → Stored in' hash (handle_contradiction set in' m hash st)
  unfolding handle_contradiction
  handle_contradiction-Stored m st =
      elim (Bool-cases (
        is_explicit in'.source
        && (at_most (percent 90) (or_half in'.confidence) && below m.confidence (percent 80)))) [
          | inl e ↦ rw e (handle_update-Stored m st)
          | inr e ↦
              let st1 : Store =
                with_version m "conflict detected"
                  (record st { memories = update_memory m.id (in_conflict set.now) st.memories }) in
              rw e (
                after_conflict-Stored m st1
                  (insert_memory set (new_memory set in' hash "conflict" in'.content) st1))
        ]
