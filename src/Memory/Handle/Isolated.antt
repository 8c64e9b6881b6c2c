-- ===== src/Memory/Handle/Isolated.antt =====
-- That the handlers of backend/internal/memory/service.go keep the rows of other places.
use open_agent_showcase.Common.{
  ℕ, String, Option, none, some, List, [], ◌∷◌, ◌++◌, true, ◌&&◌, ◌==◌, any, find, take, trim_space,
  Bytes, ◌≡◌, refl, ◌∙◌, subst, Bool-cases, inl, inr,
}
use open_agent_showcase.Memory.Fraction.{over, percent, below, at_most}
use open_agent_showcase.Memory.Text.{choose_stronger}
use open_agent_showcase.Memory.Store.{
  Memory, Store, Input, Setting, is_in_place, update_memory, or_half, with_version, new_memory,
  Inserted, taken, failed, row, insert_memory, is_taken,
}
use open_agent_showcase.Memory.Handle.{
  reuse, has_hash, max_content, after_creation, create_new_memory, superseded, linked, supersede,
  after_update, handle_update, in_conflict, is_explicit, after_conflict, handle_contradiction,
}
use open_agent_showcase.Memory.Handle.Place.{
  Owned, Kept, StaysIn, update_memory-Kept, update_memory-Owned, snoc-Kept, snoc-Owned,
  new_memory-in_place, handle_merge-Kept,
}

-- What is inserted is the row that was to be.
pub insert_memory-row :
    (set : Setting) (m k : Memory) (st : Store) → insert_memory set m st ≡ row k → m ≡ k
unfolding insert_memory
insert_memory-row set m k st h = elim (Bool-cases set.insert_fails) [
  | inl e ↦ absurd (cc (rw e at h))
  | inr e ↦ elim (Bool-cases (is_taken st.memories m)) [
    | inl f ↦ absurd (cc (rw (e, f) at h))
    | inr f ↦ of_row (rw (e, f) at h)
  ]
]
  where
    of_row : {x y : Memory} → row x ≡ row y → x ≡ y
    of_row h = cc h

-- Whatever is inserted is in place.
InPlace : Input → Inserted → Type 0
InPlace in' o = (m : Memory) → o ≡ row m → is_in_place in' m ≡ true

inserted-InPlace :
    (set : Setting) (in' : Input) (hash : ℕ) (status : String) (content : Bytes) (st : Store)
    → InPlace in' (insert_memory set (new_memory set in' hash status content) st)
unfolding InPlace
inserted-InPlace set in' hash status content st m h =
    subst (λ k. is_in_place in' k ≡ true)
      (insert_memory-row set (new_memory set in' hash status content) m st h)
      (new_memory-in_place set in' hash status content)

module _ (set : Setting) (in' : Input) (hash : ℕ) where
  reuse-Kept : (st : Store) (o : Option Memory) → Kept in' st.memories (reuse st o).0.memories
  unfolding reuse
  reuse-Kept st none = refl
  reuse-Kept st (some m) = refl

  after_creation-Kept :
      (st : Store) (o : Inserted)
      → InPlace in' o
      → Kept in' st.memories (after_creation set in' hash st o).0.memories
  unfolding after_creation InPlace
  after_creation-Kept st failed p = refl
  after_creation-Kept st taken p = reuse-Kept st (find (has_hash in' hash) st.memories)
  after_creation-Kept st (row m) p = snoc-Kept in' st.memories _ (unfold is_in_place in p m refl)

  pub create_new_memory-Kept :
      (st : Store) → Kept in' st.memories (create_new_memory set in' hash st).0.memories
  unfolding create_new_memory
  create_new_memory-Kept st =
      after_creation-Kept st _
        (inserted-InPlace set in' hash "active" (take max_content (trim_space in'.content)) st)

  superseded-StaysIn : (link : ℕ) → StaysIn in' (superseded link)
  unfolding StaysIn superseded is_in_place
  superseded-StaysIn link m = (refl, refl)

  linked-StaysIn : (id : ℕ) → StaysIn in' (linked id)
  unfolding StaysIn linked is_in_place
  linked-StaysIn id m = (refl, refl)

  in_conflict-StaysIn : (now : ℕ) → StaysIn in' (in_conflict now)
  unfolding StaysIn in_conflict is_in_place
  in_conflict-StaysIn now m = (refl, refl)

  supersede-Kept :
      (link id : ℕ) (rows : List Memory)
      → Owned in' id rows
      → Kept in' rows (supersede link id rows) × Owned in' id (supersede link id rows)
  unfolding supersede
  supersede-Kept link id rows o = elim (Bool-cases (any (λ (m : Memory). m.id == link) rows)) [
    | inl e ↦ rw e (
      update_memory-Kept in' id (superseded link) rows (superseded-StaysIn link) o,
      update_memory-Owned in' id id (superseded link) rows (superseded-StaysIn link) o,
    )
    | inr e ↦ rw e (refl, o)
  ]

  module _ (m : Memory) where
    after_update-Kept :
        (st : Store) (o : Inserted)
        → InPlace in' o
        → Owned in' m.id st.memories
        → Kept in' st.memories (after_update set in' m st o).0.memories
    unfolding after_update InPlace
    after_update-Kept st taken p owned = handle_merge-Kept set in' in' m st owned (over 0 1)
    after_update-Kept st failed p owned = handle_merge-Kept set in' in' m st owned (over 0 1)
    after_update-Kept st (row new) p owned =
        update_memory-Kept in' m.id (linked new.id) (st.memories ++ new ∷ [])
          (linked-StaysIn new.id) (snoc-Owned in' m.id st.memories new (p new refl) owned)
        ∙ snoc-Kept in' st.memories new (p new refl)

    pub handle_update-Kept :
        (st : Store)
        → Owned in' m.id st.memories
        → Kept in' st.memories (handle_update set in' m hash st).0.memories
    unfolding handle_update
    handle_update-Kept st owned =
        let (kept, owned') = supersede-Kept set.link_id m.id st.memories owned in
        let st2 : Store = record (with_version m "superseded by update" st) {
          memories = supersede set.link_id m.id st.memories;
        } in
        after_update-Kept st2 _
          (inserted-InPlace set in' hash "active" (choose_stronger m.content in'.content) st2)
          owned'
        ∙ kept

    after_conflict-Kept :
        (st : Store) (o : Inserted)
        → InPlace in' o
        → Kept in' st.memories (after_conflict m st o).0.memories
    unfolding after_conflict InPlace
    after_conflict-Kept st taken p = refl
    after_conflict-Kept st failed p = refl
    after_conflict-Kept st (row new) p = snoc-Kept in' st.memories new (p new refl)

    pub handle_contradiction-Kept :
        (st : Store)
        → Owned in' m.id st.memories
        → Kept in' st.memories (handle_contradiction set in' m hash st).0.memories
    unfolding handle_contradiction
    handle_contradiction-Kept st owned =
        elim (Bool-cases (
          is_explicit in'.source
          && (at_most (percent 90) (or_half in'.confidence) && below m.confidence (percent 80)))) [
            | inl e ↦ rw e (handle_update-Kept st owned)
            | inr e ↦
                let st1 : Store =
                  with_version m "conflict detected" (record st {
                    memories = update_memory m.id (in_conflict set.now) st.memories;
                  }) in
                rw e (
                  after_conflict-Kept st1 _
                    (inserted-InPlace set in' hash "conflict" in'.content st1)
                  ∙ update_memory-Kept in' m.id (in_conflict set.now) st.memories
                      (in_conflict-StaysIn set.now) owned)
          ]
