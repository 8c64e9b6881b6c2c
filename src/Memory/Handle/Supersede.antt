-- ===== src/Memory/Handle/Supersede.antt =====
-- What becomes of the old row and of the new text in handleUpdate of
-- backend/internal/memory/service.go.
use open_agent_showcase.Common.{
  ℕ, String, Option, none, some, List, false, ltb, trim_space, Bytes, Result, ok, ◌≡◌, refl, sym,
  ap, ◌∙◌, Bool-cases, inl, inr,
}
use open_agent_showcase.Memory.Fraction.{Fraction, over, larger}
use open_agent_showcase.Memory.Text.{is_nothing, score, choose_stronger}
use open_agent_showcase.Memory.Store.{
  Memory, Store, Input, Setting, checked_update, with_version, new_memory, Inserted, taken, failed,
  row, insert_memory,
}
use open_agent_showcase.Memory.Handle.{
  Output, merged, updated, after_confirm, merge_change, merge_with, reinforce_confidence,
  handle_merge, supersede, after_update, handle_update,
}
use open_agent_showcase.Memory.Handle.Isolated.{insert_memory-row}

choose_stronger-old :
    (a b : Bytes)
    → is_nothing (trim_space a) ≡ false
    → ltb (score (trim_space a)) (score (trim_space b)) ≡ false
    → choose_stronger a b ≡ trim_space a
unfolding choose_stronger
choose_stronger-old a b h k = elim (Bool-cases (is_nothing (trim_space b))) [
  | inl e ↦ rw e refl
  | inr e ↦ rw (e, h, k) refl
]

-- A result of an outcome other than an update.
NoUpdate : Result Output → Type 0
NoUpdate r = (o : Output) → r ≡ ok o → o.outcome ≡ updated → ⊥

after_confirm-NoUpdate :
    (reason : String) (id : ℕ) (st : Store) (o : Option (List Memory))
    → NoUpdate (after_confirm reason id st o).1
unfolding after_confirm NoUpdate
after_confirm-NoUpdate reason id st none o h k = cc
after_confirm-NoUpdate reason id st (some rows) o h k = is_merged (of_ok h) refl k
  where
    of_ok : {x y : Output} → ok x ≡ ok y → x ≡ y
    of_ok h = cc h

    is_merged : {x y : Output} → x ≡ y → x.outcome ≡ merged → y.outcome ≡ updated → ⊥
    is_merged e f g = cc (ap (λ (z : Output). z.outcome) e)

handle_merge-NoUpdate :
    (set : Setting) (in' : Input) (m : Memory) (found : Fraction) (st : Store)
    → NoUpdate (handle_merge set in' m found st).1
unfolding handle_merge merge_with
handle_merge-NoUpdate set in' m found st =
    after_confirm-NoUpdate "semantic duplicate merged" m.id (with_version m "semantic merge" st) (
      checked_update m.id
        (merge_change set in' m (larger (reinforce_confidence m.confidence in'.source) found))
        st.memories)

module _ (set : Setting) (in' : Input) (m : Memory) where
  -- A row that an update inserts is the row that it returns.
  after_update-row :
      (P : Memory → Type 0) (st : Store) (o : Inserted)
      → ((k : Memory) → o ≡ row k → P k)
      → (out : Output) → (after_update set in' m st o).1 ≡ ok out
      → out.outcome ≡ updated
      → (new : Memory) × ((out.memory ≡ some new) × P new)
  unfolding after_update NoUpdate
  after_update-row P st taken p out h u =
      absurd (handle_merge-NoUpdate set in' m (over 0 1) st out h u)
  after_update-row P st failed p out h u =
      absurd (handle_merge-NoUpdate set in' m (over 0 1) st out h u)
  after_update-row P st (row new) p out h u = (new, (of_ok h, p new refl))
    where
      of_ok : {x y : Output} → ok x ≡ ok y → y.memory ≡ x.memory
      of_ok h = cc h

  -- An update whose text does not score higher than the old one stores the old text, under the hash of
  -- the new one.
  pub handle_update-text :
      (hash : ℕ) (st : Store) (out : Output)
      → (handle_update set in' m hash st).1 ≡ ok out
      → out.outcome ≡ updated
      → is_nothing (trim_space m.content) ≡ false
      → ltb (score (trim_space m.content)) (score (trim_space in'.content)) ≡ false
      → (new : Memory) × ((out.memory ≡ some new)
          × ((new.content ≡ trim_space m.content) × (new.hash ≡ hash)))
  unfolding handle_update
  handle_update-text hash st out h u f g =
      let text = choose_stronger m.content in'.content in
      let new = new_memory set in' hash "active" text in
      let st2 : Store = record (with_version m "superseded by update" st) {
        memories = supersede set.link_id m.id st.memories;
      } in
      after_update-row (λ k. (k.content ≡ trim_space m.content) × (k.hash ≡ hash)) st2
        (insert_memory set new st2)
        (λ k e.
          let i = insert_memory-row set new k st2 e in
          (
            sym (ap (λ (x : Memory). x.content) i)
                ∙ unfold new_memory in choose_stronger-old m.content in'.content f g,
            sym (ap (λ (x : Memory). x.hash) i) ∙ unfold new_memory in refl,
          ))
        out h u
