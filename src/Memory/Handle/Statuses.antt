-- ===== src/Memory/Handle/Statuses.antt =====
-- The statuses of the rows after handleUpdate of backend/internal/memory/service.go.
use open_agent_showcase.Common.{
  ℕ, String, Option, none, some, List, [], ◌∷◌, ◌++◌, false, ◌==◌, any, ◌≡◌, refl, ap, ◌∙◌, subst,
  Bool-cases, inl, inr,
}
use open_agent_showcase.Memory.Fraction.{Fraction, over, larger}
use open_agent_showcase.Memory.Text.{choose_stronger}
use open_agent_showcase.Memory.Store.{
  Memory, Store, Input, Setting, find_memory, update_memory, update_unless_taken, checked_update,
  with_version, new_memory, Inserted, taken, failed, row, insert_memory, is_taken,
}
use open_agent_showcase.Memory.Handle.{
  confirm, after_confirm, merge_change, merge_with, reinforce_confidence, handle_merge, linked,
  supersede, after_update, handle_update,
}
use open_agent_showcase.Memory.Handle.Place.{of_some}

-- The row of an identifier is there, with a status.
HasStatus : ℕ → String → List Memory → Type 0
HasStatus id status rows = (k : Memory) × ((find_memory rows id ≡ some k) × (k.status ≡ status))

update_memory-HasStatus :
    (id j : ℕ) (status : String) (f : Memory → Memory) (rows : List Memory)
    → ((k : Memory) → ((f k).id ≡ k.id) × ((f k).status ≡ k.status))
    → HasStatus id status rows
    → HasStatus id status (update_memory j f rows)
unfolding HasStatus update_memory
update_memory-HasStatus id j status f [] p h = h
update_memory-HasStatus id j status f (m ∷ rows) p (k, (e, s)) = elim (Bool-cases (m.id == id)) [
  | inl g ↦
      let same : m ≡ k = of_some (rw g at e) in
      let status_m = ap (λ (x : Memory). x.status) same ∙ s in
      elim (Bool-cases (m.id == j)) [
        | inl i ↦ rw i (f m, (rw ((p m).0, g) refl, (p m).1 ∙ status_m))
        | inr i ↦ rw i (m, (rw g refl, status_m))
      ]
  | inr g ↦
      let (k', (e', s')) = update_memory-HasStatus id j status f rows p (k, (rw g at e, s)) in
      elim (Bool-cases (m.id == j)) [
        | inl i ↦ rw i (k', (rw ((p m).0, g) e', s'))
        | inr i ↦ rw i (k', (rw g e', s'))
      ]
]

snoc-HasStatus :
    (id : ℕ) (status : String) (rows : List Memory) (m : Memory)
    → HasStatus id status rows
    → HasStatus id status (rows ++ m ∷ [])
unfolding HasStatus
snoc-HasStatus id status [] m (k, (e, s)) = absurd (cc e)
snoc-HasStatus id status (x ∷ rows) m (k, (e, s)) = elim (Bool-cases (x.id == id)) [
  | inl g ↦ (k, (rw g (rw g at e), s))
  | inr g ↦
      let (k', (e', s')) = snoc-HasStatus id status rows m (k, (rw g at e, s)) in
      (k', (rw g e', s'))
]

update_unless_taken-HasStatus :
    (id j : ℕ) (status : String) (f : Memory → Memory) (rows after : List Memory)
    (o : Option Memory)
    → ((k : Memory) → ((f k).id ≡ k.id) × ((f k).status ≡ k.status))
    → HasStatus id status rows
    → update_unless_taken j f rows o ≡ some after
    → HasStatus id status after
unfolding update_unless_taken
update_unless_taken-HasStatus id j status f rows after none p h e =
    subst (HasStatus id status) (of_some e) h
update_unless_taken-HasStatus id j status f rows after (some m) p h e =
    elim (Bool-cases (is_taken rows (f m))) [
      | inl t ↦ absurd (cc (rw t at e))
      | inr t ↦
          subst (HasStatus id status) (of_some (rw t at e))
            (update_memory-HasStatus id j status f rows p h)
    ]

after_confirm-HasStatus :
    (id : ℕ) (status : String) (reason : String) (j : ℕ) (st : Store) (o : Option (List Memory))
    → HasStatus id status st.memories
    → ((after : List Memory) → o ≡ some after → HasStatus id status after)
    → HasStatus id status (after_confirm reason j st o).0.memories
unfolding after_confirm
after_confirm-HasStatus id status reason j st none h p = h
after_confirm-HasStatus id status reason j st (some rows) h p = p rows refl

module _ (set : Setting) (in' : Input) (m : Memory) (id : ℕ) (status : String) where
  handle_merge-HasStatus :
      (found : Fraction) (st : Store)
      → HasStatus id status st.memories
      → HasStatus id status (handle_merge set in' m found st).0.memories
  unfolding handle_merge merge_with checked_update merge_change confirm
  handle_merge-HasStatus found st h =
      after_confirm-HasStatus id status "semantic duplicate merged" m.id
        (with_version m "semantic merge" st)
        (checked_update m.id
          (merge_change set in' m (larger (reinforce_confidence m.confidence in'.source) found))
          st.memories)
        h
        λ after e.
          update_unless_taken-HasStatus id m.id status
            (merge_change set in' m (larger (reinforce_confidence m.confidence in'.source) found))
            st.memories after (find_memory st.memories m.id) (λ k. (refl, refl)) h e

  after_update-HasStatus :
      (st : Store) (o : Inserted)
      → HasStatus id status st.memories
      → HasStatus id status (after_update set in' m st o).0.memories
  unfolding after_update linked
  after_update-HasStatus st taken h = handle_merge-HasStatus (over 0 1) st h
  after_update-HasStatus st failed h = handle_merge-HasStatus (over 0 1) st h
  after_update-HasStatus st (row new) h =
      update_memory-HasStatus id m.id status (linked new.id) (st.memories ++ new ∷ [])
        (λ k. (refl, refl)) (snoc-HasStatus id status st.memories new h)

-- Where no memory has the identifier that handleUpdate makes up for the link, a row that is there keeps
-- its status, also the one that is to be superseded.
pub handle_update-status :
    (set : Setting) (in' : Input) (m : Memory) (hash id : ℕ) (st : Store) (k : Memory)
    → any (λ (x : Memory). x.id == set.link_id) st.memories ≡ false
    → find_memory st.memories id ≡ some k
    → let after = (handle_update set in' m hash st).0.memories in
      (k' : Memory) × ((find_memory after id ≡ some k') × (k'.status ≡ k.status))
unfolding handle_update supersede HasStatus
handle_update-status set in' m hash id st k free found =
    let st2 : Store = with_version m "superseded by update" st in
    let new = new_memory set in' hash "active" (choose_stronger m.content in'.content) in
    rw free (
      after_update-HasStatus set in' m id k.status st2 (insert_memory set new st2)
        (k, (found, refl)))
