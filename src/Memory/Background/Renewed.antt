-- ===== src/Memory/Background/Renewed.antt =====
-- What BackgroundConsolidation of backend/internal/memory/service.go does to the rows, and how many
-- merges it makes.
use open_agent_showcase.Common.{
  ℕ, ◌*◌, ◌≤◌, ◌==◌, String, Option, none, some, List, [], ◌∷◌, false, leb, str_eq, if◌then◌else◌,
  keep, take, Result, ok, err, ◌≡◌, refl, sym, ◌∙◌, subst, ◌⊎◌, arith, Bool-cases, inl, inr,
}
use open_agent_showcase.Memory.Fraction.{over, percent, larger}
use open_agent_showcase.Memory.Store.{
  Memory, Store, Setting, find_memory, update_memory, update_unless_taken, checked_update,
  with_version, is_taken,
}
use open_agent_showcase.Memory.Handle.{
  Output, reinforce_confidence, confirm, after_confirm, merge_change, merge_with, handle_merge,
}
use open_agent_showcase.Memory.Handle.Place.{of_some}
use open_agent_showcase.Memory.Background.{
  is_pair, partial_row, input_of_row, merge_pair, count_merge, merge_into, merge_all,
  background_consolidation,
}

-- A row that is as it was, or has its identifier and status with the importance 0.5 and the confidence
-- 0.8.
abbrev RowRenewed : Memory → Memory → Type 0
RowRenewed m k =
    (k ≡ m)
    ⊎ (((k.id ≡ m.id) × (k.status ≡ m.status))
        × ((k.importance ≡ over 1 2) × (k.confidence ≡ percent 80)))

abbrev pub Renewed : List Memory → List Memory → Type 0
Renewed [] [] = Unit
Renewed [] (k ∷ ks) = ⊥
Renewed (m ∷ ms) [] = ⊥
Renewed (m ∷ ms) (k ∷ ks) = RowRenewed m k × Renewed ms ks

Renewed-refl : (ms : List Memory) → Renewed ms ms
Renewed-refl [] = tt
Renewed-refl (m ∷ ms) = (inl refl, Renewed-refl ms)

row_trans : (a b c : Memory) → RowRenewed a b → RowRenewed b c → RowRenewed a c
row_trans a b c (inl e) h = subst (λ x. RowRenewed x c) e h
row_trans a b c (inr r) (inl e) = inr (
    subst
      (λ (x : Memory).
        ((x.id ≡ a.id) × (x.status ≡ a.status))
        × ((x.importance ≡ over 1 2) × (x.confidence ≡ percent 80)))
      (sym e) r)
row_trans a b c (inr r) (inr s) = inr ((s.0.0 ∙ r.0.0, s.0.1 ∙ r.0.1), s.1)

Renewed-trans : (xs bs cs : List Memory) → Renewed xs bs → Renewed bs cs → Renewed xs cs
Renewed-trans [] [] cs h k = k
Renewed-trans [] (b ∷ bs) cs h k = absurd h
Renewed-trans (a ∷ xs) [] cs h k = absurd h
Renewed-trans (a ∷ xs) (b ∷ bs) [] h k = absurd k
Renewed-trans (a ∷ xs) (b ∷ bs) (c ∷ cs) h k =
    (row_trans a b c h.0 k.0, Renewed-trans xs bs cs h.1 k.1)

update_memory-Renewed :
    (id : ℕ) (f : Memory → Memory) (rows : List Memory)
    → ((m : Memory) → RowRenewed m (f m))
    → Renewed rows (update_memory id f rows)
unfolding update_memory
update_memory-Renewed id f [] p = tt
update_memory-Renewed id f (m ∷ rows) p = elim (Bool-cases (m.id == id)) [
  | inl e ↦ rw e (p m, update_memory-Renewed id f rows p)
  | inr e ↦ rw e (inl refl, update_memory-Renewed id f rows p)
]

update_unless_taken-Renewed :
    (id : ℕ) (f : Memory → Memory) (rows after : List Memory) (o : Option Memory)
    → ((m : Memory) → RowRenewed m (f m))
    → update_unless_taken id f rows o ≡ some after
    → Renewed rows after
unfolding update_unless_taken
update_unless_taken-Renewed id f rows after none p h =
    subst (Renewed rows) (of_some h) (Renewed-refl rows)
update_unless_taken-Renewed id f rows after (some m) p h = elim (Bool-cases (is_taken rows (f m))) [
  | inl t ↦ absurd (cc (rw t at h))
  | inr t ↦ subst (Renewed rows) (of_some (rw t at h)) (update_memory-Renewed id f rows p)
]

after_confirm-Renewed :
    (reason : String) (id : ℕ) (st : Store) (o : Option (List Memory))
    → ((after : List Memory) → o ≡ some after → Renewed st.memories after)
    → Renewed st.memories (after_confirm reason id st o).0.memories
unfolding after_confirm
after_confirm-Renewed reason id st none h = Renewed-refl st.memories
after_confirm-Renewed reason id st (some rows) h = h rows refl

module _ (set : Setting) (m k : Memory) where
  -- The change of the merge, which computes to these scores.
  merged : Memory → Memory
  unfolding merge_change reinforce_confidence input_of_row partial_row
  merged =
      merge_change set (input_of_row k) (partial_row m)
        (larger (reinforce_confidence (partial_row m).confidence "manual") (percent 80))

  merged-RowRenewed : (x : Memory) → RowRenewed x (merged x)
  unfolding merged merge_change confirm reinforce_confidence input_of_row partial_row
  merged-RowRenewed x = inr ((refl, refl), (refl, refl))

  merge_pair-Renewed : (st : Store) → Renewed st.memories (merge_pair set m k st).0.memories
  unfolding merge_pair handle_merge merge_with checked_update merged input_of_row partial_row
  merge_pair-Renewed st =
      after_confirm-Renewed "semantic duplicate merged" m.id
        (with_version (partial_row m) "semantic merge" st) (checked_update m.id merged st.memories)
        λ after h.
          update_unless_taken-Renewed m.id merged st.memories after (find_memory st.memories m.id)
            merged-RowRenewed h

module _ (set : Setting) (batch : ℕ) where
  merge_into-Renewed :
      (m : Memory) (ks : List Memory) (st : Store) (n : ℕ)
      → Renewed st.memories (merge_into set batch m ks (st, n)).0.memories
  unfolding merge_into
  merge_into-Renewed m [] st n = Renewed-refl st.memories
  merge_into-Renewed m (k ∷ ks) st n =
      let merged = merge_pair set m k st in
      elim (Bool-cases (leb batch n)) [
        | inl e ↦ rw (merge_into, e) (merge_into-Renewed m ks st n)
        | inr e ↦ elim (Bool-cases (is_pair m k)) [
          | inl f ↦
              rw (merge_into, e, f)
                (Renewed-trans st.memories merged.0.memories _ (merge_pair-Renewed set m k st)
                  (merge_into-Renewed m ks merged.0 (count_merge n merged.1)))
          | inr f ↦ rw (merge_into, e, f) (merge_into-Renewed m ks st n)
        ]
      ]

  merge_all-Renewed :
      (ms : List Memory) (st : Store) (n : ℕ)
      → Renewed st.memories (merge_all set batch ms (st, n)).0.memories
  unfolding merge_all
  merge_all-Renewed [] st n = Renewed-refl st.memories
  merge_all-Renewed (m ∷ ms) st n =
      let s = merge_into set batch m ms (st, n) in
      Renewed-trans st.memories s.0.memories _ (merge_into-Renewed m ms st n)
        (merge_all-Renewed ms s.0 s.1)

  count_merge-le : (n : ℕ) (r : Result Output) → leb batch n ≡ false → count_merge n r ≤ batch
  count_merge-le n (ok o) h = ground arith
  count_merge-le n (err e) h = ground arith

  merge_into-le :
      (m : Memory) (ks : List Memory) (st : Store) (n : ℕ)
      → n ≤ batch
      → (merge_into set batch m ks (st, n)).1 ≤ batch
  unfolding merge_into
  merge_into-le m [] st n h = h
  merge_into-le m (k ∷ ks) st n h =
      let merged = merge_pair set m k st in
      elim (Bool-cases (leb batch n)) [
        | inl e ↦ rw (merge_into, e) (merge_into-le m ks st n h)
        | inr e ↦ elim (Bool-cases (is_pair m k)) [
          | inl f ↦
              rw (merge_into, e, f)
                (merge_into-le m ks merged.0 (count_merge n merged.1) (count_merge-le n merged.1 e))
          | inr f ↦ rw (merge_into, e, f) (merge_into-le m ks st n h)
        ]
      ]

  merge_all-le :
      (ms : List Memory) (st : Store) (n : ℕ)
      → n ≤ batch
      → (merge_all set batch ms (st, n)).1 ≤ batch
  unfolding merge_all
  merge_all-le [] st n h = h
  merge_all-le (m ∷ ms) st n h =
      let s = merge_into set batch m ms (st, n) in
      merge_all-le ms s.0 s.1 (merge_into-le m ms st n h)

-- The consolidation in the background keeps every row, with its identifier and its status, in its
-- order; a row that it changes has the importance 0.5 and the confidence 0.8 afterwards.
pub background_consolidation-Renewed :
    (set : Setting) (newest : List Memory → List Memory) (batch : ℕ) (st : Store)
    → Renewed st.memories (background_consolidation set newest batch st).0.memories
unfolding background_consolidation
background_consolidation-Renewed set newest batch st =
    merge_all-Renewed set (if batch == 0 then 20 else batch)
      (take ((if batch == 0 then 20 else batch) * 2)
        (newest (keep (λ (m : Memory). str_eq m.status "active") st.memories)))
      st 0

-- The consolidation in the background makes no more merges than the size of its batch, 20 where none is
-- given.
pub background_consolidation-le :
    (set : Setting) (newest : List Memory → List Memory) (batch : ℕ) (st : Store)
    → (background_consolidation set newest batch st).1 ≤ (if batch == 0 then 20 else batch)
unfolding background_consolidation
background_consolidation-le set newest batch st =
    merge_all-le set (if batch == 0 then 20 else batch)
      (take ((if batch == 0 then 20 else batch) * 2)
        (newest (keep (λ (m : Memory). str_eq m.status "active") st.memories)))
      st 0 (omega arith)
