-- ===== src/Memory/Consolidate/Isolation.antt =====
-- That Consolidate of backend/internal/memory/service.go keeps to the organization, the scope and the
-- owner of its input.
use mathlib.Core.List.Memᴰ
use open_agent_showcase.Common.{
  ℕ, String, Option, none, some, List, [], ◌∷◌, Bool, true, false, ◌&&◌, ◌==◌, ==_iff, ==_refl,
  str_eq, any, Memᴰ, find-Memᴰ, Result, ◌≡◌, refl, sym, ◌∙◌, subst, ⊎_elim, arith, Bool-cases, inl,
  inr,
}
use open_agent_showcase.Memory.Fraction.{Fraction}
use open_agent_showcase.Memory.Text.{normalize}
use open_agent_showcase.Memory.Similar.{classify_relationship}
use open_agent_showcase.Memory.Store.{
  Memory, Store, Input, Reply, Setting, is_in_place, find_memory,
}
use open_agent_showcase.Memory.Handle.{Output, after_read, handle_exact_duplicate}
use open_agent_showcase.Memory.Handle.Place.{
  Owned, elsewhere, Kept, merge_with-Kept, handle_merge-Kept,
}
use open_agent_showcase.Memory.Handle.Isolated.{
  create_new_memory-Kept, handle_update-Kept, handle_contradiction-Kept,
}
use open_agent_showcase.Memory.Consolidate.{
  accepted, with_text, after_query, is_merge, by_reply, by_relation, settle, is_exact, find_exact,
  find_candidates, after_exact, screen, after_screen, consolidate,
}
use open_agent_showcase.Memory.Consolidate.Candidates.{Orders, find_candidates-Memᴰ}

-- The identifier is the primary key.
abbrev pub DistinctIds : List Memory → Type 0
DistinctIds [] = Unit
DistinctIds (m ∷ rows) = (any (λ (k : Memory). k.id == m.id) rows ≡ false) × DistinctIds rows

absent-Owned :
    (in' : Input) (id : ℕ) (rows : List Memory)
    → any (λ (k : Memory). k.id == id) rows ≡ false
    → Owned in' id rows
absent-Owned in' id [] h = tt
absent-Owned in' id (m ∷ rows) h = elim (Bool-cases (m.id == id)) [
  | inl e ↦ absurd (cc (rw e at h))
  | inr e ↦ ((λ f. absurd (cc (sym e ∙ f))), absent-Owned in' id rows (rw e at h))
]

pub present :
    (m : Memory) (rows : List Memory) → Memᴰ m rows → any (λ (k : Memory). k.id == m.id) rows ≡ true
present m [] h = absurd (Memᴰ.not-nil h)
present m (x ∷ rows) h =
    ⊎_elim
      (λ i.
        subst (λ y. any (λ (k : Memory). k.id == m.id) (y ∷ rows) ≡ true) i
          (rw (==_refl m.id) refl))
      (λ k. ground (arith, present m rows k)) (Memᴰ.cases_cons h)

row-Owned :
    (in' : Input) (m : Memory) (rows : List Memory)
    → DistinctIds rows
    → Memᴰ m rows
    → is_in_place in' m ≡ true
    → Owned in' m.id rows
row-Owned in' m [] d h p = tt
row-Owned in' m (x ∷ rows) d h p =
    ⊎_elim
      (λ i. (
        (λ e. subst (λ y. is_in_place in' y ≡ true) i p),
        absent-Owned in' m.id rows
            (subst (λ (y : Memory). any (λ (k : Memory). k.id == y.id) rows ≡ false) (sym i) d.0),
      ))
      (λ k. (
        (λ e.
            let same = (==_iff x.id m.id).0 e in
            absurd (
              cc (
                sym (subst (λ n. any (λ (j : Memory). j.id == n) rows ≡ false) same d.0)
                ∙ present m rows k))),
        row-Owned in' m rows d.1 k p,
      ))
      (Memᴰ.cases_cons h)

after_query-Memᴰ :
    (b : Bool) (m : Memory) (ms : List Memory) → Memᴰ m (after_query b ms) → Memᴰ m ms
after_query-Memᴰ true m ms h = absurd (Memᴰ.not-nil h)
after_query-Memᴰ false m ms h = h

module _ (set : Setting) (in' : Input) (hash : ℕ) (st : Store) where
  module _ (m : Memory) (rest : Store × Result Output) (owned : Owned in' m.id st.memories)
      (kept : Kept in' st.memories rest.0.memories) where
    by_reply-Kept :
        (o : Option Reply) → Kept in' st.memories (by_reply set in' hash m st rest o).0.memories
    unfolding by_reply
    by_reply-Kept none = kept
    by_reply-Kept (some r) = elim (Bool-cases (is_merge r.relationship)) [
      | inl e ↦ rw e (handle_merge-Kept set (with_text r in') in' m st owned r.confidence)
      | inr e ↦ elim (Bool-cases (str_eq r.relationship "contradiction")) [
        | inl f ↦ rw (e, f) (handle_contradiction-Kept set in' hash m st owned)
        | inr f ↦ elim (Bool-cases (str_eq r.relationship "update")) [
          | inl g ↦ rw (e, f, g) (handle_update-Kept set in' hash m st owned)
          | inr g ↦ rw (e, f, g) kept
        ]
      ]
    ]

    by_relation-Kept :
        (rel : String) (found : Fraction)
        → Kept in' st.memories (by_relation set in' hash m st rest (rel, found)).0.memories
    unfolding by_relation
    by_relation-Kept rel found = elim (Bool-cases (is_merge rel)) [
      | inl e ↦ rw e (handle_merge-Kept set in' in' m st owned found)
      | inr e ↦ elim (Bool-cases (str_eq rel "contradiction")) [
        | inl f ↦ rw (e, f) (handle_contradiction-Kept set in' hash m st owned)
        | inr f ↦ elim (Bool-cases (str_eq rel "update")) [
          | inl g ↦ rw (e, f, g) (handle_update-Kept set in' hash m st owned)
          | inr g ↦ elim (Bool-cases (str_eq rel "ambiguous")) [
            | inl i ↦ rw (e, f, g, i) (by_reply-Kept (accepted (set.model m.content in'.content)))
            | inr i ↦ rw (e, f, g, i) kept
          ]
        ]
      ]
    ]

  settle-Kept :
      (ms : List Memory)
      → ((m : Memory) → Memᴰ m ms → Owned in' m.id st.memories)
      → Kept in' st.memories (settle set in' hash ms st).0.memories
  unfolding settle
  settle-Kept [] owned = create_new_memory-Kept set in' hash st
  settle-Kept (m ∷ ms) owned =
      let (rel, found) = classify_relationship m.content in'.content in
      by_relation-Kept m (settle set in' hash ms st) (owned m (Memᴰ.head refl))
        (settle-Kept ms (λ k h. owned k (Memᴰ.tail h))) rel found

  after_read-Kept :
      (o : Option Memory)
      → ((m : Memory) → o ≡ some m → Owned in' m.id st.memories)
      → Kept in' st.memories (after_read set in' hash st o).0.memories
  unfolding after_read
  after_read-Kept none owned = create_new_memory-Kept set in' hash st
  after_read-Kept (some m) owned = merge_with-Kept set in' in' m st (owned m refl) _ _ _

  module _ (ids : DistinctIds st.memories) where
    found-Owned :
        (id : ℕ)
        → Owned in' id st.memories
        → (m : Memory) → find_memory st.memories id ≡ some m
        → Owned in' m.id st.memories
    found-Owned id owned m h =
        let (k, e) = find-Memᴰ (λ (j : Memory). j.id == id) m st.memories h in
        subst (λ n. Owned in' n st.memories) (sym ((==_iff m.id id).0 e)) owned

    after_exact-Kept :
        (o : Option Memory)
        → Orders set.embedding
        → find_exact in' hash st.memories ≡ o
        → Kept in' st.memories (after_exact set in' hash st o).0.memories
    unfolding after_exact handle_exact_duplicate
    after_exact-Kept (some m) orders h =
        let (k, e) = find-Memᴰ (is_exact in' hash) m st.memories h in
        after_read-Kept (find_memory st.memories m.id)
          (found-Owned m.id (row-Owned in' m st.memories ids k (and_left (is_in_place in' m) _ e)))
      where
        and_left : (b c : Bool) → (b && c) ≡ true → b ≡ true
        and_left true c h = refl
        and_left false c h = h
    after_exact-Kept none orders h =
        settle-Kept (after_query set.query_fails (find_candidates set in' st)) λ m k.
          let (i, p) =
            find_candidates-Memᴰ set in' st m orders
              (after_query-Memᴰ set.query_fails m (find_candidates set in' st) k) in
          row-Owned in' m st.memories ids i p

after_screen-Kept :
    (set : Setting) (in' : Input) (st : Store) (o : Option String)
    → DistinctIds st.memories
    → Orders set.embedding
    → Kept in' st.memories (after_screen set in' st o).0.memories
unfolding after_screen
after_screen-Kept set in' st (some reason) ids orders = refl
after_screen-Kept set in' st none ids orders =
    after_exact-Kept set in' (set.hash (normalize in'.content)) st ids
      (find_exact in' (set.hash (normalize in'.content)) st.memories) orders refl

-- Consolidate keeps every row that is not of the organization, the scope and the owner of its input, in
-- their order, whatever the candidates and the model say. The identifiers are distinct, and an order
-- by distance returns rows of its query.
pub consolidate-elsewhere :
    (set : Setting) (in' : Input) (st : Store)
    → DistinctIds st.memories
    → Orders set.embedding
    → elsewhere in' (consolidate set in' st).0.memories ≡ elsewhere in' st.memories
unfolding consolidate
consolidate-elsewhere set in' st ids orders = after_screen-Kept set in' st (screen in') ids orders
