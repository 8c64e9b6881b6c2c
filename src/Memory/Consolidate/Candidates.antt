-- ===== src/Memory/Consolidate/Candidates.antt =====
-- What findCandidates of backend/internal/memory/service.go returns.
use open_agent_showcase.Common.{
  List, Option, none, some, Bool, true, false, ◌&&◌, keep, take, sort_by, Memᴰ, Memᴰ-keep,
  Memᴰ-take, sort_by-Memᴰ, ◌≡◌, refl, Bool-cases, inl, inr,
}
use open_agent_showcase.Memory.Store.{Memory, Store, Input, Embedding, Setting, is_in_place}
use open_agent_showcase.Memory.Consolidate.{
  max_candidates, by_weight, by_similarity, is_candidate, is_related, nearest, find_candidates,
}

-- The order by distance returns rows of the query.
abbrev pub Orders : Option Embedding → Type 0
Orders none = Unit
Orders (some e) = (rows : List Memory) (m : Memory) → Memᴰ m (e.by_distance rows) → Memᴰ m rows

nearest-Memᴰ :
    (in' : Input) (rows : List Memory) (e : Option Embedding) (m : Memory)
    → Orders e
    → Memᴰ m (nearest in' rows e)
    → Memᴰ m rows
unfolding nearest
nearest-Memᴰ in' rows none m o h = sort_by-Memᴰ by_weight m rows (
    Memᴰ-take max_candidates m (sort_by by_weight rows)
      (sort_by-Memᴰ (by_similarity in'.content) m (take max_candidates (sort_by by_weight rows)) h))
nearest-Memᴰ in' rows (some e) m o h = elim (Bool-cases e.is_stub) [
  | inl s ↦ from_near (sort_by-Memᴰ (by_similarity in'.content) m near (rw s at h))
  | inr s ↦ from_near (rw s at h)
]
  where
    near : List Memory
    near = keep (is_related in') (take max_candidates (e.by_distance rows))

    from_near : Memᴰ m near → Memᴰ m rows
    from_near k = o rows m (
        Memᴰ-take max_candidates m (e.by_distance rows)
          (Memᴰ-keep (is_related in') m (take max_candidates (e.by_distance rows)) k).0)

and_left : (b c : Bool) → (b && c) ≡ true → b ≡ true
and_left true c h = refl
and_left false c h = h

-- The candidates are rows of the place.
pub find_candidates-Memᴰ :
    (set : Setting) (in' : Input) (st : Store) (m : Memory)
    → Orders set.embedding
    → Memᴰ m (find_candidates set in' st)
    → Memᴰ m st.memories × (is_in_place in' m ≡ true)
unfolding find_candidates
find_candidates-Memᴰ set in' st m o h =
    let (k, t) =
      Memᴰ-keep (is_candidate set in') m st.memories
        (nearest-Memᴰ in' (keep (is_candidate set in') st.memories) set.embedding m o h) in
    (k, and_left (is_in_place in' m) _ t)
