-- ===== src/Hub/Counts.antt =====
-- How often a delivery of backend/internal/ws/hub.go puts an event into a channel.
use open_agent_showcase.Common.{
  ℕ, ◌+◌, ◌≤◌, ◌==◌, ==_iff, List, [], ◌∷◌, Bool, true, false, ◌||◌, ◌&&◌, not, ltb, if◌then◌else◌,
  is_id, ◌≡◌, refl, sym, ap, ◌∙◌, subst, arith, Bool-cases, inl, inr,
}
use open_agent_showcase.Hub.{Event, Client, Box, put, set_box, deliver}
use open_agent_showcase.Hub.Single.{Single, is_member}

-- How many of the events have the identifier.
unfoldable pub count_id : ℕ → List Event → ℕ
count_id i [] = 0
count_id i (ev ∷ events) = (if is_id ev.id i then 1 else 0) + count_id i events

-- What is put adds at most one event, of its identifier.
put-count_id :
    (capacity i : ℕ) (ev : Event) (box : Box)
    → count_id i (put capacity ev box).delivered
      ≤ (if is_id ev.id i then 1 else 0) + count_id i box.delivered
unfolding put count_id
put-count_id capacity i ev box = elim (Bool-cases (not box.is_closed && ltb box.waiting capacity)) [
  | inl e ↦ rw e (omega arith)
  | inr e ↦ rw e (omega arith)
]

-- A client that is no target gets nothing.
deliver_untargeted :
    (capacity : ℕ) (ev : Event) (targets : List Client) (boxes : ℕ → Box) (p : Bool) (id : ℕ)
    → is_member id targets ≡ false
    → (deliver capacity ev targets (boxes, p)).0 id ≡ boxes id
unfolding deliver
deliver_untargeted capacity ev [] boxes p id h = refl
deliver_untargeted capacity ev (c ∷ targets) boxes p id h = elim (Bool-cases (c.id == id)) [
  | inl e ↦ absurd (cc (rw e at h))
  | inr e ↦
      let boxes' = set_box c.id (put capacity ev (boxes c.id)) boxes in
      deliver_untargeted capacity ev targets boxes' (p || (boxes c.id).is_closed) id (rw e at h)
      ∙ other e
]
  where
    other : (c.id == id) ≡ false → set_box c.id (put capacity ev (boxes c.id)) boxes id ≡ boxes id
    other e = elim (Bool-cases (id == c.id)) [
      | inl f ↦ absurd (ground (arith, e, f))
      | inr f ↦ rw f refl
    ]

pub deliver-count_id :
    (capacity i : ℕ) (ev : Event) (targets : List Client) (boxes : ℕ → Box) (p : Bool) (id : ℕ)
    → Single targets
    → count_id i ((deliver capacity ev targets (boxes, p)).0 id).delivered
      ≤ (if is_id ev.id i then 1 else 0) + count_id i (boxes id).delivered
unfolding deliver
deliver-count_id capacity i ev [] boxes p id s = omega arith
deliver-count_id capacity i ev (c ∷ targets) boxes p id s =
    let boxes' = set_box c.id (put capacity ev (boxes c.id)) boxes in
    elim (Bool-cases (id == c.id)) [
      | inl e ↦
          let same = (==_iff id c.id).0 e in
          let rest =
            deliver_untargeted capacity ev targets boxes' (p || (boxes c.id).is_closed) id
              (subst (λ k. is_member k targets ≡ false) (sym same) s.0)
            ∙ at_box e in
          omega (
            arith,
            ap (λ (b : Box). count_id i b.delivered) rest,
            put-count_id capacity i ev (boxes c.id),
            ap (λ k. count_id i (boxes k).delivered) same,
          )
      | inr e ↦ omega (
        arith,
        deliver-count_id capacity i ev targets boxes' (p || (boxes c.id).is_closed) id s.1,
        ap (λ (b : Box). count_id i b.delivered) (off_box e),
      )
    ]
  where
    at_box :
        (id == c.id) ≡ true
        → set_box c.id (put capacity ev (boxes c.id)) boxes id ≡ put capacity ev (boxes c.id)
    at_box e = rw e refl

    off_box : (id == c.id) ≡ false → set_box c.id (put capacity ev (boxes c.id)) boxes id ≡ boxes id
    off_box e = rw e refl
