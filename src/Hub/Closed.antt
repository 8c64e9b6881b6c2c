-- ===== src/Hub/Closed.antt =====
-- When the hub of backend/internal/ws/hub.go sends on a closed channel, which panics.
use open_agent_showcase.Common.{
  ℕ, suc, ◌==◌, ==_iff, ==_refl, List, [], ◌∷◌, Bool, true, false, ◌||◌, ◌&&◌, not, ltb,
  if◌then◌else◌, any, ◌≡◌, refl, sym, ap, ◌∙◌, subst, arith, Bool-cases, inl, inr,
}
use open_agent_showcase.Hub.{
  org, Event, Client, Box, Hub, without, members_of, join, leave_all, is_duplicate,
  ensure_event_meta, put, set_box, deliver, send_all, Setting, broadcast, begin_local, end_local,
  register, unregister,
}

pub put-is_closed :
    (capacity : ℕ) (ev : Event) (box : Box) → (put capacity ev box).is_closed ≡ box.is_closed
unfolding put
put-is_closed capacity ev box = same_either (not box.is_closed && ltb box.waiting capacity)
  where
    same_either :
        (b : Bool)
        → (if b
            then record box { delivered = ev ∷ box.delivered; waiting = suc box.waiting }
            else box).is_closed
          ≡ box.is_closed
    same_either true = refl
    same_either false = refl

pub set_box-is_closed :
    (id : ℕ) (box : Box) (boxes : ℕ → Box) (k : ℕ)
    → box.is_closed ≡ (boxes id).is_closed
    → (set_box id box boxes k).is_closed ≡ (boxes k).is_closed
set_box-is_closed id box boxes k h = elim (Bool-cases (k == id)) [
  | inl e ↦ rw e (h ∙ ap (λ i. (boxes i).is_closed) (sym ((==_iff k id).0 e)))
  | inr e ↦ rw e refl
]

any_same :
    (p q : Client → Bool) (cs : List Client) → ((c : Client) → p c ≡ q c) → any p cs ≡ any q cs
any_same p q [] h = refl
any_same p q (c ∷ cs) h = rw (h c, any_same p q cs h) refl

-- A delivery panics where a target is closed.
pub deliver-panics :
    (capacity : ℕ) (ev : Event) (targets : List Client) (boxes : ℕ → Box) (p : Bool)
    → (deliver capacity ev targets (boxes, p)).1
      ≡ (p || any (λ (c : Client). (boxes c.id).is_closed) targets)
unfolding deliver
deliver-panics capacity ev [] boxes p = ground arith
deliver-panics capacity ev (c ∷ targets) boxes p =
    deliver-panics capacity ev targets (set_box c.id (put capacity ev (boxes c.id)) boxes)
      (p || (boxes c.id).is_closed)
    ∙ ap (λ b. (p || (boxes c.id).is_closed) || b)
        (any_same
          (λ (k : Client). (set_box c.id (put capacity ev (boxes c.id)) boxes k.id).is_closed)
          (λ (k : Client). (boxes k.id).is_closed) targets
          (λ k.
            set_box-is_closed c.id (put capacity ev (boxes c.id)) boxes k.id
              (put-is_closed capacity ev (boxes c.id))))
    ∙ or_assoc p (boxes c.id).is_closed (any (λ (k : Client). (boxes k.id).is_closed) targets)
  where
    or_assoc : (a b c : Bool) → ((a || b) || c) ≡ (a || (b || c))
    or_assoc a b c = ground arith

target_closed :
    (boxes : ℕ → Box) (id : ℕ) (targets : List Client)
    → any (λ (k : Client). k.id == id) targets ≡ true
    → (boxes id).is_closed ≡ true
    → any (λ (c : Client). (boxes c.id).is_closed) targets ≡ true
target_closed boxes id [] m h = m
target_closed boxes id (k ∷ targets) m h = elim (Bool-cases (k.id == id)) [
  | inl e ↦
      let same = subst (λ i. (boxes i).is_closed ≡ true) (sym ((==_iff k.id id).0 e)) h in
      ground (arith, same)
  | inr e ↦ let rest = target_closed boxes id targets (rw e at m) h in ground (arith, rest)
]

closed_target-panics :
    (capacity : ℕ) (ev : Event) (targets : List Client) (boxes : ℕ → Box) (p : Bool) (id : ℕ)
    → any (λ (k : Client). k.id == id) targets ≡ true
    → (boxes id).is_closed ≡ true
    → (deliver capacity ev targets (boxes, p)).1 ≡ true
closed_target-panics capacity ev targets boxes p id m h =
    deliver-panics capacity ev targets boxes p ∙ or_true p _ (target_closed boxes id targets m h)
  where
    or_true : (a b : Bool) → b ≡ true → (a || b) ≡ true
    or_true a b h = ground arith

-- Where the hub takes the end of a client before its beginning, from its two channels, the next event
-- for its organization, if it was not seen before, panics.
pub register-unregister :
    (set : Setting) (c : Client) (ev : Event) (h : Hub)
    → ev.room ≡ org c.org
    → (is_duplicate set.now ev.id h.seen).0 ≡ false
    → (broadcast set ev (register c (unregister c h))).panicked ≡ true
unfolding broadcast send_all register unregister join members_of
register-unregister set c ev h r d =
    rw (d, r, ==_refl c.org)
      (closed_target-panics set.capacity
        (record (ensure_event_meta set.fresh ev) { room = org c.org })
        (c ∷ without c.id (members_of (org c.org) (leave_all c.id h.rooms)))
        (set_box c.id (record (h.boxes c.id) { is_closed = true }) h.boxes)
        (h.panicked || (h.boxes c.id).is_closed) c.id (rw (==_refl c.id) refl)
        (rw (==_refl c.id) refl))

-- BroadcastLocal reads the members of the room under the lock and sends without it: where one of them
-- is unregistered in between, the send panics.
pub end_local-unregister :
    (set : Setting) (c : Client) (ev : Event) (h : Hub)
    → (is_duplicate set.now (ensure_event_meta set.fresh ev).id h.seen).0 ≡ false
    → any (λ (k : Client). k.id == c.id) (members_of ev.room h.rooms) ≡ true
    → let (h', work) = begin_local set ev h in
      (end_local set work (unregister c h')).panicked ≡ true
unfolding begin_local end_local send_all unregister
end_local-unregister set c ev h d m = rw d (
    closed_target-panics set.capacity (ensure_event_meta set.fresh ev) (members_of ev.room h.rooms)
      (set_box c.id (record (h.boxes c.id) { is_closed = true }) h.boxes)
      (h.panicked || (h.boxes c.id).is_closed) c.id m (rw (==_refl c.id) refl))
