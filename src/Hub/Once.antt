-- ===== src/Hub/Once.antt =====
-- How often the hub of backend/internal/ws/hub.go delivers an event.
use open_agent_showcase.Common.{
  ℕ, ◌+◌, ◌-◌, ◌≤◌, ◌==◌, ==_iff, Option, none, some, List, [], ◌∷◌, Bool, true, false, not, ltb,
  leb, any, ◌&&◌, ◌||◌, if◌then◌else◌, is_some, is_id, keep, length, ◌≡◌, refl, sym, ap, ◌∙◌, subst,
  arith, Bool-cases, inl, inr,
}
use open_agent_showcase.Hub.{
  org, channel, Event, Client, Box, Hub, members_of, has_key, kept_for, most_seen, prune,
  is_duplicate, ensure_event_meta, set_box, send_all, Setting, broadcast, begin_local, end_local,
  broadcast_local, register, unregister, join_channel, leave_channel, write, Step, registering,
  unregistering, broadcasting, receiving, joining, leaving, writing, step, run, new_hub,
}
use open_agent_showcase.Hub.Single.{
  Single, RoomsSingle, members_of-Single, join-RoomsSingle, leave_all-RoomsSingle,
  leave_one-RoomsSingle,
}
use open_agent_showcase.Hub.Counts.{count_id, deliver-count_id}

-- Whether an identifier was seen at `start` or later.
abbrev pub is_recent : ℕ → List (ℕ × ℕ) → ℕ → Bool
is_recent start seen i = any (λ (e : ℕ × ℕ). e.0 == i && leb start e.1) seen

-- Nothing that was seen at most five minutes ago is forgotten.
keep-is_recent :
    (start now i : ℕ) (seen : List (ℕ × ℕ))
    → now ≤ start + kept_for
    → is_recent start (keep (λ (e : ℕ × ℕ). not (ltb kept_for (now - e.1))) seen) i
      ≡ is_recent start seen i
keep-is_recent start now i [] b = refl
keep-is_recent start now i (e ∷ seen) b = elim (Bool-cases (ltb kept_for (now - e.1))) [
  | inl old ↦
      let early : leb start e.1 ≡ false = ground (arith, old, b) in
      rw (old, early)
        (drop_false (e.0 == i) (is_recent start seen i) _ (keep-is_recent start now i seen b))
  | inr new ↦
      rw new (ap (λ r. (e.0 == i && leb start e.1) || r) (keep-is_recent start now i seen b))
]
  where
    drop_false : (a b c : Bool) → c ≡ b → c ≡ ((a && false) || b)
    drop_false a b c h = ground arith

prune-is_recent :
    (start now i : ℕ) (seen : List (ℕ × ℕ))
    → now ≤ start + kept_for
    → is_recent start (prune now seen) i ≡ is_recent start seen i
prune-is_recent start now i seen b = elim (Bool-cases (ltb most_seen (length seen))) [
  | inl e ↦ rw e (keep-is_recent start now i seen b)
  | inr e ↦ rw e refl
]

has_key-is_recent :
    (start i : ℕ) (seen : List (ℕ × ℕ)) → has_key seen i ≡ false → is_recent start seen i ≡ false
has_key-is_recent start i [] h = refl
has_key-is_recent start i (e ∷ seen) h = ground (arith, has_key-is_recent start i seen)

-- Since the hub was `g`, at `start` or before, each identifier that was seen since then was delivered at
-- most once more, and no other one.
record Once (start : ℕ) (g h : Hub) : Type 0 where
  single : RoomsSingle h.rooms
  counted :
      (i id : ℕ)
      → count_id i (h.boxes id).delivered
        ≤ count_id i (g.boxes id).delivered + (if is_recent start h.seen i then 1 else 0)

one_more :
    (start : ℕ) (seen : List (ℕ × ℕ)) (j now i : ℕ)
    → has_key seen j ≡ false
    → start ≤ now
    → (if j == i then 1 else 0) + (if is_recent start seen i then 1 else 0)
      ≤ (if is_recent start ((j, now) ∷ seen) i then 1 else 0)
one_more start seen j now i h after = elim (Bool-cases (j == i)) [
  | inl e ↦
      let fresh : is_recent start seen i ≡ false =
        subst (λ k. is_recent start seen k ≡ false) ((==_iff j i).0 e)
          (has_key-is_recent start j seen h) in
      let late : leb start now ≡ true = ground (arith, after) in rw (e, fresh, late) (omega arith)
  | inr e ↦ rw e (omega arith)
]

-- The delivery of an event that was not seen before.
send_all-Once :
    (start now capacity j : ℕ) (ev : Event) (targets : List Client) (published : List Event)
    (g h : Hub)
    → ev.id ≡ some j
    → has_key h.seen j ≡ false
    → start ≤ now
    → now ≤ start + kept_for
    → Single targets
    → Once start g h
    → Once start g (
        send_all capacity ev targets
          (record h { seen = prune now ((j, now) ∷ h.seen); published = published }))
unfolding send_all
send_all-Once start now capacity j ev targets published g h named new after before s o = record {
  single = o.single;
  counted = λ i id. rw (prune-is_recent start now i ((j, now) ∷ h.seen) before) (
      omega (
        arith,
        deliver-count_id capacity i ev targets h.boxes h.panicked id s,
        ap {B = ℕ} (λ (k : Option ℕ). if is_id k i then 1 else 0) named,
        o.counted i id,
        one_more start h.seen j now i new after,
      ));
}

is_duplicate-seen :
    (now j : ℕ) (h : Hub)
    → has_key h.seen j ≡ true
    → is_duplicate now (some j) h.seen ≡ (true, h.seen)
unfolding is_duplicate
is_duplicate-seen now j h k = rw k refl

is_duplicate-new :
    (now j : ℕ) (h : Hub)
    → has_key h.seen j ≡ false
    → is_duplicate now (some j) h.seen ≡ (false, prune now ((j, now) ∷ h.seen))
unfolding is_duplicate
is_duplicate-new now j h k = rw k refl

broadcast-Once :
    (start j : ℕ) (set : Setting) (ev : Event) (g h : Hub)
    → ev.id ≡ some j
    → start ≤ set.now
    → set.now ≤ start + kept_for
    → Once start g h
    → Once start g (broadcast set ev h)
unfolding broadcast
broadcast-Once start j set ev g h named after before o = elim (Bool-cases (has_key h.seen j)) [
  | inl e ↦
      rw (named, is_duplicate-seen set.now j h e)
        (record { single = o.single; counted = o.counted })
  | inr e ↦
      rw (named, is_duplicate-new set.now j h e)
        (send_all-Once start set.now set.capacity j (record ev { id = some j })
          (members_of ev.room h.rooms) _ g h refl e after before
          (members_of-Single ev.room h.rooms o.single) o)
]

broadcast_local-Once :
    (start j : ℕ) (set : Setting) (ev : Event) (g h : Hub)
    → (ensure_event_meta set.fresh ev).id ≡ some j
    → start ≤ set.now
    → set.now ≤ start + kept_for
    → Once start g h
    → Once start g (broadcast_local set ev h)
unfolding broadcast_local begin_local end_local
broadcast_local-Once start j set ev g h named after before o =
    elim (Bool-cases (has_key h.seen j)) [
      | inl e ↦
          rw (named, is_duplicate-seen set.now j h e)
            (record { single = o.single; counted = o.counted })
      | inr e ↦
          rw (named, is_duplicate-new set.now j h e)
            (send_all-Once start set.now set.capacity j (record ev { id = some j })
              (members_of ev.room h.rooms) h.published g h refl e after before
              (members_of-Single ev.room h.rooms o.single) o)
    ]

-- The events come within five minutes of the start, and those that Run broadcasts have an identifier.
abbrev pub Timely : ℕ → List Step → Type 0
Timely start [] = Unit
Timely start (registering c ∷ steps) = Timely start steps
Timely start (unregistering c ∷ steps) = Timely start steps
Timely start (broadcasting set ev ∷ steps) =
    ((start ≤ set.now) × (set.now ≤ start + kept_for))
    × ((is_some ev.id ≡ true) × Timely start steps)
Timely start (receiving set ev ∷ steps) =
    ((start ≤ set.now) × (set.now ≤ start + kept_for)) × Timely start steps
Timely start (joining c n ∷ steps) = Timely start steps
Timely start (leaving c n ∷ steps) = Timely start steps
Timely start (writing id ∷ steps) = Timely start steps

named : (o : Option ℕ) → is_some o ≡ true → (j : ℕ) × (o ≡ some j)
named none h = absurd (cc h)
named (some j) h = (j, refl)

has_meta : (fresh : ℕ) (ev : Event) → is_some (ensure_event_meta fresh ev).id ≡ true
has_meta fresh ev = of_id ev.id
  where
    of_id : (o : Option ℕ) → is_some (elim o [ none ↦ some fresh | some i ↦ some i ]) ≡ true
    of_id none = refl
    of_id (some i) = refl

set_box-count_id :
    (id i k : ℕ) (box : Box) (boxes : ℕ → Box)
    → box.delivered ≡ (boxes id).delivered
    → count_id i (set_box id box boxes k).delivered ≡ count_id i (boxes k).delivered
set_box-count_id id i k box boxes h = elim (Bool-cases (k == id)) [
  | inl e ↦ rw e (ap (count_id i) (h ∙ ap (λ n. (boxes n).delivered) (sym ((==_iff k id).0 e))))
  | inr e ↦ rw e refl
]

run-Once :
    (start : ℕ) (steps : List Step) (g h : Hub)
    → Timely start steps
    → Once start g h
    → Once start g (run steps h)
unfolding run step register unregister join_channel leave_channel write
run-Once start [] g h t o = o
run-Once start (registering c ∷ steps) g h t o =
    run-Once start steps g (register c h) t
      (record { single = join-RoomsSingle (org c.org) c h.rooms o.single; counted = o.counted })
run-Once start (unregistering c ∷ steps) g h t o =
    run-Once start steps g (unregister c h) t (record {
      single = leave_all-RoomsSingle c.id h.rooms o.single;
      counted = λ i id.
          rw (set_box-count_id c.id i id (record (h.boxes c.id) { is_closed = true }) h.boxes refl)
            (o.counted i id);
    })
run-Once start (broadcasting set ev ∷ steps) g h t o =
    let (j, n) = named ev.id t.1.0 in
    run-Once start steps g (broadcast set ev h) t.1.1
      (broadcast-Once start j set ev g h n t.0.0 t.0.1 o)
run-Once start (receiving set ev ∷ steps) g h t o =
    let (j, n) = named (ensure_event_meta set.fresh ev).id (has_meta set.fresh ev) in
    run-Once start steps g (broadcast_local set ev h) t.1
      (broadcast_local-Once start j set ev g h n t.0.0 t.0.1 o)
run-Once start (joining c n ∷ steps) g h t o =
    run-Once start steps g (join_channel c n h) t
      (record { single = join-RoomsSingle (channel n) c h.rooms o.single; counted = o.counted })
run-Once start (leaving c n ∷ steps) g h t o =
    run-Once start steps g (leave_channel c n h) t (record {
      single = leave_one-RoomsSingle (channel n) c.id h.rooms o.single;
      counted = o.counted;
    })
run-Once start (writing id ∷ steps) g h t o =
    let box : Box = record (h.boxes id) { waiting = (h.boxes id).waiting - 1 } in
    run-Once start steps g (write id h) t (record {
      single = o.single;
      counted = λ i k. rw (set_box-count_id id i k box h.boxes refl) (o.counted i k);
    })

broadcast-rooms : (set : Setting) (ev : Event) (h : Hub) → (broadcast set ev h).rooms ≡ h.rooms
unfolding broadcast send_all
broadcast-rooms set ev h = ground arith

broadcast_local-rooms :
    (set : Setting) (ev : Event) (h : Hub) → (broadcast_local set ev h).rooms ≡ h.rooms
unfolding broadcast_local begin_local end_local send_all
broadcast_local-rooms set ev h = ground arith

run-RoomsSingle :
    (steps : List Step) (h : Hub) → RoomsSingle h.rooms → RoomsSingle (run steps h).rooms
unfolding run step register unregister join_channel leave_channel write
run-RoomsSingle [] h s = s
run-RoomsSingle (registering c ∷ steps) h s =
    run-RoomsSingle steps (register c h) (join-RoomsSingle (org c.org) c h.rooms s)
run-RoomsSingle (unregistering c ∷ steps) h s =
    run-RoomsSingle steps (unregister c h) (leave_all-RoomsSingle c.id h.rooms s)
run-RoomsSingle (broadcasting set ev ∷ steps) h s =
    run-RoomsSingle steps (broadcast set ev h)
      (subst RoomsSingle (sym (broadcast-rooms set ev h)) s)
run-RoomsSingle (receiving set ev ∷ steps) h s =
    run-RoomsSingle steps (broadcast_local set ev h)
      (subst RoomsSingle (sym (broadcast_local-rooms set ev h)) s)
run-RoomsSingle (joining c n ∷ steps) h s =
    run-RoomsSingle steps (join_channel c n h) (join-RoomsSingle (channel n) c h.rooms s)
run-RoomsSingle (leaving c n ∷ steps) h s =
    run-RoomsSingle steps (leave_channel c n h) (leave_one-RoomsSingle (channel n) c.id h.rooms s)
run-RoomsSingle (writing id ∷ steps) h s = run-RoomsSingle steps (write id h) s

-- After whatever steps of a new hub, in any span of five minutes no client is sent two events with the
-- same identifier, whether they come from Run or from Redis and in whatever order, also where what was
-- seen is pruned in between; what Run broadcasts in the span has an identifier.
pub run-count_id :
    (start : ℕ) (before steps : List Step) (i id : ℕ)
    → Timely start steps
    → let h = run before new_hub in
      count_id i ((run steps h).boxes id).delivered ≤ count_id i (h.boxes id).delivered + 1
run-count_id start before steps i id t =
    let h = run before new_hub in
    let o =
      run-Once start steps h h t
        (record { single = run-RoomsSingle before new_hub tt; counted = λ j k. omega arith }) in
    at_most_one _ _ (is_recent start (run steps h).seen i) (o.counted i id)
  where
    at_most_one : (m n : ℕ) (b : Bool) → m ≤ n + (if b then 1 else 0) → m ≤ n + 1
    at_most_one m n true h = h
    at_most_one m n false h = omega arith
