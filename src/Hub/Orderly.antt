-- ===== src/Hub/Orderly.antt =====
-- That the hub of backend/internal/ws/hub.go does not send on a closed channel where the steps of each
-- client come in order.
use open_agent_showcase.Common.{
  ℕ, ◌-◌, ◌==◌, List, [], ◌∷◌, Bool, true, false, ◌||◌, ◌&&◌, not, if◌then◌else◌, has, any, ◌≡◌,
  refl, ◌∙◌, arith, Bool-cases, inl, inr,
}
use open_agent_showcase.Hub.{
  Room, org, channel, Event, Client, Box, Hub, members_of, is_duplicate, ensure_event_meta, put,
  set_box, deliver, send_all, Setting, broadcast, begin_local, end_local, broadcast_local, register,
  unregister, join_channel, leave_channel, write, Step, registering, unregistering, broadcasting,
  receiving, joining, leaving, writing, step, run, new_hub,
}
use open_agent_showcase.Hub.Rooms.{
  AllIn, RoomsIn, members_of-AllIn, join-RoomsIn, leave_all-RoomsIn, leave_one-RoomsIn,
}
use open_agent_showcase.Hub.Closed.{put-is_closed, set_box-is_closed, deliver-panics}

-- Whether the steps of each client come before its end, and the end comes once. `ended` holds the
-- clients whose end has been.
abbrev pub is_orderly : List ℕ → List Step → Bool
is_orderly ended [] = true
is_orderly ended (registering c ∷ steps) = not (has ended c.id) && is_orderly ended steps
is_orderly ended (unregistering c ∷ steps) = not (has ended c.id) && is_orderly (c.id ∷ ended) steps
is_orderly ended (broadcasting set ev ∷ steps) = is_orderly ended steps
is_orderly ended (receiving set ev ∷ steps) = is_orderly ended steps
is_orderly ended (joining c n ∷ steps) = not (has ended c.id) && is_orderly ended steps
is_orderly ended (leaving c n ∷ steps) = is_orderly ended steps
is_orderly ended (writing id ∷ steps) = is_orderly ended steps

abbrev IsOpen : List ℕ → Room → ℕ → Type 0
IsOpen ended r id = has ended id ≡ false

record Sound (ended : List ℕ) (h : Hub) : Type 0 where
  open_members : RoomsIn (IsOpen ended) h.rooms
  closed_ended : (id : ℕ) → (h.boxes id).is_closed ≡ has ended id
  calm : h.panicked ≡ false

deliver-is_closed :
    (capacity : ℕ) (ev : Event) (targets : List Client) (boxes : ℕ → Box) (p : Bool) (id : ℕ)
    → ((deliver capacity ev targets (boxes, p)).0 id).is_closed ≡ (boxes id).is_closed
unfolding deliver
deliver-is_closed capacity ev [] boxes p id = refl
deliver-is_closed capacity ev (c ∷ targets) boxes p id =
    deliver-is_closed capacity ev targets (set_box c.id (put capacity ev (boxes c.id)) boxes)
      (p || (boxes c.id).is_closed) id
    ∙ set_box-is_closed c.id (put capacity ev (boxes c.id)) boxes id
        (put-is_closed capacity ev (boxes c.id))

none_closed :
    (ended : List ℕ) (boxes : ℕ → Box) (r : Room) (targets : List Client)
    → ((id : ℕ) → (boxes id).is_closed ≡ has ended id)
    → AllIn (IsOpen ended) r targets
    → any (λ (c : Client). (boxes c.id).is_closed) targets ≡ false
none_closed ended boxes r [] h m = refl
none_closed ended boxes r (c ∷ targets) h m =
    rw (h c.id, m.0) (none_closed ended boxes r targets h m.1)

send_all-Sound :
    (capacity : ℕ) (ev : Event) (r : Room) (targets : List Client) (ended : List ℕ) (h : Hub)
    → AllIn (IsOpen ended) r targets
    → Sound ended h
    → Sound ended (send_all capacity ev targets h)
unfolding send_all
send_all-Sound capacity ev r targets ended h m s = record {
  open_members = s.open_members;
  closed_ended =
      λ id. deliver-is_closed capacity ev targets h.boxes h.panicked id ∙ s.closed_ended id;
  calm =
      deliver-panics capacity ev targets h.boxes h.panicked
      ∙ rw (s.calm, none_closed ended h.boxes r targets s.closed_ended m) refl;
}

broadcast-Sound :
    (set : Setting) (ev : Event) (ended : List ℕ) (h : Hub)
    → Sound ended h
    → Sound ended (broadcast set ev h)
unfolding broadcast
broadcast-Sound set ev ended h s = elim (Bool-cases (is_duplicate set.now ev.id h.seen).0) [
  | inl e ↦
      rw e (record { open_members = s.open_members; closed_ended = s.closed_ended; calm = s.calm })
  | inr e ↦
      let ev' = ensure_event_meta set.fresh ev in
      rw e (
        send_all-Sound set.capacity ev' ev.room (members_of ev.room h.rooms) ended
          (record h {
            seen = (is_duplicate set.now ev.id h.seen).1;
            published = if set.has_redis then ev' ∷ h.published else h.published;
          })
          (members_of-AllIn (IsOpen ended) ev.room h.rooms s.open_members)
          (record { open_members = s.open_members; closed_ended = s.closed_ended; calm = s.calm }))
]

broadcast_local-Sound :
    (set : Setting) (ev : Event) (ended : List ℕ) (h : Hub)
    → Sound ended h
    → Sound ended (broadcast_local set ev h)
unfolding broadcast_local begin_local end_local
broadcast_local-Sound set ev ended h s =
    let ev' = ensure_event_meta set.fresh ev in
    let seen = (is_duplicate set.now ev'.id h.seen).1 in
    let s' : Sound ended (record h { seen = seen }) = record {
      open_members = s.open_members;
      closed_ended = s.closed_ended;
      calm = s.calm;
    } in
    elim (Bool-cases (is_duplicate set.now ev'.id h.seen).0) [
      | inl e ↦ rw e s'
      | inr e ↦ rw e (
          send_all-Sound set.capacity ev' ev.room (members_of ev.room h.rooms) ended
            (record h { seen = seen })
            (members_of-AllIn (IsOpen ended) ev.room h.rooms s.open_members) s')
    ]

unregister-Sound :
    (c : Client) (ended : List ℕ) (h : Hub)
    → has ended c.id ≡ false
    → Sound ended h
    → Sound (c.id ∷ ended) (unregister c h)
unfolding unregister
unregister-Sound c ended h o s = record {
  open_members =
      leave_all-RoomsIn (IsOpen ended) (IsOpen (c.id ∷ ended)) c.id
        (λ r k p e. ground (arith, p, e)) h.rooms s.open_members;
  closed_ended = λ id. elim (Bool-cases (id == c.id)) [
    | inl e ↦ rw e (ground (arith, e))
    | inr e ↦ rw e (s.closed_ended id ∙ ground (arith, e))
  ];
  calm = rw (s.calm, s.closed_ended c.id, o) refl;
}

split : (a b : Bool) → (not a && b) ≡ true → (a ≡ false) × (b ≡ true)
split true b h = absurd (cc h)
split false b h = (refl, h)

run-Sound :
    (steps : List Step) (ended : List ℕ) (h : Hub)
    → is_orderly ended steps ≡ true
    → Sound ended h
    → (run steps h).panicked ≡ false
unfolding run step register join_channel leave_channel write
run-Sound [] ended h o s = s.calm
run-Sound (registering c ∷ steps) ended h o s =
    let (p, q) = split (has ended c.id) (is_orderly ended steps) o in
    run-Sound steps ended (register c h) q (record {
      open_members = join-RoomsIn (IsOpen ended) (org c.org) c h.rooms p s.open_members;
      closed_ended = s.closed_ended;
      calm = s.calm;
    })
run-Sound (unregistering c ∷ steps) ended h o s =
    let (p, q) = split (has ended c.id) (is_orderly (c.id ∷ ended) steps) o in
    run-Sound steps (c.id ∷ ended) (unregister c h) q (unregister-Sound c ended h p s)
run-Sound (broadcasting set ev ∷ steps) ended h o s =
    run-Sound steps ended (broadcast set ev h) o (broadcast-Sound set ev ended h s)
run-Sound (receiving set ev ∷ steps) ended h o s =
    run-Sound steps ended (broadcast_local set ev h) o (broadcast_local-Sound set ev ended h s)
run-Sound (joining c n ∷ steps) ended h o s =
    let (p, q) = split (has ended c.id) (is_orderly ended steps) o in
    run-Sound steps ended (join_channel c n h) q (record {
      open_members = join-RoomsIn (IsOpen ended) (channel n) c h.rooms p s.open_members;
      closed_ended = s.closed_ended;
      calm = s.calm;
    })
run-Sound (leaving c n ∷ steps) ended h o s =
    run-Sound steps ended (leave_channel c n h) o (record {
      open_members = leave_one-RoomsIn (IsOpen ended) (channel n) c.id h.rooms s.open_members;
      closed_ended = s.closed_ended;
      calm = s.calm;
    })
run-Sound (writing id ∷ steps) ended h o s = run-Sound steps ended (write id h) o (record {
  open_members = s.open_members;
  closed_ended = λ k.
      set_box-is_closed id (record (h.boxes id) { waiting = (h.boxes id).waiting - 1 }) h.boxes k
        refl
      ∙ s.closed_ended k;
  calm = s.calm;
})

-- The hub never sends on a closed channel, nor closes one again, where the registration and the joins
-- of each client come before its only end, and no step comes between the two parts of BroadcastLocal.
pub run-calm :
    (steps : List Step) → is_orderly [] steps ≡ true → (run steps new_hub).panicked ≡ false
run-calm steps o =
    run-Sound steps [] new_hub o
      (record { open_members = tt; closed_ended = λ id. refl; calm = refl })
