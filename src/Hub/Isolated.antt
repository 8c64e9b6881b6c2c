-- ===== src/Hub/Isolated.antt =====
-- That the hub of backend/internal/ws/hub.go keeps the events of an organization to its clients.
use open_agent_showcase.Common.{
  ℕ, ◌-◌, ◌==◌, ==_iff, List, [], ◌∷◌, Bool, true, ◌||◌, ◌&&◌, not, ltb, if◌then◌else◌, All, ◌≡◌,
  sym, subst, Bool-cases, inl, inr,
}
use open_agent_showcase.Hub.{
  Room, org, channel, Event, Client, Box, Hub, members_of, is_duplicate, ensure_event_meta, put,
  set_box, deliver, send_all, Setting, broadcast, begin_local, end_local, broadcast_local, register,
  unregister, join_channel, leave_channel, write, Step, registering, unregistering, broadcasting,
  receiving, joining, leaving, writing, step, run, new_hub,
}
use open_agent_showcase.Hub.Rooms.{
  AllIn, RoomsIn, members_of-AllIn, join-RoomsIn, leave_all-RoomsIn, leave_one-RoomsIn,
}

-- Every connection belongs to an organization.
module _ (owner : ℕ → ℕ) where
  -- A client may read the room.
  abbrev pub MayRead : Room → ℕ → Type 0
  MayRead (org o) id = o ≡ owner id
  MayRead (channel n) id = Unit

  abbrev pub BoxesFit : (ℕ → Box) → Type 0
  BoxesFit boxes = (id : ℕ) → All (λ (ev : Event). MayRead ev.room id) (boxes id).delivered

  Isolated : Hub → Type 0
  Isolated h = RoomsIn MayRead h.rooms × BoxesFit h.boxes

  set_box-BoxesFit :
      (id : ℕ) (box : Box) (boxes : ℕ → Box)
      → All (λ (ev : Event). MayRead ev.room id) box.delivered
      → BoxesFit boxes
      → BoxesFit (set_box id box boxes)
  set_box-BoxesFit id box boxes m h k = elim (Bool-cases (k == id)) [
    | inl e ↦ rw e (
        subst (λ i. All (λ (ev : Event). MayRead ev.room i) box.delivered) (sym ((==_iff k id).0 e))
          m)
    | inr e ↦ rw e (h k)
  ]

  put-fits :
      (capacity id : ℕ) (ev : Event) (box : Box)
      → MayRead ev.room id
      → All (λ (e : Event). MayRead e.room id) box.delivered
      → All (λ (e : Event). MayRead e.room id) (put capacity ev box).delivered
  unfolding put
  put-fits capacity id ev box m h =
      elim (Bool-cases (not box.is_closed && ltb box.waiting capacity)) [
        | inl e ↦ rw e (m, h)
        | inr e ↦ rw e h
      ]

  deliver-BoxesFit :
      (capacity : ℕ) (ev : Event) (targets : List Client) (boxes : ℕ → Box) (p : Bool)
      → AllIn MayRead ev.room targets
      → BoxesFit boxes
      → BoxesFit (deliver capacity ev targets (boxes, p)).0
  unfolding deliver
  deliver-BoxesFit capacity ev [] boxes p m h = h
  deliver-BoxesFit capacity ev (c ∷ targets) boxes p m h =
      deliver-BoxesFit capacity ev targets (set_box c.id (put capacity ev (boxes c.id)) boxes)
        (p || (boxes c.id).is_closed) m.1
        (set_box-BoxesFit c.id (put capacity ev (boxes c.id)) boxes
          (put-fits capacity c.id ev (boxes c.id) m.0 (h c.id)) h)

  send_all-Isolated :
      (capacity : ℕ) (ev : Event) (targets : List Client) (h : Hub)
      → AllIn MayRead ev.room targets
      → Isolated h
      → Isolated (send_all capacity ev targets h)
  unfolding send_all Isolated
  send_all-Isolated capacity ev targets h m i =
      (i.0, deliver-BoxesFit capacity ev targets h.boxes h.panicked m i.1)

  broadcast-Isolated :
      (set : Setting) (ev : Event) (h : Hub) → Isolated h → Isolated (broadcast set ev h)
  unfolding broadcast Isolated
  broadcast-Isolated set ev h i = elim (Bool-cases (is_duplicate set.now ev.id h.seen).0) [
    | inl e ↦ rw e i
    | inr e ↦
        let ev' = ensure_event_meta set.fresh ev in
        let seen = (is_duplicate set.now ev.id h.seen).1 in
        let published = if set.has_redis then ev' ∷ h.published else h.published in
        rw e (
          send_all-Isolated set.capacity ev' (members_of ev.room h.rooms)
            (record h { seen = seen; published = published })
            (members_of-AllIn MayRead ev.room h.rooms i.0) i)
  ]

  broadcast_local-Isolated :
      (set : Setting) (ev : Event) (h : Hub) → Isolated h → Isolated (broadcast_local set ev h)
  unfolding broadcast_local begin_local end_local Isolated
  broadcast_local-Isolated set ev h i =
      let ev' = ensure_event_meta set.fresh ev in
      elim (Bool-cases (is_duplicate set.now ev'.id h.seen).0) [
        | inl e ↦ rw e i
        | inr e ↦ rw e (
            send_all-Isolated set.capacity ev' (members_of ev.room h.rooms)
              (record h { seen = (is_duplicate set.now ev'.id h.seen).1 })
              (members_of-AllIn MayRead ev.room h.rooms i.0) i)
      ]

  -- The client of a step belongs to the organization that the hub is told.
  abbrev pub Told : List Step → Type 0
  Told [] = Unit
  Told (registering c ∷ steps) = (c.org ≡ owner c.id) × Told steps
  Told (unregistering c ∷ steps) = Told steps
  Told (broadcasting set ev ∷ steps) = Told steps
  Told (receiving set ev ∷ steps) = Told steps
  Told (joining c n ∷ steps) = Told steps
  Told (leaving c n ∷ steps) = Told steps
  Told (writing id ∷ steps) = Told steps

  run-Isolated : (steps : List Step) (h : Hub) → Told steps → Isolated h → Isolated (run steps h)
  unfolding run Isolated step register unregister join_channel leave_channel write
  run-Isolated [] h t i = i
  run-Isolated (registering c ∷ steps) h t i =
      run-Isolated steps (register c h) t.1
        (join-RoomsIn MayRead (org c.org) c h.rooms t.0 i.0, i.1)
  run-Isolated (unregistering c ∷ steps) h t i = run-Isolated steps (unregister c h) t (
    leave_all-RoomsIn MayRead MayRead c.id (λ r k p e. p) h.rooms i.0,
    set_box-BoxesFit c.id (record (h.boxes c.id) { is_closed = true }) h.boxes (i.1 c.id) i.1,
  )
  run-Isolated (broadcasting set ev ∷ steps) h t i =
      run-Isolated steps (broadcast set ev h) t (broadcast-Isolated set ev h i)
  run-Isolated (receiving set ev ∷ steps) h t i =
      run-Isolated steps (broadcast_local set ev h) t (broadcast_local-Isolated set ev h i)
  run-Isolated (joining c n ∷ steps) h t i =
      run-Isolated steps (join_channel c n h) t
        (join-RoomsIn MayRead (channel n) c h.rooms tt i.0, i.1)
  run-Isolated (leaving c n ∷ steps) h t i =
      run-Isolated steps (leave_channel c n h) t
        (leave_one-RoomsIn MayRead (channel n) c.id h.rooms i.0, i.1)
  run-Isolated (writing id ∷ steps) h t i = run-Isolated steps (write id h) t (
    i.0,
    set_box-BoxesFit id (record (h.boxes id) { waiting = (h.boxes id).waiting - 1 }) h.boxes
        (i.1 id) i.1,
  )

-- Whatever the steps are and their order, an event of the room of an organization is only ever put into
-- the channel of a client of that organization. Each connection is registered with the organization it
-- belongs to.
pub run-BoxesFit :
    (owner : ℕ → ℕ) (steps : List Step)
    → Told owner steps
    → BoxesFit owner (run steps new_hub).boxes
unfolding Isolated
run-BoxesFit owner steps t = (run-Isolated owner steps new_hub t (tt, λ id. tt)).1
