-- ===== src/Hub.antt =====
-- The hub of the WebSocket clients, backend/internal/ws/hub.go: Run, BroadcastLocal, JoinChannel,
-- LeaveChannel and what WritePump takes. A step is what one goroutine does while it holds the lock, or
-- one turn of the loop of Run; the channels register, unregister and broadcast are read in any order.
-- Times are seconds. A client's identifier names its connection.
pub mod Rooms
pub mod Isolated
pub mod Closed
pub mod Orderly
pub mod Single
pub mod Counts
pub mod Once
use open_agent_showcase.Common.{
  ℕ, suc, ◌+◌, ◌-◌, ◌==◌, Option, none, some, List, [], ◌∷◌, ◌++◌, Bool, true, false, ◌||◌, ◌&&◌,
  not, ltb, if◌then◌else◌, any, keep, length,
}

-- "org:<id>" or "channel:<id>"
pub data Room : Type 0 where
  org channel : ℕ → Room

-- Event; the type and the payload are a number. An empty ID is none.
pub record Event : Type 0 where
  pub id : Option ℕ
  pub content : ℕ
  pub room : Room

pub record Client : Type 0 where
  pub id : ℕ
  pub org : ℕ

-- The channel Send of a client: what was ever put into it, the latest first, and how much of that is
-- still there.
pub record Box : Type 0 where
  pub delivered : List Event
  pub waiting : ℕ
  pub is_closed : Bool

-- The hub and the channels of the clients. `panicked` says that a closed channel was sent to or closed.
pub record Hub : Type 0 where
  pub clients : List Client
  pub rooms : List (Room × List Client)
  pub seen : List (ℕ × ℕ)
  pub boxes : ℕ → Box
  pub published : List Event
  pub panicked : Bool

abbrev pub same_room : Room → Room → Bool
same_room (org a) (org b) = a == b
same_room (org a) (channel b) = false
same_room (channel a) (org b) = false
same_room (channel a) (channel b) = a == b

abbrev pub without : ℕ → List Client → List Client
without id members = keep (λ (c : Client). not (c.id == id)) members

-- h.rooms[room]
unfoldable pub members_of : Room → List (Room × List Client) → List Client
members_of r [] = []
members_of r ((s, members) ∷ rooms) = if same_room s r then members else members_of r rooms

unfoldable pub other_rooms : Room → List (Room × List Client) → List (Room × List Client)
other_rooms r [] = []
other_rooms r ((s, members) ∷ rooms) =
    let rest = other_rooms r rooms in if same_room s r then rest else (s, members) ∷ rest

-- h.rooms[room][c.ID] = c, the room made if it is not there.
unfoldable pub join : Room → Client → List (Room × List Client) → List (Room × List Client)
unfolding members_of other_rooms
join r c rooms = (r, c ∷ without c.id (members_of r rooms)) ∷ other_rooms r rooms

abbrev unless_empty : Room → List Client → List (Room × List Client) → List (Room × List Client)
unless_empty r [] rooms = rooms
unless_empty r (c ∷ members) rooms = (r, c ∷ members) ∷ rooms

-- delete(members, c.ID) in every room; a room that is left empty is deleted.
unfoldable pub leave_all : ℕ → List (Room × List Client) → List (Room × List Client)
leave_all id [] = []
leave_all id ((r, members) ∷ rooms) = unless_empty r (without id members) (leave_all id rooms)

-- The same in one room.
unfoldable pub leave_one : Room → ℕ → List (Room × List Client) → List (Room × List Client)
leave_one r id [] = []
leave_one r id ((s, members) ∷ rooms) =
    let rest = leave_one r id rooms in
    if same_room s r then unless_empty s (without id members) rest else (s, members) ∷ rest

abbrev pub has_key : List (ℕ × ℕ) → ℕ → Bool
has_key seen i = any (λ (e : ℕ × ℕ). e.0 == i) seen

abbrev pub most_seen : ℕ
most_seen = 1000

abbrev pub kept_for : ℕ
kept_for = 300

abbrev pub prune : ℕ → List (ℕ × ℕ) → List (ℕ × ℕ)
prune now seen =
    if ltb most_seen (length seen)
    then keep (λ (e : ℕ × ℕ). not (ltb kept_for (now - e.1))) seen
    else seen

-- isDuplicate, with what has been seen afterwards.
unfoldable pub is_duplicate : ℕ → Option ℕ → List (ℕ × ℕ) → Bool × List (ℕ × ℕ)
is_duplicate now none seen = (false, seen)
is_duplicate now (some i) seen =
    if has_key seen i then (true, seen) else (false, prune now ((i, now) ∷ seen))

-- ensureEventMeta
abbrev pub ensure_event_meta : ℕ → Event → Event
ensure_event_meta fresh ev = record ev { id = elim ev.id [ none ↦ some fresh | some i ↦ some i ] }

-- select { case c.Send <- ev: default: }, where it does not panic.
unfoldable pub put : ℕ → Event → Box → Box
put capacity ev box =
    if not box.is_closed && ltb box.waiting capacity
    then record box { delivered = ev ∷ box.delivered; waiting = suc box.waiting }
    else box

abbrev pub set_box : ℕ → Box → (ℕ → Box) → ℕ → Box
set_box id box boxes k = if k == id then box else boxes k

-- The loop over the targets. A send on a closed channel panics.
unfoldable pub deliver : ℕ → Event → List Client → (ℕ → Box) × Bool → (ℕ → Box) × Bool
unfolding put
deliver capacity ev [] s = s
deliver capacity ev (c ∷ targets) (boxes, panicked) =
    deliver capacity ev targets
      (set_box c.id (put capacity ev (boxes c.id)) boxes, panicked || (boxes c.id).is_closed)

unfoldable pub send_all : ℕ → Event → List Client → Hub → Hub
unfolding deliver
send_all capacity ev targets h =
    let s = deliver capacity ev targets (h.boxes, h.panicked) in
    record h { boxes = s.0; panicked = s.1 }

unfoldable pub register : Client → Hub → Hub
unfolding join
register c h = record h { clients = c ∷ without c.id h.clients; rooms = join (org c.org) c h.rooms }

unfoldable pub unregister : Client → Hub → Hub
unfolding leave_all
unregister c h = record h {
  clients = without c.id h.clients;
  rooms = leave_all c.id h.rooms;
  boxes = set_box c.id (record (h.boxes c.id) { is_closed = true }) h.boxes;
  panicked = h.panicked || (h.boxes c.id).is_closed;
}

-- What surrounds the hub: the time, an identifier that is made up for an event without one, the
-- capacity of Send, and whether there is a Redis broadcaster.
pub record Setting : Type 0 where
  pub now : ℕ
  pub fresh : ℕ
  pub capacity : ℕ
  pub has_redis : Bool

-- Run's turn for an event: the test for a duplicate comes before an identifier is made up.
unfoldable pub broadcast : Setting → Event → Hub → Hub
unfolding is_duplicate send_all members_of
broadcast set ev h =
    let (again, seen) = is_duplicate set.now ev.id h.seen in
    if again
    then record h { seen = seen }
    else let ev' = ensure_event_meta set.fresh ev in
      send_all set.capacity ev' (members_of ev.room h.rooms) (record h {
        seen = seen;
        published = if set.has_redis then ev' ∷ h.published else h.published;
      })

-- BroadcastLocal up to where the lock is given back: the event and its targets, unless it is a
-- duplicate.
unfoldable pub begin_local : Setting → Event → Hub → Hub × Option (Event × List Client)
unfolding is_duplicate members_of
begin_local set ev h =
    let ev' = ensure_event_meta set.fresh ev in
    let (again, seen) = is_duplicate set.now ev'.id h.seen in
    (record h { seen = seen }, if again then none else some (ev', members_of ev.room h.rooms))

-- The rest of it.
unfoldable pub end_local : Setting → Option (Event × List Client) → Hub → Hub
unfolding send_all
end_local set none h = h
end_local set (some (ev, targets)) h = send_all set.capacity ev targets h

-- Without another step in between.
unfoldable pub broadcast_local : Setting → Event → Hub → Hub
unfolding begin_local end_local
broadcast_local set ev h = let (h', work) = begin_local set ev h in end_local set work h'

unfoldable pub join_channel : Client → ℕ → Hub → Hub
unfolding join
join_channel c n h = record h { rooms = join (channel n) c h.rooms }

unfoldable pub leave_channel : Client → ℕ → Hub → Hub
unfolding leave_one
leave_channel c n h = record h { rooms = leave_one (channel n) c.id h.rooms }

-- WritePump takes an event out of Send.
unfoldable pub write : ℕ → Hub → Hub
write id h = record h {
  boxes = set_box id (record (h.boxes id) { waiting = (h.boxes id).waiting - 1 }) h.boxes;
}

pub data Step : Type 0 where
  registering unregistering : Client → Step
  broadcasting receiving : Setting → Event → Step
  joining leaving : Client → ℕ → Step
  writing : ℕ → Step

unfoldable pub step : Step → Hub → Hub
unfolding register unregister broadcast broadcast_local join_channel leave_channel write
step (registering c) h = register c h
step (unregistering c) h = unregister c h
step (broadcasting set ev) h = broadcast set ev h
step (receiving set ev) h = broadcast_local set ev h
step (joining c n) h = join_channel c n h
step (leaving c n) h = leave_channel c n h
step (writing id) h = write id h

unfoldable pub run : List Step → Hub → Hub
unfolding step
run [] h = h
run (s ∷ steps) h = run steps (step s h)

-- NewHub
abbrev pub new_hub : Hub
new_hub = record {
  clients = [];
  rooms = [];
  seen = [];
  boxes = λ id. record { delivered = []; waiting = 0; is_closed = false };
  published = [];
  panicked = false;
}
