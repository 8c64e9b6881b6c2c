-- ===== src/Hub/Single.antt =====
-- That no client is twice in a room, in backend/internal/ws/hub.go.
use open_agent_showcase.Common.{
  ℕ, ◌==◌, List, [], ◌∷◌, Bool, false, any, All, ◌≡◌, refl, Bool-cases, inl, inr,
}
use open_agent_showcase.Hub.{
  Room, Client, same_room, without, members_of, other_rooms, join, unless_empty, leave_all,
  leave_one,
}

abbrev pub is_member : ℕ → List Client → Bool
is_member id members = any (λ (c : Client). c.id == id) members

-- No client is in the list twice.
abbrev pub Single : List Client → Type 0
Single [] = Unit
Single (c ∷ members) = (is_member c.id members ≡ false) × Single members

abbrev pub RoomsSingle : List (Room × List Client) → Type 0
RoomsSingle rooms = All (λ (e : Room × List Client). Single e.1) rooms

is_member-without :
    (id k : ℕ) (members : List Client)
    → is_member k members ≡ false
    → is_member k (without id members) ≡ false
is_member-without id k [] h = h
is_member-without id k (c ∷ members) h = elim (Bool-cases (c.id == k)) [
  | inl e ↦ absurd (cc (rw e at h))
  | inr e ↦
      let rest = is_member-without id k members (rw e at h) in
      elim (Bool-cases (c.id == id)) [ inl f ↦ rw f rest | inr f ↦ rw (f, e) rest ]
]

gone-without : (id : ℕ) (members : List Client) → is_member id (without id members) ≡ false
gone-without id [] = refl
gone-without id (c ∷ members) = elim (Bool-cases (c.id == id)) [
  | inl e ↦ rw e (gone-without id members)
  | inr e ↦ rw (e, e) (gone-without id members)
]

without-Single : (id : ℕ) (members : List Client) → Single members → Single (without id members)
without-Single id [] h = tt
without-Single id (c ∷ members) h = elim (Bool-cases (c.id == id)) [
  | inl e ↦ rw e (without-Single id members h.1)
  | inr e ↦ rw e (is_member-without id c.id members h.0, without-Single id members h.1)
]

pub members_of-Single :
    (r : Room) (rooms : List (Room × List Client)) → RoomsSingle rooms → Single (members_of r rooms)
unfolding members_of
members_of-Single r [] h = tt
members_of-Single r ((s, members) ∷ rooms) h = elim (Bool-cases (same_room s r)) [
  | inl e ↦ rw e h.0
  | inr e ↦ rw e (members_of-Single r rooms h.1)
]

other_rooms-RoomsSingle :
    (r : Room) (rooms : List (Room × List Client))
    → RoomsSingle rooms
    → RoomsSingle (other_rooms r rooms)
unfolding other_rooms
other_rooms-RoomsSingle r [] h = tt
other_rooms-RoomsSingle r ((s, members) ∷ rooms) h = elim (Bool-cases (same_room s r)) [
  | inl e ↦ rw e (other_rooms-RoomsSingle r rooms h.1)
  | inr e ↦ rw e (h.0, other_rooms-RoomsSingle r rooms h.1)
]

pub join-RoomsSingle :
    (r : Room) (c : Client) (rooms : List (Room × List Client))
    → RoomsSingle rooms
    → RoomsSingle (join r c rooms)
unfolding join
join-RoomsSingle r c rooms h = (
  (
    gone-without c.id (members_of r rooms),
    without-Single c.id (members_of r rooms) (members_of-Single r rooms h),
  ),
  other_rooms-RoomsSingle r rooms h,
)

unless_empty-RoomsSingle :
    (r : Room) (members : List Client) (rooms : List (Room × List Client))
    → Single members
    → RoomsSingle rooms
    → RoomsSingle (unless_empty r members rooms)
unless_empty-RoomsSingle r [] rooms m h = h
unless_empty-RoomsSingle r (c ∷ members) rooms m h = (m, h)

pub leave_all-RoomsSingle :
    (id : ℕ) (rooms : List (Room × List Client))
    → RoomsSingle rooms
    → RoomsSingle (leave_all id rooms)
unfolding leave_all
leave_all-RoomsSingle id [] h = tt
leave_all-RoomsSingle id ((r, members) ∷ rooms) h =
    unless_empty-RoomsSingle r (without id members) (leave_all id rooms)
      (without-Single id members h.0) (leave_all-RoomsSingle id rooms h.1)

pub leave_one-RoomsSingle :
    (r : Room) (id : ℕ) (rooms : List (Room × List Client))
    → RoomsSingle rooms
    → RoomsSingle (leave_one r id rooms)
unfolding leave_one
leave_one-RoomsSingle r id [] h = tt
leave_one-RoomsSingle r id ((s, members) ∷ rooms) h = elim (Bool-cases (same_room s r)) [
  | inl e ↦ rw e (
      unless_empty-RoomsSingle s (without id members) (leave_one r id rooms)
        (without-Single id members h.0) (leave_one-RoomsSingle r id rooms h.1))
  | inr e ↦ rw e (h.0, leave_one-RoomsSingle r id rooms h.1)
]
