-- ===== src/Hub/Rooms.antt =====
-- What holds of every member of every room, in backend/internal/ws/hub.go.
use open_agent_showcase.Common.{
  ℕ, ◌==◌, ==_iff, List, [], ◌∷◌, true, false, All, ◌≡◌, ap, subst, Bool-cases, inl, inr,
}
use open_agent_showcase.Hub.{
  Room, org, channel, Client, same_room, without, members_of, other_rooms, join, unless_empty,
  leave_all, leave_one,
}

abbrev pub AllIn : (Room → ℕ → Type 0) → Room → List Client → Type 0
AllIn P r members = All (λ (c : Client). P r c.id) members

abbrev pub RoomsIn : (Room → ℕ → Type 0) → List (Room × List Client) → Type 0
RoomsIn P rooms = All (λ (e : Room × List Client). AllIn P e.0 e.1) rooms

room_eq : (s r : Room) → same_room s r ≡ true → s ≡ r
room_eq (org a) (org b) h = ap org ((==_iff a b).0 h)
room_eq (org a) (channel b) h = absurd (cc h)
room_eq (channel a) (org b) h = absurd (cc h)
room_eq (channel a) (channel b) h = ap channel ((==_iff a b).0 h)

module _ (P Q : Room → ℕ → Type 0) (id : ℕ)
    (keeps : (r : Room) (k : ℕ) → P r k → (k == id) ≡ false → Q r k) where
  without-AllIn :
      (r : Room) (members : List Client) → AllIn P r members → AllIn Q r (without id members)
  without-AllIn r [] h = tt
  without-AllIn r (c ∷ members) h = elim (Bool-cases (c.id == id)) [
    | inl e ↦ rw e (without-AllIn r members h.1)
    | inr e ↦ rw e (keeps r c.id h.0 e, without-AllIn r members h.1)
  ]

  unless_empty-RoomsIn :
      (r : Room) (members : List Client) (rooms : List (Room × List Client))
      → AllIn Q r members
      → RoomsIn Q rooms
      → RoomsIn Q (unless_empty r members rooms)
  unless_empty-RoomsIn r [] rooms m h = h
  unless_empty-RoomsIn r (c ∷ members) rooms m h = (m, h)

  pub leave_all-RoomsIn :
      (rooms : List (Room × List Client)) → RoomsIn P rooms → RoomsIn Q (leave_all id rooms)
  unfolding leave_all
  leave_all-RoomsIn [] h = tt
  leave_all-RoomsIn ((r, members) ∷ rooms) h =
      unless_empty-RoomsIn r (without id members) (leave_all id rooms) (without-AllIn r members h.0)
        (leave_all-RoomsIn rooms h.1)

module _ (P : Room → ℕ → Type 0) where
  pub members_of-AllIn :
      (r : Room) (rooms : List (Room × List Client))
      → RoomsIn P rooms
      → AllIn P r (members_of r rooms)
  unfolding members_of
  members_of-AllIn r [] h = tt
  members_of-AllIn r ((s, members) ∷ rooms) h = elim (Bool-cases (same_room s r)) [
    | inl e ↦ rw e (subst (λ t. AllIn P t members) (room_eq s r e) h.0)
    | inr e ↦ rw e (members_of-AllIn r rooms h.1)
  ]

  other_rooms-RoomsIn :
      (r : Room) (rooms : List (Room × List Client))
      → RoomsIn P rooms
      → RoomsIn P (other_rooms r rooms)
  unfolding other_rooms
  other_rooms-RoomsIn r [] h = tt
  other_rooms-RoomsIn r ((s, members) ∷ rooms) h = elim (Bool-cases (same_room s r)) [
    | inl e ↦ rw e (other_rooms-RoomsIn r rooms h.1)
    | inr e ↦ rw e (h.0, other_rooms-RoomsIn r rooms h.1)
  ]

  pub join-RoomsIn :
      (r : Room) (c : Client) (rooms : List (Room × List Client))
      → P r c.id
      → RoomsIn P rooms
      → RoomsIn P (join r c rooms)
  unfolding join
  join-RoomsIn r c rooms m h = (
    (m, without-AllIn P P c.id (λ s k p e. p) r (members_of r rooms) (members_of-AllIn r rooms h)),
    other_rooms-RoomsIn r rooms h,
  )

  pub leave_one-RoomsIn :
      (r : Room) (id : ℕ) (rooms : List (Room × List Client))
      → RoomsIn P rooms
      → RoomsIn P (leave_one r id rooms)
  unfolding leave_one
  leave_one-RoomsIn r id [] h = tt
  leave_one-RoomsIn r id ((s, members) ∷ rooms) h = elim (Bool-cases (same_room s r)) [
    | inl e ↦ rw e (
        unless_empty-RoomsIn P P id (λ t k p e. p) s (without id members) (leave_one r id rooms)
          (without-AllIn P P id (λ t k p e. p) s members h.0) (leave_one-RoomsIn r id rooms h.1))
    | inr e ↦ rw e (h.0, leave_one-RoomsIn r id rooms h.1)
  ]
