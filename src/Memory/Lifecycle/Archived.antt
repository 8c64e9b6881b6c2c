-- ===== src/Memory/Lifecycle/Archived.antt =====
-- Archive and Restore of backend/internal/memory/service.go, one after the other.
use open_agent_showcase.Common.{
  ℕ, String, Option, none, some, List, [], ◌∷◌, true, false, ◌||◌, ◌==◌, ==_iff, if◌then◌else◌,
  find-Memᴰ, ◌++◌, ==_refl, arith, ◌≡◌, refl, sym, ap, ◌∙◌, subst, Bool-cases, inl, inr,
}
use open_agent_showcase.Memory.Store.{
  Memory, Version, Store, has_version, version_of, insert_version, find_memory, update_memory,
  update_unless_taken, checked_update, with_version, collides, is_taken,
}
use open_agent_showcase.Memory.Handle.Place.{of_some}
use open_agent_showcase.Memory.Lifecycle.{
  in_org, archived, restored, archive_row, archive, restore_row, restore,
}

-- A change that keeps the identifier.
KeepsId : (Memory → Memory) → Type 0
KeepsId f = (m : Memory) → (f m).id ≡ m.id

find-update_memory :
    (id : ℕ) (f : Memory → Memory) (rows : List Memory) (m : Memory)
    → KeepsId f
    → find_memory rows id ≡ some m
    → find_memory (update_memory id f rows) id ≡ some (f m)
unfolding update_memory KeepsId
find-update_memory id f [] m p h = absurd (cc h)
find-update_memory id f (x ∷ rows) m p h = elim (Bool-cases (x.id == id)) [
  | inl e ↦ rw (e, ap (λ n. n == id) (p x) ∙ e) (ap (λ y. some (f y)) (of_some (rw e at h)))
  | inr e ↦ rw (e, e) (find-update_memory id f rows m p (rw e at h))
]

update-update_memory :
    (id : ℕ) (f g : Memory → Memory) (rows : List Memory)
    → KeepsId f
    → update_memory id g (update_memory id f rows) ≡ update_memory id (λ m. g (f m)) rows
unfolding update_memory KeepsId
update-update_memory id f g [] p = refl
update-update_memory id f g (x ∷ rows) p = elim (Bool-cases (x.id == id)) [
  | inl e ↦
      rw (e, ap (λ n. n == id) (p x) ∙ e)
        (ap (λ r. g (f x) ∷ r) (update-update_memory id f g rows p))
  | inr e ↦ rw (e, e) (ap (λ r. x ∷ r) (update-update_memory id f g rows p))
]

-- The index does not compare a row with itself.
is_taken-update_memory :
    (id : ℕ) (f : Memory → Memory) (rows : List Memory) (m : Memory)
    → KeepsId f
    → m.id ≡ id
    → is_taken (update_memory id f rows) m ≡ is_taken rows m
unfolding is_taken update_memory KeepsId
is_taken-update_memory id f [] m p i = refl
is_taken-update_memory id f (x ∷ rows) m p i = elim (Bool-cases (x.id == id)) [
  | inl e ↦ rw (e, p x, i, e) (is_taken-update_memory id f rows m p i)
  | inr e ↦ rw e (ap (λ b. collides m x || b) (is_taken-update_memory id f rows m p i))
]

in_org_own :
    (org : ℕ) (f : Memory → Memory) (m : Memory) → (m.org == org) ≡ true → in_org org f m ≡ f m
unfolding in_org
in_org_own org f m o = rw o refl

in_org_foreign :
    (org : ℕ) (f : Memory → Memory) (m : Memory) → (m.org == org) ≡ false → in_org org f m ≡ m
unfolding in_org
in_org_foreign org f m o = rw o refl

in_org-restored :
    (now org : ℕ) (m : Memory)
    → in_org org (restored now) (in_org org archived m) ≡ in_org org (restored now) m
unfolding archived restored
in_org-restored now org m = elim (Bool-cases (m.org == org)) [
  | inl e ↦
      ap (in_org org (restored now)) (in_org_own org archived m e)
      ∙ in_org_own org (restored now) (archived m) e
      ∙ sym (in_org_own org (restored now) m e)
  | inr e ↦ ap (in_org org (restored now)) (in_org_foreign org archived m e)
]

archived-KeepsId : (org : ℕ) → KeepsId (in_org org archived)
unfolding KeepsId in_org archived
archived-KeepsId org m = elim (Bool-cases (m.org == org)) [ inl e ↦ rw e refl | inr e ↦ rw e refl ]

update_same :
    (id : ℕ) (f g : Memory → Memory) (rows : List Memory)
    → ((m : Memory) → f m ≡ g m)
    → update_memory id f rows ≡ update_memory id g rows
unfolding update_memory
update_same id f g [] h = refl
update_same id f g (x ∷ rows) h =
    ap (λ y. (if x.id == id then y else x) ∷ update_memory id f rows) (h x)
    ∙ ap (λ r. (if x.id == id then g x else x) ∷ r) (update_same id f g rows h)

-- A row that is found is of the identifier.
found-id : (id : ℕ) (rows : List Memory) (m : Memory) → find_memory rows id ≡ some m → m.id ≡ id
found-id id rows m h = (==_iff m.id id).0 (find-Memᴰ (λ (k : Memory). k.id == id) m rows h).1

-- An update that the index does not refuse.
checked_update-ok :
    (id : ℕ) (f : Memory → Memory) (rows : List Memory) (m : Memory)
    → find_memory rows id ≡ some m
    → is_taken rows (f m) ≡ false
    → checked_update id f rows ≡ some (update_memory id f rows)
unfolding checked_update update_unless_taken
checked_update-ok id f rows m h t = rw (h, t) refl

archive-ok :
    (org : ℕ) (m : Memory) (st : Store)
    → find_memory st.memories m.id ≡ some m
    → (m.org == org) ≡ true
    → archive org m.id st ≡ (
      record (with_version m "archived" st) {
        memories = update_memory m.id (in_org org archived) st.memories;
      },
      none,
    )
unfolding archive archive_row
archive-ok org m st h o = rw (h, o) refl

restore-ok :
    (now org : ℕ) (m : Memory) (st : Store)
    → find_memory st.memories m.id ≡ some m
    → (m.org == org) ≡ true
    → m.status ≡ "archived"
    → is_taken st.memories (in_org org (restored now) m) ≡ false
    → restore now org m.id st ≡ (
      record (with_version m "restored" st) {
        memories = update_memory m.id (in_org org (restored now)) st.memories;
      },
      none,
    )
unfolding restore restore_row
restore-ok now org m st h o s t =
    rw (h, o, s, checked_update-ok m.id (in_org org (restored now)) st.memories m h t) refl

has_version-snoc :
    (rows : List Version) (v : Version) → has_version (rows ++ v ∷ []) v.memory v.number ≡ true
has_version-snoc [] v = rw (==_refl v.memory, ==_refl v.number) refl
has_version-snoc (w ∷ rows) v = ground (arith, has_version-snoc rows v)

has_version-insert :
    (rows : List Version) (v : Version)
    → has_version (insert_version v rows) v.memory v.number ≡ true
has_version-insert rows v = elim (Bool-cases (has_version rows v.memory v.number)) [
  | inl e ↦ rw (e, e) refl
  | inr e ↦ rw e (has_version-snoc rows v)
]

-- A second version with the same number is refused.
insert_version_again :
    (rows : List Version) (v w : Version)
    → w.memory ≡ v.memory
    → w.number ≡ v.number
    → insert_version w (insert_version v rows) ≡ insert_version v rows
insert_version_again rows v w i n = rw (i, n, has_version-insert rows v) refl

-- A row of the organization that is archived and then restored is as it was but active and confirmed
-- now, where the index lets it be active; but the version that Restore writes has the number of the one
-- that Archive wrote, and is lost.
pub restore-archive :
    (now org : ℕ) (m : Memory) (st : Store)
    → find_memory st.memories m.id ≡ some m
    → (m.org == org) ≡ true
    → is_taken st.memories (restored now m) ≡ false
    → restore now org m.id (archive org m.id st).0 ≡ (
      record (with_version m "archived" st) {
        memories = update_memory m.id (in_org org (restored now)) st.memories;
      },
      none,
    )
unfolding archived restored in_org
restore-archive now org m st h o t =
    let rows = update_memory m.id (in_org org archived) st.memories in
    let st1 : Store = record (with_version m "archived" st) { memories = rows } in
    let found =
      subst (λ k. find_memory rows m.id ≡ some k) (in_org_own org archived m o)
        (find-update_memory m.id (in_org org archived) st.memories m (archived-KeepsId org) h) in
    let free =
      ap (is_taken rows) (in_org_own org (restored now) (archived m) o)
      ∙ is_taken-update_memory m.id (in_org org archived) st.memories (restored now m)
          (archived-KeepsId org) refl
      ∙ t in
    ap (λ (s : Store × Option String). restore now org m.id s.0) (archive-ok org m st h o)
    ∙ restore-ok now org (archived m) st1 found o refl free
    ∙ ap
        (λ (versions : List Version). (
          record {
            memories = update_memory m.id (in_org org (restored now)) rows;
            versions = versions;
          },
          none,
        ))
        (insert_version_again st.versions (version_of m "archived")
          (version_of (archived m) "restored") refl refl)
    ∙ ap
        (λ (after : List Memory).
          (record (with_version m "archived" st) { memories = after }, none))
        (update-update_memory m.id (in_org org archived) (in_org org (restored now)) st.memories
            (archived-KeepsId org)
          ∙ update_same m.id (λ k. in_org org (restored now) (in_org org archived k))
              (in_org org (restored now)) st.memories (in_org-restored now org))
