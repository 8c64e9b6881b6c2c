-- ===== src/Memory/Lifecycle/Expired.antt =====
-- CleanupExpired and MarkStale of backend/internal/memory/service.go.
use open_agent_showcase.Common.{
  ℕ, ◌-◌, ◌≤◌, ◌==◌, List, [], ◌∷◌, Bool, true, false, ◌||◌, ◌&&◌, not, str_eq, any, keep, map, ◌≡◌,
  refl, ◌∙◌, arith, Bool-cases, inl, inr,
}
use open_agent_showcase.Memory.Store.{Memory, Store}
use open_agent_showcase.Memory.Lifecycle.{
  is_expired, is_disposable, without_link, expire, cleanup_expired, becomes_stale, batch_of,
  mark_rows, mark_stale,
}

-- Of a memory past its time, what the cleaning up is there for.
unfoldable pub lingers : ℕ → Memory → Bool
lingers now m =
    is_expired now m
    && (str_eq m.status "active" || (str_eq m.status "stale" || str_eq m.status "archived"))

-- Past its time and active.
is_overdue : ℕ → Memory → Bool
is_overdue now m = is_expired now m && str_eq m.status "active"

module _ {ℓ} {A : Type ℓ} (p : A → Bool) where
  any-map : (f : A → A) (xs : List A) → ((a : A) → p (f a) ≡ p a) → any p (map f xs) ≡ any p xs
  any-map f [] h = refl
  any-map f (x ∷ xs) h = rw (h x, any-map f xs h) refl

  none-map : (f : A → A) (xs : List A) → ((a : A) → p (f a) ≡ false) → any p (map f xs) ≡ false
  none-map f [] h = refl
  none-map f (x ∷ xs) h = rw (h x, none-map f xs h) refl

and_false : (b : Bool) → (b && false) ≡ false
and_false true = refl
and_false false = refl

or_false : (a b : Bool) → a ≡ false → b ≡ false → (a || b) ≡ false
or_false a b e f = rw (e, f) refl

of_or : (a b : Bool) → (a || b) ≡ false → (a ≡ false) × (b ≡ false)
of_or true b h = absurd (cc h)
of_or false b h = (refl, h)

-- x: past its time; a, s, r: active, stale, archived.
overdue_lingers : (x a s r : Bool) → (x && a) ≡ true → (x && (a || (s || r))) ≡ false → ⊥
overdue_lingers x a s r h k = ground arith

lasting :
    (x a s r : Bool) → (x && a) ≡ false → (x && (s || r)) ≡ false → (x && (a || (s || r))) ≡ false
lasting x a s r h k = ground arith

expire_settles : (now : ℕ) (m : Memory) → is_overdue now (expire now m) ≡ false
unfolding is_overdue
expire_settles now m = elim (Bool-cases (is_expired now m && str_eq m.status "active")) [
  | inl e ↦ rw e (and_false (is_expired now m))
  | inr e ↦ rw (e, e) refl
]

-- What does not linger is not changed.
expire_lasting : (now : ℕ) (m : Memory) → lingers now m ≡ false → lingers now (expire now m) ≡ false
unfolding lingers
expire_lasting now m h = elim (Bool-cases (is_expired now m && str_eq m.status "active")) [
  | inl e ↦ absurd (
      overdue_lingers (is_expired now m) (str_eq m.status "active") (str_eq m.status "stale")
        (str_eq m.status "archived") e h)
  | inr e ↦ rw (e, h) refl
]

-- What is kept of rows none of which is overdue.
kept_settled :
    (now : ℕ) (rows : List Memory)
    → any (is_overdue now) rows ≡ false
    → any (lingers now) (keep (λ m. not (is_disposable now m)) rows) ≡ false
unfolding is_overdue lingers
kept_settled now [] h = refl
kept_settled now (m ∷ rows) h =
    let (settled, rest) = of_or (is_overdue now m) (any (is_overdue now) rows) h in
    elim (Bool-cases (is_disposable now m)) [
      | inl e ↦ rw e (kept_settled now rows rest)
      | inr e ↦ rw e (
          or_false (lingers now m) _
            (lasting (is_expired now m) (str_eq m.status "active") (str_eq m.status "stale")
              (str_eq m.status "archived") settled e)
            (kept_settled now rows rest))
    ]

lingers-map-expire :
    (now : ℕ) (rows : List Memory)
    → any (lingers now) rows ≡ false
    → any (lingers now) (map (expire now) rows) ≡ false
lingers-map-expire now [] h = refl
lingers-map-expire now (m ∷ rows) h =
    let (settled, rest) = of_or (lingers now m) (any (lingers now) rows) h in
    or_false (lingers now (expire now m)) (any (lingers now) (map (expire now) rows))
      (expire_lasting now m settled) (lingers-map-expire now rows rest)

-- After two rounds of the cleaning up at the same time, no memory that is past its time is active,
-- stale or archived.
cleanup_expired_twice :
    (now : ℕ) (st : Store)
    → any (lingers now) (cleanup_expired now (cleanup_expired now st).0).0.memories ≡ false
unfolding cleanup_expired
cleanup_expired_twice now st =
    let first = (cleanup_expired now st).0.memories in
    let kept = keep (λ m. not (is_disposable now m)) first in
    lingers-map-expire now (map (without_link kept) kept) (
      any-map (lingers now) (without_link kept) kept (unfold lingers in λ m. refl)
      ∙ kept_settled now first (
          none-map (is_overdue now) (expire now)
            (map (without_link (keep (λ m. not (is_disposable now m)) st.memories))
              (keep (λ m. not (is_disposable now m)) st.memories))
            (expire_settles now)))

mark_rows-le : (now left : ℕ) (rows : List Memory) → (mark_rows now left rows).1 ≤ left
unfolding mark_rows
mark_rows-le now left [] = omega arith
mark_rows-le now left (m ∷ rows) = elim (Bool-cases (becomes_stale now m && not (left == 0))) [
  | inl e ↦ rw e (ground (arith, mark_rows-le now (left - 1) rows))
  | inr e ↦ rw e (mark_rows-le now left rows)
]

-- MarkStale marks no more rows than its batch has, 50 where none is given.
pub mark_stale-le : (now batch : ℕ) (st : Store) → (mark_stale now batch st).1 ≤ batch_of 50 batch
unfolding mark_stale
mark_stale-le now batch st = mark_rows-le now (batch_of 50 batch) st.memories
