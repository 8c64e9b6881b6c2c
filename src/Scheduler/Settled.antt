-- ===== src/Scheduler/Settled.antt =====
-- That ProcessDueTriggers of backend/internal/scheduler/service.go leaves nothing that is due.
use open_agent_showcase.Common.{
  ℕ, ◌+◌, ◌==◌, ==_refl, List, [], ◌∷◌, Bool, true, false, ◌||◌, ◌&&◌, not, leb, str_eq,
  if◌then◌else◌, any, keep, All, ◌≡◌, refl, sym, ap, ◌∙◌, arith, Bool-cases, inl, inr,
}
use open_agent_showcase.Scheduler.{
  Config, Trigger, Store, Setting, next_weekly, has_come, is_due, is_claimable, claimed, claim,
  process_trigger, process_all, process_due_triggers,
}
use open_agent_showcase.Scheduler.Weekly.{next_weekly-later}
use open_agent_showcase.Scheduler.Again.{process_trigger-triggers}

abbrev has_trigger : List Trigger → ℕ → Bool
has_trigger rs id = any (λ (r : Trigger). r.id == id) rs

-- A due row of which no turn is left.
is_missed : ℕ → List Trigger → Trigger → Bool
is_missed now rs t = is_due now t && not (has_trigger rs t.id)

claimed_not_due : (now : ℕ) (cfg : Config) (t : Trigger) → is_due now (claimed now cfg t) ≡ false
unfolding claimed
claimed_not_due now cfg t = elim (Bool-cases (str_eq cfg.cron "")) [
  | inl e ↦ rw e refl
  | inr e ↦
      let later : leb (next_weekly cfg.cron cfg.ahead now) now ≡ false =
        ground (arith, next_weekly-later cfg.cron cfg.ahead now) in
      rw (e, later) (falses t.enabled (str_eq t.kind "schedule"))
]
  where
    falses : (b c : Bool) → (b && (c && false)) ≡ false
    falses b c = ground arith

-- A row that cannot be claimed and is due is another's.
not_claimable :
    (d e s m u : Bool)
    → (m && (d && e)) ≡ false
    → ((e && (s && d)) && not (m || u)) ≡ false
    → ((e && (s && d)) && not u) ≡ false
not_claimable d e s m u h k = ground arith

claim-is_missed :
    (now : ℕ) (r : Trigger) (rs rows : List Trigger)
    → any (is_missed now (r ∷ rs)) rows ≡ false
    → any (is_missed now rs) (claim now r.id r.config rows) ≡ false
unfolding claim is_missed
claim-is_missed now r rs [] h = refl
claim-is_missed now r rs (t ∷ rows) h =
    let (first, rest) = of_or (is_missed now (r ∷ rs) t) (any (is_missed now (r ∷ rs)) rows) h in
    elim (Bool-cases (is_claimable now r.id t)) [
      | inl e ↦ rw (e, claimed_not_due now r.config t) (claim-is_missed now r rs rows rest)
      | inr e ↦
          let other =
            ap (λ b. b && (has_come now t.next_run && t.enabled)) (==_comm r.id t.id) ∙ e in
          let left : is_missed now rs t ≡ false =
            not_claimable (has_come now t.next_run) t.enabled (str_eq t.kind "schedule")
              (r.id == t.id) (has_trigger rs t.id) other first in
          rw (e, left) (claim-is_missed now r rs rows rest)
    ]
  where
    ==_comm : (a b : ℕ) → (a == b) ≡ (b == a)
    ==_comm a b = ground arith

    of_or : (a b : Bool) → (a || b) ≡ false → (a ≡ false) × (b ≡ false)
    of_or true b h = absurd (cc h)
    of_or false b h = (refl, h)

claim_idle :
    (now id : ℕ) (cfg : Config) (rows : List Trigger)
    → any (is_claimable now id) rows ≡ false
    → claim now id cfg rows ≡ rows
unfolding claim
claim_idle now id cfg [] h = refl
claim_idle now id cfg (t ∷ rows) h = elim (Bool-cases (is_claimable now id t)) [
  | inl e ↦ absurd (cc (rw e at h))
  | inr e ↦ rw e (ap (λ rest. t ∷ rest) (claim_idle now id cfg rows (rw e at h)))
]

-- Every turn claims, where nothing is refused.
turn :
    (set : Setting) (r : Trigger) (st : Store)
    → set.task_fails ≡ false
    → set.scheduling_fails ≡ false
    → (process_trigger set r st).0.triggers ≡ claim set.now r.id r.config st.triggers
turn set r st h k = elim (Bool-cases (any (is_claimable set.now r.id) st.triggers)) [
  | inl e ↦ process_trigger-triggers set r st h (rw (e, k) refl)
  | inr e ↦ unfold process_trigger in rw e (sym (claim_idle set.now r.id r.config st.triggers e))
]

process_all-is_missed :
    (set : Setting) (rs : List Trigger) (st : Store) (n : ℕ)
    → set.task_fails ≡ false
    → set.scheduling_fails ≡ false
    → any (is_missed set.now rs) st.triggers ≡ false
    → any (is_missed set.now []) (process_all set rs (st, n)).0.triggers ≡ false
unfolding process_all
process_all-is_missed set [] st n h k m = m
process_all-is_missed set (r ∷ rs) st n h k m =
    let set' : Setting = record set { task_id = set.task_id + n } in
    let next = process_trigger set' r st in
    process_all-is_missed set rs next.0 (if next.1 then n + 1 else n) h k (
      ap (any (is_missed set.now rs)) (turn set' r st h k)
      ∙ claim-is_missed set.now r rs st.triggers m)

read_not_missed :
    (now : ℕ) (rs rows : List Trigger)
    → All (λ (t : Trigger). has_trigger rs t.id ≡ true) (keep (is_due now) rows)
    → any (is_missed now rs) rows ≡ false
unfolding is_missed
read_not_missed now rs [] h = refl
read_not_missed now rs (t ∷ rows) h = elim (Bool-cases (is_due now t)) [
  | inl e ↦
      let (has_turn, rest) = split (rw e at h) in
      rw (e, has_turn) (read_not_missed now rs rows rest)
  | inr e ↦ rw e (read_not_missed now rs rows (rw e at h))
]
  where
    split : {A B : Type 0} → A × B → A × B
    split h = h

any_due : (now : ℕ) (rows : List Trigger) → any (is_due now) rows ≡ any (is_missed now []) rows
unfolding is_missed
any_due now [] = refl
any_due now (t ∷ rows) =
    rw (any_due now rows) (ap (λ b. b || any (is_missed now []) rows) (and_true (is_due now t)))
  where
    and_true : (b : Bool) → b ≡ (b && true)
    and_true true = refl
    and_true false = refl

within :
    (xs ys : List Trigger)
    → ((id : ℕ) → has_trigger xs id ≡ true → has_trigger ys id ≡ true)
    → All (λ (t : Trigger). has_trigger ys t.id ≡ true) xs
within [] ys h = tt
within (x ∷ xs) ys h =
    (h x.id (rw (==_refl x.id) refl), within xs ys (λ id k. h id (ground (arith, k))))

-- Where the database refuses nothing, no trigger is due afterwards.
pub process_due_triggers-is_due :
    (set : Setting) (st : Store)
    → set.task_fails ≡ false
    → set.scheduling_fails ≡ false
    → any (is_due set.now) (process_due_triggers set st).0.triggers ≡ false
unfolding process_due_triggers
process_due_triggers-is_due set st h k =
    let due = keep (is_due set.now) st.triggers in
    any_due set.now (process_due_triggers set st).0.triggers
    ∙ process_all-is_missed set due st 0 h k
        (read_not_missed set.now due st.triggers (within due due (λ id m. m)))
