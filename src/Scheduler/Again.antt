-- ===== src/Scheduler/Again.antt =====
-- That a due time is claimed once, in backend/internal/scheduler/service.go.
use open_agent_showcase.Common.{
  ℕ, ◌==◌, Option, none, some, List, [], ◌∷◌, Bool, true, false, ◌||◌, ◌&&◌, not, leb, str_eq, any,
  keep, ◌<◌, ◌⊎◌, ◌≡◌, refl, sym, ap, ◌∙◌, subst, arith, Bool-cases, inl, inr,
}
use open_agent_showcase.Scheduler.{
  Config, Trigger, Store, Setting, next_weekly, has_come, is_claimable, claimed, claim, with_task,
  process_trigger,
}

and_false : (b : Bool) → (b && false) ≡ false
and_false true = refl
and_false false = refl

-- Whether the next run of a trigger that was claimed at `now` has not come at `later`.
abbrev pub IsBefore : ℕ → ℕ → Config → Type 0
IsBefore later now cfg = (cfg.cron ≡ "") ⊎ (later < next_weekly cfg.cron cfg.ahead now)

claimed_not_claimable :
    (later now id : ℕ) (cfg : Config) (t : Trigger)
    → IsBefore later now cfg
    → is_claimable later id (claimed now cfg t) ≡ false
unfolding claimed
claimed_not_claimable later now id cfg t b = elim (Bool-cases (str_eq cfg.cron "")) [
  | inl e ↦ rw e (and_false (t.id == id))
  | inr e ↦ rw e (ground (arith, before b e))
]
  where
    before :
        IsBefore later now cfg
        → str_eq cfg.cron "" ≡ false
        → leb (next_weekly cfg.cron cfg.ahead now) later ≡ false
    before (inl empty) e = absurd (cc (subst (λ c. str_eq c "" ≡ false) empty e))
    before (inr less) e = ground arith

-- The rows of an identifier.
abbrev pub rows_of : ℕ → List Trigger → List Trigger
rows_of id rows = keep (λ (t : Trigger). t.id == id) rows

any-rows_of :
    (now id : ℕ) (rows : List Trigger)
    → any (is_claimable now id) (rows_of id rows) ≡ any (is_claimable now id) rows
any-rows_of now id [] = refl
any-rows_of now id (t ∷ rows) = elim (Bool-cases (t.id == id)) [
  | inl e ↦
      let rest = any-rows_of now id rows in
      rw (e, e) (ap (λ b. (has_come now t.next_run && t.enabled) || b) rest)
  | inr e ↦ rw e (any-rows_of now id rows)
]

claimed-id : (now : ℕ) (cfg : Config) (t : Trigger) → (claimed now cfg t).id ≡ t.id
unfolding claimed
claimed-id now cfg t = ground arith

rows_of-claim :
    (now id : ℕ) (cfg : Config) (rows : List Trigger)
    → rows_of id (claim now id cfg rows) ≡ claim now id cfg (rows_of id rows)
unfolding claim
rows_of-claim now id cfg [] = refl
rows_of-claim now id cfg (t ∷ rows) = elim (Bool-cases (t.id == id)) [
  | inr e ↦ rw (e, e) (rows_of-claim now id cfg rows)
  | inl e ↦ elim (Bool-cases (has_come now t.next_run && t.enabled)) [
    | inl f ↦
        rw (e, f, claimed-id now cfg t, e)
          (ap (λ r. claimed now cfg t ∷ r) (rows_of-claim now id cfg rows))
    | inr f ↦ rw (e, f, e) (ap (λ r. t ∷ r) (rows_of-claim now id cfg rows))
  ]
]

-- After the claim nobody can claim before the next run.
none_claimable :
    (later now id : ℕ) (cfg : Config) (rows : List Trigger) (t : Trigger)
    → rows_of id rows ≡ t ∷ []
    → any (is_claimable now id) rows ≡ true
    → IsBefore later now cfg
    → any (is_claimable later id) (claim now id cfg rows) ≡ false
unfolding claim
none_claimable later now id cfg rows t one due b =
    let ready : (is_claimable now id t || false) ≡ true =
      sym (ap (any (is_claimable now id)) one) ∙ any-rows_of now id rows ∙ due in
    let now_due : is_claimable now id t ≡ true = ground arith in
    let done : claim now id cfg (t ∷ []) ≡ claimed now cfg t ∷ [] = rw now_due refl in
    sym (any-rows_of later id (claim now id cfg rows))
    ∙ ap (any (is_claimable later id))
        (rows_of-claim now id cfg rows ∙ ap (claim now id cfg) one ∙ done)
    ∙ rw (claimed_not_claimable later now id cfg t b) refl

with_task-triggers :
    (set : Setting) (r : Trigger) (o : Option ℕ) (before st : Store)
    → set.task_fails ≡ false
    → (with_task set r o before st).triggers ≡ st.triggers
with_task-triggers set r none before st h = refl
with_task-triggers set r (some p) before st h = rw h refl

process_trigger_idle :
    (set : Setting) (r : Trigger) (st : Store)
    → any (is_claimable set.now r.id) st.triggers ≡ false
    → process_trigger set r st ≡ (st, false)
unfolding process_trigger
process_trigger_idle set r st h = rw h refl

-- What a turn of the loop that is counted leaves of the triggers.
pub process_trigger-triggers :
    (set : Setting) (r : Trigger) (st : Store)
    → set.task_fails ≡ false
    → (not (any (is_claimable set.now r.id) st.triggers) || set.scheduling_fails) ≡ false
    → (process_trigger set r st).0.triggers ≡ claim set.now r.id r.config st.triggers
unfolding process_trigger
process_trigger-triggers set r st h e = rw e (with_task-triggers set r r.project st _ h)

-- Where a worker has processed a trigger and counted it, and the row of tasks was not refused, a second
-- worker that has read the same row, of which there is one with its identifier, at whatever time before the next run and whatever the database
-- refuses it, changes nothing and does not count it. A trigger without a cron text has no next run.
pub process_trigger_again :
    (set set' : Setting) (r t : Trigger) (st : Store)
    → rows_of r.id st.triggers ≡ t ∷ []
    → set.task_fails ≡ false
    → (process_trigger set r st).1 ≡ true
    → IsBefore set'.now set.now r.config
    → let after = (process_trigger set r st).0 in process_trigger set' r after ≡ (after, false)
unfolding process_trigger
process_trigger_again set set' r t st one h counted b =
    elim (Bool-cases (not (any (is_claimable set.now r.id) st.triggers) || set.scheduling_fails)) [
      | inl e ↦ absurd (cc (rw e at counted))
      | inr e ↦ process_trigger_idle set' r (process_trigger set r st).0 (
          ap (any (is_claimable set'.now r.id)) (process_trigger-triggers set r st h e)
          ∙ none_claimable set'.now set.now r.id r.config st.triggers t one
              (was_due (any (is_claimable set.now r.id) st.triggers) set.scheduling_fails e) b)
    ]
  where
    was_due : (a f : Bool) → (not a || f) ≡ false → a ≡ true
    was_due a f e = ground arith
