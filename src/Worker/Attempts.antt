-- ===== src/Worker/Attempts.antt =====
-- The attempts of one job in Pool.Start, backend/internal/worker/worker.go, and the pause between
-- them.
use open_agent_showcase.Common.{
  ℕ, zero, suc, ◌+◌, ◌*◌, ◌%◌, ◌^◌, ◌≤◌, ◌<◌, Bool, true, false, ◌&&◌, ◌==◌, ltb, leb,
  if◌then◌else◌, ◌≡◌, refl, sym, subst, ==_iff, arith, Bool-cases, inl, inr, ◌↔◌,
}

-- What the handler and the context do around one attempt: whether the handler returns no error, and
-- whether the pool's context is done after it.
pub record Attempt : Type 0 where
  pub succeeds : Bool
  pub stopped : Bool

-- How the loop leaves lastErr, and how often it called the handler.
pub record Report : Type 0 where
  pub calls : ℕ
  pub succeeded : Bool

-- The loop with `left` attempts to go. The `break` of the test before an attempt leaves the select and
-- not the loop, so the handler is called in any case; so does the one after the pause.
unfoldable pub attempts : (ℕ → Attempt) → ℕ → ℕ → Report
attempts act done zero = record { calls = done; succeeded = false }
attempts act done (suc left) =
    let rest = attempts act (suc done) left in
    if (act done).succeeds
    then record { calls = suc done; succeeded = true }
    else if (act done).stopped
    then record { calls = suc done; succeeded = false }
    else rest

-- for attempt := 0; attempt <= job.Retries; attempt++
unfoldable pub run_job : (ℕ → Attempt) → ℕ → Report
unfolding attempts
run_job act retries = attempts act 0 (suc retries)

-- time.Duration(1<<attempt) * time.Second on int64, in nanoseconds: what the 64 bits hold, and whether
-- that is a negative number.
abbrev pub second : ℕ
second = 10 ^ 9

unfoldable pub shifted : ℕ → ℕ
shifted attempt = 2 ^ attempt % 2 ^ 64 * second % 2 ^ 64

-- The time that time.After waits: none for a negative duration, and at most 30 seconds.
unfoldable pub backoff : ℕ → ℕ
backoff attempt =
    if leb (2 ^ 63) (shifted attempt)
    then 0
    else if ltb (30 * second) (shifted attempt)
    then 30 * second
    else shifted attempt

backoff-le : (attempt : ℕ) → backoff attempt ≤ 30 * second
unfolding backoff
backoff-le attempt = ground arith

abbrev all_below : (ℕ → Bool) → ℕ → Bool
all_below p zero = true
all_below p (suc n) = p n && all_below p n

all_below_sound : (p : ℕ → Bool) (n a : ℕ) → all_below p n ≡ true → a < n → p a ≡ true
all_below_sound p zero a h lt = absurd (omega arith)
all_below_sound p (suc n) a h lt = elim (Bool-cases (a == n)) [
  | inl e ↦ subst (λ x. p x ≡ true) (sym ((==_iff a n).0 e)) (ground arith)
  | inr e ↦ all_below_sound p n a (ground arith) (ground arith)
]

abbrev pub doubled : ℕ → ℕ
doubled attempt = if ltb 30 (2 ^ attempt) then 30 * second else 2 ^ attempt * second

-- As long as the nanoseconds fit in 63 bits, the pause after an attempt is 2 ^ attempt seconds, and at
-- most 30.
backoff-doubled : (attempt : ℕ) → attempt < 34 → backoff attempt ≡ doubled attempt
unfolding backoff shifted
backoff-doubled attempt lt =
    (==_iff (backoff attempt) (doubled attempt)).0
      (all_below_sound (λ a. backoff a == doubled a) 34 attempt refl lt)

attempts-calls :
    (act : ℕ → Attempt) (done left : ℕ)
    → (done ≤ (attempts act done left).calls) × ((attempts act done left).calls ≤ done + left)
unfolding attempts
attempts-calls act done zero = (omega arith, omega arith)
attempts-calls act done (suc left) = ground (arith, attempts-calls act (suc done) left)

attempts-reaches :
    (act : ℕ → Attempt) (done left a : ℕ)
    → done ≤ a
    → a < done + left
    → ((b : ℕ) → b < a → (act b).stopped ≡ false)
    → (act a).succeeds ≡ true
    → (attempts act done left).succeeded ≡ true
unfolding attempts
attempts-reaches act done zero a le lt going good = absurd (omega arith)
attempts-reaches act done (suc left) a le lt going good = elim (Bool-cases (done == a)) [
  | inl e ↦ rw (subst (λ x. (act x).succeeds ≡ true) (sym ((==_iff done a).0 e)) good) refl
  | inr e ↦ ground (
    arith,
    going done (ground arith),
    attempts-reaches act (suc done) left a (ground arith) (omega arith) going good,
  )
]

attempts-found :
    (act : ℕ → Attempt) (done left : ℕ)
    → (attempts act done left).succeeded ≡ true
    → (a : ℕ) × ((a < done + left) × ((act a).succeeds ≡ true))
unfolding attempts
attempts-found act done zero h = absurd (cc h)
attempts-found act done (suc left) h = elim (Bool-cases (act done).succeeds) [
  | inl e ↦ (done, (omega arith, e))
  | inr e ↦ elim (Bool-cases (act done).stopped) [
    | inl f ↦ absurd (cc (rw (e, f) at h))
    | inr f ↦
        let found = attempts-found act (suc done) left (rw (e, f) at h) in
        (found.0, (omega (arith, found.1.0), found.1.1))
  ]
]

-- The handler of a job is called at least once, also by a pool that is shut down, and at most as often
-- as its retries and one more.
run_job-calls :
    (act : ℕ → Attempt) (retries : ℕ)
    → (1 ≤ (run_job act retries).calls) × ((run_job act retries).calls ≤ retries + 1)
unfolding run_job attempts
run_job-calls act retries = ground (arith, attempts-calls act 1 retries)

-- Where the pool is not stopped, a job succeeds if and only if one of its attempts does.
pub run_job_iff :
    (act : ℕ → Attempt) (retries : ℕ)
    → ((b : ℕ) → (act b).stopped ≡ false)
    → ((run_job act retries).succeeded ≡ true)
      ↔ ((a : ℕ) × ((a ≤ retries) × ((act a).succeeds ≡ true)))
unfolding run_job
run_job_iff act retries going = (
  λ h.
      let found = attempts-found act 0 (suc retries) h in
      (found.0, (omega (arith, found.1.0), found.1.1)),
  λ h.
      attempts-reaches act 0 (suc retries) h.0 (omega arith) (omega (arith, h.1.0))
        (λ b lt. going b) h.1.1,
)
