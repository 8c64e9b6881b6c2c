-- ===== src/Scheduler/Weekly.antt =====
-- When a weekly trigger of backend/internal/scheduler/service.go runs next.
use open_agent_showcase.Common.{
  ℕ, ◌+◌, ◌-◌, ◌*◌, ◌/◌, ◌%◌, ◌≤◌, ◌<◌, ◌==◌, String, true, false, ◌&&◌, leb, ◌≡◌, arith,
  Bool-cases, inl, inr,
}
use open_agent_showcase.Scheduler.{day, weekday, is_monday_at_nine, days_until_monday, next_weekly}

-- The days to Monday from a weekday.
to_monday : (w : ℕ) → w ≤ 6 → ((w + (8 - (w + 1) % 7) % 7) % 7 ≡ 0) × ((8 - (w + 1) % 7) % 7 ≤ 6)
to_monday w h = (omega (arith, h), omega arith)

weekday_le : (t : ℕ) → weekday t ≤ 6
weekday_le t = omega arith

until_monday : (t : ℕ) → ((weekday t + days_until_monday t) % 7 ≡ 0) × (days_until_monday t ≤ 7)
unfolding days_until_monday
until_monday t =
    let days = (8 - (weekday t + 1) % 7) % 7 in
    let (a, b) = to_monday (weekday t) (weekday_le t) in
    elim (Bool-cases (days == 0 && leb 9 ((t % day) / 3600))) [
      | inl e ↦
          let zero_days : days ≡ 0 = ground (arith, e) in
          rw e (omega (arith, a, zero_days), omega arith)
      | inr e ↦ rw e (a, omega (arith, b))
    ]

early : (days r : ℕ) → (days == 0 && leb 9 (r / 3600)) ≡ false → r < day → r < days * day + 9 * 3600
early days r h k = ground arith

late : (days r : ℕ) → (days == 0 && leb 9 (r / 3600)) ≡ true → 9 * 3600 ≤ r
late days r h = ground arith

-- Nine o'clock on that day is later, and no more than a week away.
is_later : (t : ℕ) → t % day < days_until_monday t * day + 9 * 3600
unfolding days_until_monday
is_later t =
    let days = (8 - (weekday t + 1) % 7) % 7 in
    elim (Bool-cases (days == 0 && leb 9 ((t % day) / 3600))) [
      | inl e ↦ rw e (omega arith)
      | inr e ↦ rw e (early days (t % day) e (omega arith))
    ]

within_week : (t : ℕ) → days_until_monday t * day + 9 * 3600 ≤ t % day + 7 * day
unfolding days_until_monday
within_week t =
    let days = (8 - (weekday t + 1) % 7) % 7 in
    let (a, b) = to_monday (weekday t) (weekday_le t) in
    elim (Bool-cases (days == 0 && leb 9 ((t % day) / 3600))) [
      | inl e ↦ rw e (omega (arith, late days (t % day) e))
      | inr e ↦ rw e (omega (arith, b))
    ]

-- The next run of a weekly trigger is on a Monday at nine by the clock of its time zone, later than now
-- and within a week, where the clock does not change to or from summer time.
pub next_weekly-monday :
    (cron : String) (ahead now : ℕ)
    → is_monday_at_nine cron ≡ true
    → ((weekday (next_weekly cron ahead now + ahead) ≡ 0)
        × ((next_weekly cron ahead now + ahead) % day ≡ 9 * 3600))
      × ((now < next_weekly cron ahead now) × (next_weekly cron ahead now ≤ now + 7 * day))
unfolding next_weekly
next_weekly-monday cron ahead now h =
    let t = now + ahead in
    let (a, b) = until_monday t in
    rw h (
      (omega (arith, a, is_later t), omega (arith, is_later t)),
      (omega (arith, is_later t), omega (arith, within_week t)),
    )

-- The next run is always later.
pub next_weekly-later : (cron : String) (ahead now : ℕ) → now < next_weekly cron ahead now
unfolding next_weekly
next_weekly-later cron ahead now = elim (Bool-cases (is_monday_at_nine cron)) [
  | inl e ↦ (next_weekly-monday cron ahead now e).1.0
  | inr e ↦ rw e (omega arith)
]
