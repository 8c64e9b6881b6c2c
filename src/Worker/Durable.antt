-- ===== src/Worker/Durable.antt =====
-- The queue in the database, backend/internal/worker/durable.go, and its two-way enqueue. Times are
-- seconds, and rows stand in the order of their creation.
pub mod Claims
use open_agent_showcase.Common.{
  ℕ, zero, suc, ◌+◌, ◌*◌, ◌/◌, String, Option, none, some, List, [], ◌∷◌, ◌++◌, Bool, true, false,
  ◌&&◌, not, ◌==◌, ltb, leb, str_eq, any, if◌then◌else◌, Bytes, bytes_eq,
}
use open_agent_showcase.Worker.{Job, Pool, Outcome, with_defaults, enqueue}
use open_agent_showcase.Worker.Attempts.{backoff, second}

-- A row of jobs. `lease_until` is written and never read.
pub record Row : Type 0 where
  pub id : ℕ
  pub kind : Bytes
  pub key : Bytes
  pub status : String
  pub attempts : ℕ
  pub max_retries : ℕ
  pub next_retry_at : Option ℕ
  pub claimed_by : Option ℕ
  pub lease_until : Option ℕ

abbrev new_job : ℕ → ℕ → Job → Row
new_job now id job = record {
  id = id;
  kind = job.kind;
  key = job.key;
  status = "pending";
  attempts = 0;
  max_retries = job.retries;
  next_retry_at = some now;
  claimed_by = none;
  lease_until = none;
}

-- INSERT … ON CONFLICT (idempotency_key) DO NOTHING
abbrev insert_job : ℕ → ℕ → Job → List Row → List Row
insert_job now id job rows =
    if any (λ (r : Row). bytes_eq r.key job.key) rows then rows else rows ++ new_job now id job ∷ []

-- EnqueueDurable: the row, and the job in the pool beside it. The first INSERT is the one that counts;
-- the second differs in the organization alone.
unfoldable pub enqueue_durable : ℕ → ℕ → List Row × Pool → Job → List Row × Pool
enqueue_durable now id q job =
    (insert_job now id (with_defaults job) q.0, (enqueue now q.1 (with_defaults job)).0)

abbrev pub is_due : ℕ → Row → Bool
is_due now r =
    str_eq r.status "pending" && elim r.next_retry_at [ none ↦ true | some t ↦ leb t now ]

-- claimJob: the first row that is pending and due, and the rows after the claim.
unfoldable pub claim : ℕ → ℕ → List Row → Option (Row × List Row)
claim now worker [] = none
claim now worker (r ∷ rows) =
    if is_due now r
    then some (
      r,
      record r { status = "claimed"; claimed_by = some worker; lease_until = some (now + 30) }
          ∷ rows,
    )
    else elim (claim now worker rows) [ none ↦ none | some found ↦ some (found.0, r ∷ found.1) ]

abbrev pub on_row : (Row → Row) → ℕ → List Row → List Row
on_row f id [] = []
on_row f id (r ∷ rows) = (if r.id == id then f r else r) ∷ on_row f id rows

-- The write after a failed attempt that is not the last; the job is asleep for a tenth of the pause and
-- then runs again.
unfoldable pub mark_retry : ℕ → ℕ → ℕ → List Row → List Row
mark_retry now attempt id rows =
    on_row
      (λ r. record r { status = "pending"; next_retry_at = some (now + backoff attempt / second) })
      id rows

abbrev pub mark_status : String → ℕ → List Row → List Row
mark_status status id rows = on_row (λ r. record r { status = status }) id rows

-- The loop of executeClaimed with `left` attempts to go: whether each attempt succeeds, and the time
-- after it.
unfoldable pub run_claimed : (ℕ → Bool × ℕ) → ℕ → ℕ → ℕ → List Row → List Row
run_claimed act id attempt zero rows = mark_status "dead" id rows
run_claimed act id attempt (suc left) rows =
    let retried = if left == 0 then rows else mark_retry (act attempt).1 attempt id rows in
    let rest = run_claimed act id (suc attempt) left retried in
    if (act attempt).0 then mark_status "succeeded" id rows else rest

-- executeClaimed, with a handler or without.
unfoldable pub execute_claimed : Bool → (ℕ → Bool × ℕ) → Row → List Row → List Row
execute_claimed handled act job rows =
    if not handled
    then mark_status "dead" job.id rows
    else run_claimed act job.id 0 (suc job.max_retries)
        (on_row (λ r. record r { status = "running"; attempts = r.attempts + 1 }) job.id rows)
