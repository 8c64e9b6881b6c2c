-- ===== src/Tests/Jobs.antt =====
-- Tests of the job pool and of the queue in the database.
use open_agent_showcase.Common.{
  ℕ, ◌≤◌, String, none, some, [], ◌∷◌, Bool, true, false, ◌==◌, ◌≡◌, ◌≢◌, refl, ◌↔◌, arith, bytes,
}
use open_agent_showcase.Worker.{Job, Pool, dropped, deduplicated, with_defaults, offer, enqueue}
use open_agent_showcase.Worker.Enqueue.{enqueue_all, enqueue_once}
use open_agent_showcase.Worker.Attempts.{Attempt, attempts, run_job, shifted, backoff, run_job_iff}
use open_agent_showcase.Worker.Durable.{Row, claim, mark_retry}

abbrev job : Job
job = record { id = bytes "t7"; kind = bytes "agent_run"; retries = 0; timeout = 0; key = [] }

-- A queue without room.
abbrev full : Pool
full = record { capacity = 0; queue = []; idem = [] }

enqueue_test_dropped : (enqueue 100 full job).1 ≡ dropped
unfolding enqueue offer with_defaults
enqueue_test_dropped = refl

dropped_ne : dropped ≢ deduplicated
dropped_ne p = cc

-- A dropped job is deduplicated an hour later, and never runs.
enqueue_once_example :
    let q = enqueue_all (enqueue 100 full job).0 [] in enqueue 3700 q job ≡ (q, deduplicated)
unfolding enqueue offer with_defaults
enqueue_once_example = enqueue_once full 100 3700 job [] dropped_ne (omega arith) (omega arith) tt

-- The third attempt succeeds.
abbrev third : ℕ → Attempt
third a = record { succeeds = a == 2; stopped = false }

run_job_test : run_job third 3 ≡ record { calls = 3; succeeded = true }
unfolding run_job attempts
run_job_test = refl

third_going : (b : ℕ) → (third b).stopped ≡ false
third_going b = refl

run_job_iff_example :
    ((run_job third 3).succeeded ≡ true) ↔ ((a : ℕ) × ((a ≤ 3) × ((third a).succeeds ≡ true)))
run_job_iff_example = run_job_iff third 3 third_going

-- A shift by 34 makes the nanoseconds negative, and there is no pause.
backoff_test : backoff 34 ≡ 0
unfolding backoff shifted
backoff_test = refl

abbrev job_row : String → Row
job_row status = record {
  id = 1;
  kind = bytes "agent_run";
  key = bytes "k";
  status = status;
  attempts = 0;
  max_retries = 3;
  next_retry_at = some 10;
  claimed_by = none;
  lease_until = none;
}

abbrev claimed_row : Row
claimed_row = record (job_row "claimed") { claimed_by = some 2; lease_until = some 50 }

-- While a worker is between two attempts, another one claims the same job.
claim_test_retried :
    claim 12 8 (mark_retry 10 1 1 (claimed_row ∷ []))
    ≡ some (
      record claimed_row { status = "pending"; next_retry_at = some 12 },
      record claimed_row { next_retry_at = some 12; claimed_by = some 8; lease_until = some 42 }
          ∷ [],
    )
unfolding claim mark_retry backoff shifted
claim_test_retried = refl

abbrev failing : ℕ → Bool × ℕ
failing a = (false, 100)
