-- ===== src/Worker.antt =====
-- The in-memory job pool, backend/internal/worker/worker.go. Times are seconds; a key is a text, since
-- nothing but its equality is used.
pub mod Enqueue
pub mod Attempts
pub mod Durable
use open_agent_showcase.Common.{
  ℕ, zero, suc, ◌+◌, ◌*◌, Option, none, some, List, [], ◌∷◌, ◌++◌, Bool, true, false, ◌&&◌, not,
  ◌==◌, ltb, leb, if◌then◌else◌, length, Bytes, bytes, bytes_eq,
}

pub record Job : Type 0 where
  pub id : Bytes
  pub kind : Bytes
  pub retries : ℕ
  pub timeout : ℕ
  pub key : Bytes

-- The queue with its capacity, and the map from a key to its expiry.
pub record Pool : Type 0 where
  pub capacity : ℕ
  pub queue : List Job
  pub idem : List (Bytes × ℕ)

abbrev is_nil : Bytes → Bool
is_nil [] = true
is_nil (_ ∷ _) = false

-- The defaults of a job's fields.
unfoldable pub with_defaults : Job → Job
with_defaults job = record job {
  key = if is_nil job.key then job.id ++ b':' ∷ job.kind else job.key;
  timeout = if job.timeout == 0 then 30 else job.timeout;
  retries = if job.retries == 0 then 3 else job.retries;
}

abbrev pub expiry : List (Bytes × ℕ) → Bytes → Option ℕ
expiry [] k = none
expiry ((j, t) ∷ m) k = if bytes_eq j k then some t else expiry m k

-- p.idem[k] = t
abbrev pub put : List (Bytes × ℕ) → Bytes → ℕ → List (Bytes × ℕ)
put [] k t = (k, t) ∷ []
put ((j, u) ∷ m) k t = if bytes_eq j k then (j, t) ∷ m else (j, u) ∷ put m k t

-- if time.Now().After(exp) { delete(p.idem, k) }
abbrev pub expire : ℕ → List (Bytes × ℕ) → List (Bytes × ℕ)
expire now [] = []
expire now ((j, u) ∷ m) = let rest = expire now m in if ltb u now then rest else (j, u) ∷ rest

abbrev pub day : ℕ
day = 86400

abbrev pub marked : ℕ → Bytes → List (Bytes × ℕ) → List (Bytes × ℕ)
marked now k m = let m' = put m k (now + day) in if ltb 1000 (length m') then expire now m' else m'

abbrev pub is_known : ℕ → Bytes → List (Bytes × ℕ) → Bool
is_known now k m = elim (expiry m k) [ none ↦ false | some t ↦ ltb now t ]

pub data Outcome : Type 0 where
  deduplicated enqueued dropped : Outcome

-- The part of Enqueue after the defaults, at a time.
unfoldable pub offer : ℕ → Pool → Job → Pool × Outcome
offer now p job =
    if is_known now job.key p.idem
    then (p, deduplicated)
    else (let m = marked now job.key p.idem in
        if ltb (length p.queue) p.capacity
        then (record p { queue = p.queue ++ job ∷ []; idem = m }, enqueued)
        else (record p { idem = m }, dropped))

unfoldable pub enqueue : ℕ → Pool → Job → Pool × Outcome
enqueue now p job = offer now p (with_defaults job)
