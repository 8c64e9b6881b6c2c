-- ===== src/Worker/Durable/Claims.antt =====
-- Who may claim a job, and how it ends, backend/internal/worker/durable.go.
use mathlib.Core.List.Memᴰ
use open_agent_showcase.Common.{
  ℕ, String, Option, none, some, List, Bool, false, ◌==◌, find, Memᴰ, if◌then◌else◌,
}
use open_agent_showcase.Worker.Attempts.{Attempt, Report}
use open_agent_showcase.Worker.Durable.{Row}

-- The row of an identifier.
abbrev pub row_of : ℕ → List Row → Option Row
row_of id rows = find (λ (r : Row). r.id == id) rows

abbrev pub status_of : ℕ → List Row → Option String
status_of id rows = elim (row_of id rows) [ none ↦ none | some r ↦ some r.status ]

abbrev pub unstopped : (ℕ → Bool × ℕ) → ℕ → Attempt
unstopped act a = record { succeeds = (act a).0; stopped = false }

abbrev pub ending : Report → String
ending report = if report.succeeded then "succeeded" else "dead"
