-- ===== src/Runtime/Execute/Settled.antt =====
-- The status in which an execution leaves its run, backend/internal/runtime/runtime.go.
use open_agent_showcase.Common.{
  String, Option, none, some, List, [], ◌∷◌, true, Result, err, has_str, ◌≡◌, ◌⊎◌,
}
use open_agent_showcase.Task.{Task}
use open_agent_showcase.Runtime.Decision.{Decision}
use open_agent_showcase.Runtime.Run.{Run}
use open_agent_showcase.Runtime.Execute.{State}

abbrev pub settled_statuses : List String
settled_statuses = "cancelled" ∷ "failed" ∷ "succeeded" ∷ "awaiting_approval" ∷ []

-- ExecuteTask has returned: the run has a settled status, or it is left running because no agent was
-- eligible for a new task.
abbrev pub IsEnd : State → Result (Unit {0}) → Type 0
IsEnd st answer =
    (has_str settled_statuses st.run.status ≡ true)
    ⊎ ((answer ≡ err "no eligible agent") × (st.run.status ≡ "running"))

-- A step of a running execution: it goes on, and the run is running, or returns.
unfoldable pub IsFair : State × Option (Result (Unit {0})) → Type 0
IsFair (st, none) = st.run.status ≡ "running"
IsFair (st, some answer) = IsEnd st answer

abbrev IsEndOf : Option (State × Result (Unit {0})) → Type 0
IsEndOf none = Unit
IsEndOf (some r) = IsEnd r.0 r.1
