-- ===== src/Runtime/Memory.antt =====
-- The memory updates in normalizeDecision of backend/internal/runtime/decision.go.
pub mod Valid
use open_agent_showcase.Common.{
  Bool, true, false, ◌||◌, List, [], ◌∷◌, if◌then◌else◌, Bytes, bytes, bytes_eq, to_lower, contains,
  map, String,
}
use open_agent_showcase.Runtime.Json.{is_empty}
use open_agent_showcase.Runtime.Decision.{
  Weight, unset, half, given, MemoryUpdate, is_valid_memory_type,
}

abbrev is_one_of : List String → Bytes → Bool
is_one_of [] s = false
is_one_of (x ∷ xs) s = bytes_eq s (bytes x) || is_one_of xs s

-- The switch on the lower-case type: the types that the model makes up, and what is meant by them.
abbrev pub aliased_type : Bytes → Bytes → Bytes
aliased_type l s =
    if is_one_of
      ("context" ∷ "project_context" ∷ "project_memory" ∷ "contextual" ∷ "project_note"
        ∷ "team_context" ∷ [])
      l
    then bytes "project"
    else if is_one_of ("preference" ∷ "user_preference" ∷ "agent_preference" ∷ "preferences" ∷ []) l
    then bytes "agent"
    else if is_one_of
        ("episodic" ∷ "working_memory" ∷ "task_memory" ∷ "episode" ∷ "task_update" ∷ "working_note"
          ∷ [])
        l
    then bytes "working"
    else if is_one_of ("conversation_history" ∷ "chat" ∷ "conversation_memory" ∷ []) l
    then bytes "conversation"
    else if is_one_of ("" ∷ "fact" ∷ "summary" ∷ "type" ∷ []) l
    then bytes "agent"
    else s

-- The fallback of an unknown type.
abbrev pub known_type : Bytes → Bytes
known_type s =
    if is_valid_memory_type s
    then s
    else if contains (to_lower s) (bytes "project")
    then bytes "project"
    else if contains (to_lower s) (bytes "task") || contains (to_lower s) (bytes "working")
    then bytes "working"
    else bytes "agent"

unfoldable pub normal_type : Bytes → Bytes
normal_type s = known_type (aliased_type (to_lower s) s)

abbrev pub is_valid_memory_scope : Bytes → Bool
is_valid_memory_scope =
    is_one_of ("task" ∷ "session" ∷ "project" ∷ "agent" ∷ "conversation" ∷ "organization" ∷ [])

abbrev pub default_scope : Bytes → Bytes → Bytes
default_scope type s = if is_empty s then (if is_empty type then bytes "agent" else type) else s

unfoldable pub normal_scope : Bytes → Bytes → Bytes
normal_scope type s =
    if is_valid_memory_scope (default_scope type s) then default_scope type s else bytes "agent"

abbrev normal_importance : Weight → Weight
normal_importance unset = half
normal_importance half = half
normal_importance (given w) = given w

unfoldable pub normalize_update : MemoryUpdate → MemoryUpdate
normalize_update mu = record mu {
  memory_type = normal_type mu.memory_type;
  scope = normal_scope (normal_type mu.memory_type) mu.scope;
  importance = normal_importance mu.importance;
}

unfoldable pub normalize_updates : List MemoryUpdate → List MemoryUpdate
normalize_updates [] = []
normalize_updates (mu ∷ mus) = normalize_update mu ∷ normalize_updates mus
