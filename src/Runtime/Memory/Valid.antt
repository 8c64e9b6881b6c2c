-- ===== src/Runtime/Memory/Valid.antt =====
-- Memory updates as normalizeDecision of backend/internal/runtime/decision.go leaves them.
use open_agent_showcase.Common.{
  Bool, true, false, ◌||◌, List, [], ◌∷◌, if◌then◌else◌, Bytes, bytes, to_lower, ◌≡◌, refl, All,
  contains,
}
use open_agent_showcase.Runtime.Decision.{MemoryUpdate, is_valid_memory_type}
use open_agent_showcase.Runtime.Memory.{
  aliased_type, known_type, normal_type, is_valid_memory_scope, default_scope, normal_scope,
  normalize_update, normalize_updates,
}

-- A conditional passes a test if both of its branches do.
module _ (p : Bytes → Bool) where
  if_passes :
      (b : Bool) (s t : Bytes)
      → (b ≡ true → p s ≡ true)
      → p t ≡ true
      → p (if b then s else t) ≡ true
  if_passes true s t hs ht = hs refl
  if_passes false s t hs ht = ht

known_type-valid : (s : Bytes) → is_valid_memory_type (known_type s) ≡ true
known_type-valid s =
    if_passes is_valid_memory_type (is_valid_memory_type s) s _ (λ h. h)
      (if_passes is_valid_memory_type (contains (to_lower s) (bytes "project")) _ _ (λ h. refl)
        (if_passes is_valid_memory_type
          (contains (to_lower s) (bytes "task") || contains (to_lower s) (bytes "working")) _ _
          (λ h. refl) refl))

normal_scope-valid : (type s : Bytes) → is_valid_memory_scope (normal_scope type s) ≡ true
unfolding normal_scope
normal_scope-valid type s =
    if_passes is_valid_memory_scope (is_valid_memory_scope (default_scope type s))
      (default_scope type s) _ (λ h. h) refl

-- After normalizeDecision every memory update has one of the four types and one of the six scopes.
normalize_updates-valid :
    (mus : List MemoryUpdate)
    → All
        (λ mu.
          (is_valid_memory_type mu.memory_type ≡ true) × (is_valid_memory_scope mu.scope ≡ true))
        (normalize_updates mus)
unfolding normalize_updates normalize_update normal_type
normalize_updates-valid [] = tt
normalize_updates-valid (mu ∷ mus) = (
  (
    known_type-valid (aliased_type (to_lower mu.memory_type) mu.memory_type),
    normal_scope-valid (normal_type mu.memory_type) mu.scope,
  ),
  normalize_updates-valid mus,
)
