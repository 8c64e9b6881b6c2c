-- ===== src/Runtime/Json.antt =====
-- The values of a map[string]any that encoding/json fills, up to what the runtime reads of them:
-- texts and objects. Numbers, booleans, arrays and null are `other`.
use open_agent_showcase.Common.{
  String, Option, none, some, [], ◌∷◌, Bool, true, false, ◌||◌, str_eq, if◌then◌else◌, Bytes, bytes,
  to_lower, contains,
}

mutual
  pub data Value : Type 0 where
    text : Bytes → Value
    object : Fields → Value
    other : Value

  pub data Fields : Type 0 where
    end : Fields
    field : String → Value → Fields → Fields

unfoldable pub get : Fields → String → Option Value
get end k = none
get (field j v m) k = if str_eq j k then some v else get m k

-- m[k].(string)
unfoldable pub get_text : Fields → String → Option Bytes
unfolding get
get_text m k = elim (get m k) [ some v ↦ elim v [ text s ↦ some s | _ ↦ none ] | none ↦ none ]

-- m[k].(map[string]any)
unfoldable pub get_object : Fields → String → Option Fields
unfolding get
get_object m k = elim (get m k) [ some v ↦ elim v [ object f ↦ some f | _ ↦ none ] | none ↦ none ]

-- The same reads of a map that may be nil.
unfoldable pub param_text : Option Fields → String → Option Bytes
unfolding get_text
param_text none k = none
param_text (some m) k = get_text m k

abbrev pub or_empty : Option Bytes → Bytes
or_empty none = []
or_empty (some s) = s

abbrev pub is_empty : Bytes → Bool
is_empty [] = true
is_empty (_ ∷ _) = false

-- if b, ok := m[k].(string); ok && s == "" { s = b }
abbrev pub or_param : Option Fields → String → Bytes → Bytes
or_param params k s = if is_empty s then or_empty (param_text params k) else s

-- if b, ok := m[k].(string); ok { s = b }
abbrev pub set_param : Option Fields → String → Bytes → Bytes
set_param params k s = elim (param_text params k) [ none ↦ s | some b ↦ b ]

abbrev suspicious : Bytes → Bool
suspicious s =
    contains s (bytes "rm -rf") || (contains s (bytes "eval(") || contains s (bytes "__import__"))

abbrev suspicious_value : Value → Bool
suspicious_value (text s) = suspicious (to_lower s)
suspicious_value (object f) = false
suspicious_value other = false

-- security.ValidateToolInput: whether the input is refused.
unfoldable pub is_suspicious : Fields → Bool
unfolding to_lower contains
is_suspicious end = false
is_suspicious (field k v m) = suspicious_value v || is_suspicious m
