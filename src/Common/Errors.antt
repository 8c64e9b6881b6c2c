-- ===== src/Common/Errors.antt =====
-- Go's pair of a value and an error: a call either returns a value or the text of an error.
use Prim.Native.String.{String}
use mathlib.Core.Bool.{Bool, true, false, not}
use mathlib.Core.Path.{◌≡◌}
use mathlib.Core.Logic.{◌↔◌}
use mathlib.Core.Option.{Option, none, some}
use native.Mathlib.Omega.{arith}
use open_agent_showcase.Common.Checks.{if◌then◌else◌}

pub data Result {ℓ} (A : Type ℓ) : Type ℓ where
  ok : A → Result A
  err : String → Result A

abbrev pub is_err {ℓ} : {A : Type ℓ} → Result A → Bool
is_err (ok a) = false
is_err (err e) = true

-- A chain of checks, each with an error of its own or that of a call, finds no error.
pub guard_iff :
    (b : Bool) (e : String) (rest : Option String)
    → ((if b then some e else rest) ≡ none) ↔ ((b ≡ false) × (rest ≡ none))
guard_iff true e rest = ground arith
guard_iff false e rest = ground arith

pub then_iff :
    (o rest : Option String)
    → (elim o [ some e ↦ some e | none ↦ rest ] ≡ none) ↔ ((o ≡ none) × (rest ≡ none))
then_iff none rest = ground arith
then_iff (some e) rest = ground arith

pub not_iff : (b : Bool) → (not b ≡ false) ↔ (b ≡ true)
not_iff true = ground arith
not_iff false = ground arith
