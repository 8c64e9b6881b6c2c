-- ===== src/Memory/Fraction.antt =====
-- The float64 values of backend/internal/memory/service.go as exact fractions: scores, confidences and
-- thresholds. A fraction 0/0 compares like NaN.
use open_agent_showcase.Common.{ℕ, ◌+◌, ◌*◌, Bool, ◌&&◌, ltb, leb, ◌==◌, if◌then◌else◌}

pub record Fraction : Type 0 where
  pub num : ℕ
  pub den : ℕ

abbrev pub over : ℕ → ℕ → Fraction
over n d = record { num = n; den = d }

abbrev pub percent : ℕ → Fraction
percent n = over n 100

-- x < y
abbrev pub below : Fraction → Fraction → Bool
below x y = ltb (x.num * y.den) (y.num * x.den)

-- x <= y
abbrev pub at_most : Fraction → Fraction → Bool
at_most x y = ltb 0 x.den && (ltb 0 y.den && leb (x.num * y.den) (y.num * x.den))

abbrev pub is_zero : Fraction → Bool
is_zero x = x.num == 0

abbrev pub plus : Fraction → Fraction → Fraction
plus x y = over (x.num * y.den + y.num * x.den) (x.den * y.den)

abbrev pub times : Fraction → Fraction → Fraction
times x y = over (x.num * y.num) (x.den * y.den)

-- minFloat
abbrev pub smaller : Fraction → Fraction → Fraction
smaller x y = if below x y then x else y

-- if y > x { x = y }
abbrev pub larger : Fraction → Fraction → Fraction
larger x y = if below x y then y else x
