-- ===== src/Base/Text.antt =====
-- Text keys: the identifiers of channels, schedules and recordings.
use Prim.Native.String.{String, ◌++◌}
use mathlib.Core.Path.{◌≡◌, refl}
use mathlib.Core.Bool.{Bool, true, false}
use mathlib.Core.Logic.{◌⊎◌, inl, inr, ◌≢◌}
use text.Mathlib.Text.{◌==◌}
use text.Mathlib.TextEquality.{eq_iff}
use vrtc.Base.Tests.{Bool-cases}
use native.Mathlib.Omega.{arith}

abbrev pub str_eq : String → String → Bool
str_eq a b = a == b

pub str_eq→eq : (a b : String) → str_eq a b ≡ true → a ≡ b
str_eq→eq a b = (eq_iff a b).0

pub str_eq_refl : (a : String) → str_eq a a ≡ true
str_eq_refl a = (eq_iff a a).1 refl

-- To split on whether two keys are one.
pub String-cases : (a b : String) → (str_eq a b ≡ true) × (a ≡ b) ⊎ (str_eq a b ≡ false) × (a ≢ b)
String-cases a b = elim (Bool-cases (a == b)) [
  | inl e ↦ inl (e, (eq_iff a b).0 e)
  | inr e ↦ inr (e, λ p. ground (arith, (eq_iff a b).1 p))
]

-- Text after text.
abbrev pub join : String → String → String
join a b = a ++ b

pub str_eq-ne : (a b : String) → a ≢ b → str_eq a b ≡ false
str_eq-ne a b n = elim (String-cases a b) [ inl (e, p) ↦ absurd (n p) | inr (e, p) ↦ e ]
