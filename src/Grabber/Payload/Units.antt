-- ===== src/Grabber/Payload/Units.antt =====
-- internal/avgrabber/convert.go: what a reader of AVCC finds in a converted payload.
use vrtc.Base.{
  ℕ, zero, suc, ◌+◌, ◌*◌, ◌^◌, Bool, not, Option, none, some, List, [], ◌∷◌, length, take, drop,
  if◌then◌else◌, ltb,
}
use vrtc.Grabber.Payload.{Bytes, is_left_out}

-- A reader of AVCC: a length of four bytes, then so many bytes of a unit, for at most `fuel` units.
abbrev after_unit : Bytes → Option (List Bytes) → Option (List Bytes)
after_unit u none = none
after_unit u (some us) = some (u ∷ us)

unfoldable pub read_units : ℕ → Bytes → Option (List Bytes)
read_units fuel [] = some []
read_units (suc fuel) (a ∷ b ∷ c ∷ d ∷ rest) =
    let n = a * 2 ^ 24 + b * 2 ^ 16 + c * 2 ^ 8 + d in
    let later = read_units fuel (drop n rest) in
    if ltb (length rest) n then none else after_unit (take n rest) later
read_units (suc fuel) (a ∷ b ∷ c ∷ []) = none
read_units (suc fuel) (a ∷ b ∷ []) = none
read_units (suc fuel) (a ∷ []) = none
read_units zero (a ∷ rest) = none

abbrev pub is_kept : ℕ → Bytes → Bool
is_kept c u = not (is_left_out c u)
