-- ===== src/Recorder/Stamp.antt =====
-- The text form of an instant in the SQLite index: `t.UTC().Format(time.RFC3339Nano)`, and how SQL
-- compares two such texts.
--
-- The first 19 characters of the text, up to the seconds, have a fixed width in the years 1 to 9999,
-- so that they stand in the order of the seconds that they name: a text is held as that number of
-- seconds with the characters that follow. Those are `Z`, or `.`, the digits of the fraction without
-- trailing zeros, and `Z`.
pub mod Order
use vrtc.Base.{
  ℕ, zero, suc, ◌+◌, ◌-◌, ◌*◌, ◌/◌, ◌%◌, ◌^◌, Bool, true, false, List, [], ◌∷◌, ltb, ◌==◌,
  if◌then◌else◌,
}
use vrtc.Clock.{Time, second}

pub record Stamp : Type 0 where
  pub seconds : ℕ
  pub suffix : List ℕ

-- The digits of `n` below 10 ^ k, without the zeros at the end.
unfoldable pub fraction : ℕ → ℕ → List ℕ
fraction zero n = b'Z' ∷ []
fraction (suc k) n =
    let rest = (b'0' + n / 10 ^ k) ∷ fraction k (n % 10 ^ k) in if n == 0 then b'Z' ∷ [] else rest

unfoldable pub format : Time → Stamp
format t =
    let nanos = t % second in
    record {
      seconds = t / second;
      suffix = if nanos == 0 then b'Z' ∷ [] else b'.' ∷ fraction 9 nanos;
    }

unfoldable pub parse_fraction : ℕ → List ℕ → ℕ
parse_fraction zero cs = 0
parse_fraction (suc k) [] = 0
parse_fraction (suc k) (c ∷ cs) =
    let rest = (c - b'0') * 10 ^ k + parse_fraction k cs in if c == b'Z' then 0 else rest

unfoldable pub parse_suffix : List ℕ → ℕ
parse_suffix [] = 0
parse_suffix (c ∷ cs) = if c == b'.' then parse_fraction 9 cs else 0

-- `time.Parse(time.RFC3339Nano, s)` of a text that `format` made.
unfoldable pub parse : Stamp → Time
parse s = s.seconds * second + parse_suffix s.suffix

-- Byte by byte, as SQLite compares texts.
unfoldable pub text_le : List ℕ → List ℕ → Bool
text_le [] ys = true
text_le (x ∷ xs) [] = false
text_le (x ∷ xs) (y ∷ ys) = if ltb x y then true else if ltb y x then false else text_le xs ys

unfoldable pub stamp_le : Stamp → Stamp → Bool
stamp_le a b =
    if ltb a.seconds b.seconds
    then true
    else if ltb b.seconds a.seconds
    then false
    else text_le a.suffix b.suffix
