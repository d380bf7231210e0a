-- ===== src/Clock.antt =====
-- Instants, durations and the float sizes of the configuration, as the Go standard library has them.
--
-- A `time.Time` is the number of nanoseconds since Go's zero time, January 1 of year 1, UTC.
-- A `time.Duration` is an int64 number of nanoseconds.
use vrtc.Base.{ℕ, ◌-◌, ◌*◌, ◌/◌, ◌^◌, Bool, ltb, ◌==◌, if◌then◌else◌}
use vrtc.Base.Int.{ℤ, pos, negsuc, sub_ℕ, pos_part, ltb_ℤ}

abbrev pub Time : Type 0
Time = ℕ

abbrev pub zero_time : Time
zero_time = 0

abbrev pub is_zero : Time → Bool
is_zero t = t == 0

abbrev pub before : Time → Time → Bool
before t u = ltb t u

abbrev pub after : Time → Time → Bool
after t u = ltb u t

abbrev pub second : ℕ
second = 1_000_000_000

abbrev pub minute : ℕ
minute = 60_000_000_000

abbrev pub day : ℕ
day = 86_400_000_000_000

-- `t.Sub(u)`, which saturates at the ends of int64.
unfoldable pub sub_time : Time → Time → ℤ
sub_time t u =
    let d = sub_ℕ t u in
    if ltb_ℤ (pos (2 ^ 63 - 1)) d
    then pos (2 ^ 63 - 1)
    else if ltb_ℤ d (negsuc (2 ^ 63 - 1))
    then negsuc (2 ^ 63 - 1)
    else d

-- `t.AddDate(0, 0, -days)` for days > 0: in UTC every day has 24 hours. An instant before year 1
-- is not before any entry, and neither is the zero that stands for it.
abbrev pub days_back : Time → ℤ → Time
days_back t days = t - pos_part days * day

-- A float64 that is not negative, as `mantissa / 2 ^ shift`: every such value is of this form.
-- The code reads a size in GB only by `x > 0` and `int64(x * 2^30)`; a negative value acts as 0.
pub record Gigabytes : Type 0 where
  pub mantissa : ℕ
  pub shift : ℕ

abbrev pub gt_zero : Gigabytes → Bool
gt_zero x = ltb 0 x.mantissa

-- `int64(x * (1 << 30))`: the product by a power of 2 is exact, and the conversion rounds down. It is
-- that of the language for sizes below 2^33 GB, whose bytes fit in an int64.
unfoldable pub whole_bytes : Gigabytes → ℕ
whole_bytes x = x.mantissa * 2 ^ 30 / 2 ^ x.shift

abbrev pub to_bytes : Gigabytes → ℤ
to_bytes x = pos (whole_bytes x)
