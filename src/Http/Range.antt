-- ===== src/Http/Range.antt =====
-- pkg/edgeview/http_handler.go and http_analytics.go: the optional parameters of a request.
--
-- `time.Parse` for RFC3339 and `strconv.Atoi` are functions of the clock of the request.
use vrtc.Base.{
  ℕ, ◌-◌, ◌≤◌, ◌≡◌, ap, inl, inr, ◌⊎◌, Option, none, some, String, str_eq, str_eq→eq, if-split,
  arith, if◌then◌else◌,
}
use vrtc.Base.Int.{ℤ}
use vrtc.Clock.{Time, zero_time, before, day}

-- What the handlers answer, with the cause where it is a problem.
pub data Cause : Type 0 where
  bad_start bad_end bad_range bad_integer missing_camera stream_url_required : Cause
  unreadable_body empty_csv missing_columns unauthorized internal not_found : Cause

pub data Response (A : Type 0) : Type 0 where
  ok : A → Response A
  problem : ℕ → Cause → Response A

pub record Clock : Type 0 where
  pub now : Time
  pub parse_rfc3339 : String → Option Time
  pub atoi : String → Option ℤ

-- A time or the cause why there is none.
pub data Parsed (A : Type 0) : Type 0 where
  parsed : A → Parsed A
  refused : Cause → Parsed A

abbrev pub or_refused : {A : Type 0} → Cause → Option A → Parsed A
or_refused c none = refused c
or_refused c (some t) = parsed t

unfoldable pub parse_playback_start : Clock → String → Parsed Time
parse_playback_start clock s =
    if str_eq s "" then parsed zero_time else or_refused bad_start (clock.parse_rfc3339 s)

abbrev pub range : Time → Time → Parsed (Time × Time)
range s e = parsed (s, e)

abbrev pub ordered : Parsed Time → Parsed Time → Parsed (Time × Time)
ordered (refused c) end = refused c
ordered (parsed s) (refused c) = refused c
ordered (parsed s) (parsed e) = if before e s then refused bad_range else range s e

-- `now.Add(-24 * time.Hour)`: the clock is well past the first day of year 1.
unfoldable pub parse_optional_time_range : Clock → String → String → Parsed (Time × Time)
parse_optional_time_range clock start_str end_str =
    ordered
      (if str_eq start_str ""
        then parsed (clock.now - day)
        else or_refused bad_start (clock.parse_rfc3339 start_str))
      (if str_eq end_str ""
        then parsed clock.now
        else or_refused bad_end (clock.parse_rfc3339 end_str))

-- `parseOptionalInt`: none where the parameter is not there.
abbrev pub or_bad_integer : Option ℤ → Parsed (Option ℤ)
or_bad_integer none = refused bad_integer
or_bad_integer (some n) = parsed (some n)

unfoldable pub parse_optional_int : Clock → String → Parsed (Option ℤ)
parse_optional_int clock value =
    if str_eq value "" then parsed none else or_bad_integer (clock.atoi value)

-- A response, from what was parsed for it.
abbrev pub or_problem : {A B : Type 0} → Parsed A → (A → Response B) → Response B
or_problem (refused c) k = problem 400 c
or_problem (parsed a) k = k a

-- The time that a parameter stands for: a default, or what it parses to.
abbrev pub IsTime : Clock → Time → String → Time → Type 0
IsTime clock default s t = ((s ≡ "") × (t ≡ default)) ⊎ (clock.parse_rfc3339 s ≡ some t)

or_refused-parsed :
    {A : Type 0} (c : Cause) (o : Option A) (t : A) → or_refused c o ≡ parsed t → o ≡ some t
or_refused-parsed c none t e = cc
or_refused-parsed c (some a) t e = cc

param_time :
    (clock : Clock) (c : Cause) (default : Time) (s : String) (t : Time)
    → (if str_eq s "" then parsed default else or_refused c (clock.parse_rfc3339 s)) ≡ parsed t
    → IsTime clock default s t
param_time clock c default s t =
    if-split (λ (x : Parsed Time). x ≡ parsed t → IsTime clock default s t) (str_eq s "")
      (λ b e. inl (str_eq→eq s "" b, cc))
      (λ b e. inr (or_refused-parsed c (clock.parse_rfc3339 s) t e))

parsed-pair : (s e a b : Time) → range s e ≡ range a b → (s ≡ a) × (e ≡ b)
parsed-pair s e a b q = (ap first q, ap second q)
  where
    first : Parsed (Time × Time) → Time
    first (parsed (x, y)) = x
    first (refused c) = s

    second : Parsed (Time × Time) → Time
    second (parsed (x, y)) = y
    second (refused c) = e

ordered-parsed :
    (s e : Parsed Time) (a b : Time)
    → ordered s e ≡ range a b
    → (s ≡ parsed a) × (e ≡ parsed b) × (a ≤ b)
ordered-parsed (refused c) end a b q = cc
ordered-parsed (parsed s) (refused c) a b q = cc
ordered-parsed (parsed s) (parsed e) a b q =
    if-split
      (λ (x : Parsed (Time × Time)).
        x ≡ range a b → (parsed s ≡ parsed a) × (parsed e ≡ parsed b) × (a ≤ b))
      (before e s) (λ h q. cc)
      (λ h q.
        let (l, r) = parsed-pair s e a b q in (ap parsed l, ap parsed r, ground (arith, h, l, r)))
      q

-- A time range that is accepted does not end before it starts. Each end of it is the time that the
-- parameter has in RFC3339, or, where the parameter is empty, now, and a day before now.
pub parse_optional_time_range-parsed :
    (clock : Clock) (start_str end_str : String) (s e : Time)
    → parse_optional_time_range clock start_str end_str ≡ range s e
    → (s ≤ e) × IsTime clock (clock.now - day) start_str s × IsTime clock clock.now end_str e
unfolding parse_optional_time_range
parse_optional_time_range-parsed clock start_str end_str s e h =
    let (p, q, le) = ordered-parsed _ _ s e h in
    (
      le,
      param_time clock bad_start (clock.now - day) start_str s p,
      param_time clock bad_end clock.now end_str e q,
    )
