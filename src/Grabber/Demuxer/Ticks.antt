-- ===== src/Grabber/Demuxer/Ticks.antt =====
-- internal/avgrabber/demuxer.go: clock ticks as durations, and the durations of video packets.
use vrtc.Base.{ℕ, ◌+◌, ◌-◌, ◌*◌, ◌/◌, ◌^◌, ◌≤◌, ◌<◌, ◌≡◌, refl, true, List, [], ◌∷◌, arith, lt→ltb}
use vrtc.Base.Int.{ℤ, quot, pos, negsuc, pos_part, mul64-pos, mul64-wraps, sub_ℕ, sub64-pos}
use native.Mathlib.Nat.{le-div_iff_mul-le}
use vrtc.Clock.{second}
use vrtc.Grabber.Frame.{Frame}
use vrtc.Grabber.Demuxer.{Demuxer, ticks_to_duration, base_packet, video_stream_idx}
use vrtc.Grabber.Demuxer.ParamSets.{video_duration}

-- Whether an integer is below 0.
abbrev pub IsNegative : ℤ → Type 0
IsNegative i = (n : ℕ) × (i ≡ negsuc n)

quotient-IsNegative : (m c : ℕ) → 0 < c → c ≤ m → IsNegative (sub_ℕ 0 (m / c))
quotient-IsNegative m c h k =
    let p : 0 < m / c = (le-div_iff_mul-le h).1 (omega arith) in (m / c - 1, ground arith)

-- The decode time of a video packet is that of its ticks, rounded down to a nanosecond, as long as
-- the ticks, taken as seconds, stay below 2^63 nanoseconds.
pub base_packet-dts :
    (d : Demuxer) (f : Frame) (n : ℕ)
    → 0 < d.video_clk
    → f.dts_ticks ≡ pos n
    → n * second < 2 ^ 63
    → (base_packet d f video_stream_idx).dts ≡ pos (n * second / d.video_clk)
unfolding base_packet ticks_to_duration quot
base_packet-dts d f n h e fits = rw (e, lt→ltb 0 d.video_clk h, mul64-pos n second fits) refl

-- Where the ticks of a frame, taken as seconds, come to 2^63 nanoseconds or more, but not to the last
-- of 2^64 nanoseconds, as many as the rate of the clock, the decode time of its packet is negative: on
-- a clock of 90 kHz, from 28 hours and 28 minutes on.
pub base_packet-wraps :
    (d : Demuxer) (f : Frame) (n : ℕ)
    → 0 < d.video_clk
    → f.dts_ticks ≡ pos n
    → 2 ^ 63 ≤ n * second
    → n * second + d.video_clk ≤ 2 ^ 64
    → IsNegative (base_packet d f video_stream_idx).dts
unfolding base_packet ticks_to_duration quot
base_packet-wraps d f n h e past within =
    rw (e, lt→ltb 0 d.video_clk h, mul64-wraps n second past (omega arith))
      (quotient-IsNegative (2 ^ 64 - n * second - 1 + 1) d.video_clk h (omega arith))

-- The durations of the video packets of the decode times, in order, summed up.
unfoldable pub total_duration : List ℕ → Demuxer → ℕ
total_duration [] d = 0
total_duration (t ∷ ts) d = let r = video_duration (pos t) d in pos_part r.1 + total_duration ts r.0

abbrev pub IsIncreasing : ℕ → List ℕ → Type 0
IsIncreasing a [] = Unit
IsIncreasing a (t ∷ ts) = (a < t) × IsIncreasing t ts

abbrev pub last_of : ℕ → List ℕ → ℕ
last_of a [] = a
last_of a (t ∷ ts) = last_of t ts

last_of-le : (a : ℕ) (ts : List ℕ) → IsIncreasing a ts → a ≤ last_of a ts
last_of-le a [] i = omega arith
last_of-le a (t ∷ ts) (i, is) = let h = last_of-le t ts is in omega arith

-- Over video packets whose decode times increase, the durations add up to the time between the
-- packet before them and the last of them: no time is lost and none counted twice.
pub total_duration-span :
    (ts : List ℕ) (a : ℕ) (d : Demuxer)
    → d.has_last_video_dts ≡ true
    → d.last_video_dts ≡ pos a
    → IsIncreasing a ts
    → last_of a ts < 2 ^ 63
    → total_duration ts d + a ≡ last_of a ts
unfolding total_duration video_duration
total_duration-span [] a d h e i b = omega arith
total_duration-span (t ∷ ts) a d h e (i, is) b =
    let at = last_of-le t ts is in
    rw (h, e, sub64-pos t a (omega arith) (omega arith))
      (grind (
        arith,
        total_duration-span ts t (record d { last_video_dts = pos t; has_last_video_dts = true })
            refl refl is b,
      ))
