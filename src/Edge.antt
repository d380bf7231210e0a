-- ===== src/Edge.antt =====
-- internal/edge/app.go: the settings of the analytics, the cameras that are known at the start, and
-- the channels that the recording manager is given.
pub mod Known
mod Tests
use vrtc.Base.{
  ℕ, ◌*◌, Bool, true, false, Option, none, some, List, [], ◌∷◌, ◌++◌, map, String, str_eq,
  if◌then◌else◌,
}
use vrtc.Base.Int.{ℤ, pos}
use vrtc.Clock.{second}
use vrtc.Channels.{Channel, Error, Result, ok, err, File, list_channels}
use vrtc.View.Cameras.{Cameras, register_camera}
use vrtc.Http.Cameras.{camera_of}

-- The two settings that are read here.
pub record Config : Type 0 where
  pub analytics_delay : String
  pub analytics_max_wait : String

-- The channel file at the start, and `time.ParseDuration`.
pub record World : Type 0 where
  pub channels : File
  pub parse_duration : String → Option ℤ

abbrev pub or_default : ℤ → Option ℤ → ℤ
or_default d none = d
or_default d (some t) = t

-- The two durations of the analytics: five and seven seconds, or what the configuration has.
unfoldable pub analytics_times : World → Config → ℤ × ℤ
analytics_times w c = (
  if str_eq c.analytics_delay ""
      then pos (5 * second)
      else or_default (pos (5 * second)) (w.parse_duration c.analytics_delay),
  if str_eq c.analytics_max_wait ""
      then pos (7 * second)
      else or_default (pos (7 * second)) (w.parse_duration c.analytics_max_wait),
)

-- The loop that makes the channels of the file known to the view service.
unfoldable pub register_channels : List Channel → Cameras → Cameras
register_channels [] cameras = cameras
register_channels (ch ∷ chs) cameras =
    register_channels chs (register_camera (camera_of ch) cameras)

abbrev pub cameras_of : Result (List Channel) → Cameras
cameras_of (err e) = []
cameras_of (ok chs) = register_channels chs []

-- The cameras when the servers start.
unfoldable pub first_cameras : World → Cameras
first_cameras w = cameras_of (list_channels w.channels)

-- `channelAdapter.ListChannels`: the ids.
abbrev pub ids_or_error : Result (List Channel) → Result (List String)
ids_or_error (err e) = err e
ids_or_error (ok chs) = ok (map (λ (ch : Channel). ch.id) chs)

unfoldable pub adapt_channels : File → Result (List String)
adapt_channels file = ids_or_error (list_channels file)
