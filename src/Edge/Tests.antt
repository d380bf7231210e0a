-- ===== src/Edge/Tests.antt =====
-- The edge application at concrete inputs.
use vrtc.Base.{◌*◌, ◌≡◌, refl, true, none, [], ◌∷◌}
use vrtc.Base.Int.{pos}
use vrtc.Clock.{second}
use vrtc.Channels.{Channel, ok, holds, list_channels, load}
use vrtc.Base.{In, some}
use vrtc.View.Cameras.{register_camera}
use vrtc.Base.Assoc.{get, put}
use vrtc.Recorder.Index.{new_index}
use vrtc.Recorder.Manager
use vrtc.Recorder.Manager.{Schedule}
use vrtc.Recorder.Manager.Tick.{default_schedule, append_defaults}
use vrtc.Edge.{Config, World, analytics_times, register_channels, first_cameras, adapt_channels}
use vrtc.Edge.Known.{is_known, first_cameras-append_defaults}

abbrev gate : Channel
gate = record {
  id = "cam-1";
  name = "Gate";
  stream_url = "rtsp://gate";
  username = "";
  password = "";
  site_id = pos 1;
  extra = [];
}

abbrev world : World
world = record {
  channels = holds (gate ∷ record gate { id = "cam-2" } ∷ []);
  parse_duration = λ s. none;
}

abbrev config : Config
config = record { analytics_delay = ""; analytics_max_wait = "soon" }

-- The recording manager sees the two channels, and schedules for the first.
abbrev recording_world : Manager.World
recording_world = record {
  now = 0;
  db = record { now = 0; answers = λ ch. true; closes = λ ch. true; listing = some [] };
  list_schedules = none;
  list_channels = some ("cam-1" ∷ "cam-2" ∷ []);
  is_active = λ s t. true;
  turns = [];
  disk_free = λ calls path. none;
  consume = λ calls ch. Manager.refused "off";
  bytes_written = λ mux. pos 0;
  rename_succeeds = λ a b. true;
  segment_path = λ base ch t. base;
  segment_path_final = λ base ch t u. base;
  stamp_ms = λ ms. "t";
}

abbrev manager : Manager.Manager
manager = record {
  poll_interval = pos 30;
  has_channels = true;
  default_storage_path = "rec";
  active = [];
  ring_buffers = [];
  failed_start = [];
  last_retention = 0;
  index = new_index [];
  calls = [];
}

-- A text that is no duration leaves the default.
times : analytics_times world config ≡ (pos (5 * second), pos (7 * second))
unfolding analytics_times
times = refl

listed : adapt_channels world.channels ≡ ok ("cam-1" ∷ "cam-2" ∷ [])
unfolding adapt_channels list_channels load
listed = refl

known : is_known "cam-2" (first_cameras world) ≡ true
unfolding first_cameras register_channels register_camera list_channels load get put
known = refl

first_cameras-append_defaults_example :
    (s : Schedule) × In s
      (append_defaults recording_world manager (default_schedule "rec" "cam-1" ∷ []))
    × (s.channel_id ≡ "cam-2")
first_cameras-append_defaults_example =
    first_cameras-append_defaults world recording_world manager ("cam-1" ∷ "cam-2" ∷ []) "cam-2"
      (default_schedule "rec" "cam-1" ∷ []) listed refl refl known
