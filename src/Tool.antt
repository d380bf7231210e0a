-- ===== src/Tool.antt =====
-- cmd/analytics-tool/main.go: the simulator of an analytics engine, for one camera.
--
-- A camera has a receiver, which reads the messages of the stream, and a worker, which takes a frame
-- from a channel of 32 places, waits, and pushes analytics for it. They share nothing else, so that a
-- run of the two is a list of their events in the order in which they happen. The generator of random
-- numbers is an argument.
pub mod Pushed
mod Tests
use vrtc.Base.{
  ℕ, ◌+◌, ◌-◌, ◌*◌, ◌/◌, ◌%◌, zero, suc, ltb, Bool, true, false, ◌||◌, Option, none, some, List, [],
  ◌∷◌, ◌++◌, String, str_eq, length, if◌then◌else◌,
}
use vrtc.Base.Int.{ℤ, pos, negsuc}
use vrtc.Clock.{Time, zero_time, is_zero, second}

-- 1 January 1970.
abbrev pub unix_epoch : Time
unix_epoch = 62_135_596_800 * second

abbrev pub millisecond : ℕ
millisecond = 1_000_000

-- `UnixMilli`, which rounds down.
unfoldable pub unix_milli : Time → ℤ
unix_milli t =
    if ltb t unix_epoch
    then negsuc ((unix_epoch - t - 1) / millisecond)
    else pos ((t - unix_epoch) / millisecond)

pub record Detection : Type 0 where
  pub x : ℕ
  pub y : ℕ
  pub w : ℕ
  pub h : ℕ
  pub class_id : ℕ
  pub confidence : ℕ
  pub track_id : ℕ
  pub is_event : Bool

pub record FrameAnalytics : Type 0 where
  pub capture_ms : ℤ
  pub capture_end_ms : ℤ
  pub inference_ms : ℤ
  pub people_count : ℕ
  pub vehicle_count : ℕ
  pub objects : List Detection

-- What is drawn for a detection, in the order of the calls.
pub record Draws : Type 0 where
  pub x : ℕ
  pub y : ℕ
  pub w : ℕ
  pub h : ℕ
  pub class_id : ℕ
  pub confidence : ℕ
  pub track_id : ℕ

pub record Random : Type 0 where
  pub people : ℕ
  pub vehicles : ℕ
  pub objects : ℕ
  pub detection : ℕ → Draws

abbrev pub detection_of : Draws → Detection
detection_of d = record {
  x = d.x % 1920;
  y = d.y % 1080;
  w = 50 + d.w % 200;
  h = 50 + d.h % 200;
  class_id = d.class_id % 2;
  confidence = 50 + d.confidence % 50;
  track_id = d.track_id % 100;
  is_event = false;
}

-- The loop over `numObjects`.
unfoldable pub detections : Random → ℕ → ℕ → List Detection
detections r i zero = []
detections r i (suc n) = detection_of (r.detection i) ∷ detections r (i + 1) n

unfoldable pub generate_analytics : Random → Time → ℤ → FrameAnalytics
generate_analytics r wall_clock inference_done_ms = record {
  capture_ms = unix_milli wall_clock;
  capture_end_ms = unix_milli wall_clock;
  inference_ms = inference_done_ms;
  people_count = r.people % 5;
  vehicle_count = r.vehicles % 3;
  objects = detections r 0 (r.objects % 4);
}

pub record Request : Type 0 where
  pub source_id : String
  pub wall_clock_ms : ℤ
  pub analytics : FrameAnalytics

pub record FrameWork : Type 0 where
  pub source_id : String
  pub wall_clock : Time

-- No detection that is generated is nil, so that none is left out.
unfoldable pub build_request : FrameWork → FrameAnalytics → Request
build_request fw fa = record {
  source_id = fw.source_id;
  wall_clock_ms = unix_milli fw.wall_clock;
  analytics = fa;
}

pub record WsTextFrame : Type 0 where
  pub kind : String
  pub wall_clock : String

-- A message of the stream; a text that is no JSON has no frame.
pub data Message : Type 0 where
  text : Option WsTextFrame → Message
  binary : Message

-- What happens: a connection is opened, a message is read, the worker takes a frame, or it pushes the
-- analytics for the frame that it holds.
pub data Event : Type 0 where
  connected : Event
  read : Message → Event
  takes : Event
  pushes : Random → ℤ → Event

pub record State : Type 0 where
  pub latest_wall_clock : Time
  pub work : List FrameWork
  pub held : Option FrameWork
  pub sent : List Request

abbrev pub work_capacity : ℕ
work_capacity = 32

abbrev pub new_state : State
new_state = record { latest_wall_clock = zero_time; work = []; held = none; sent = [] }

abbrev pub is_timing : String → Bool
is_timing kind =
    str_eq kind "mode_change"
    || (str_eq kind "playback_info" || (str_eq kind "seeked" || str_eq kind "timing"))

-- The time that a text carries, if it is one of the relevant frames and can be parsed.
abbrev pub time_in : (String → Option Time) → Option WsTextFrame → Option Time
time_in parse none = none
time_in parse (some f) =
    if str_eq f.wall_clock "" then none else if is_timing f.kind then parse f.wall_clock else none

-- A clock that goes backwards is taken as well.
abbrev pub with_clock : Option Time → State → State
with_clock none st = st
with_clock (some t) st = record st { latest_wall_clock = t }

-- A frame is left out before the first time, and where the channel is full.
abbrev pub on_binary : String → State → State
on_binary camera st =
    if is_zero st.latest_wall_clock
    then st
    else if ltb (length st.work) work_capacity
    then record st {
      work = st.work ++ record { source_id = camera; wall_clock = st.latest_wall_clock } ∷ [];
    }
    else st

abbrev pub on_message : (String → Option Time) → String → Message → State → State
on_message parse camera (text frame) st = with_clock (time_in parse frame) st
on_message parse camera binary st = on_binary camera st

-- The worker takes the next frame when it holds none.
abbrev pub take_from : Option FrameWork → List FrameWork → State → State
take_from (some fw) work st = st
take_from none [] st = st
take_from none (fw ∷ rest) st = record st { work = rest; held = some fw }

abbrev pub push_held : Random → ℤ → Option FrameWork → State → State
push_held r now none st = st
push_held r now (some fw) st = record st {
  held = none;
  sent = build_request fw (generate_analytics r fw.wall_clock now) ∷ st.sent;
}

-- The requests that were sent stand with the last one first.
unfoldable pub step : (String → Option Time) → String → Event → State → State
step parse camera connected st = record st { latest_wall_clock = zero_time }
step parse camera (read m) st = on_message parse camera m st
step parse camera takes st = take_from st.held st.work st
step parse camera (pushes r now) st = push_held r now st.held st

unfoldable pub run_camera : (String → Option Time) → String → List Event → State → State
run_camera parse camera [] st = st
run_camera parse camera (e ∷ es) st = run_camera parse camera es (step parse camera e st)
