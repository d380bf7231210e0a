-- ===== src/Http/Tests.antt =====
-- The HTTP handlers at concrete inputs.
use vrtc.Base.{
  ℕ, ◌*◌, ◌+◌, ◌≡◌, refl, Bool, true, false, Option, none, some, List, [], ◌∷◌, String, str_eq,
  if◌then◌else◌,
}
use vrtc.Base.Assoc
use vrtc.Base.Int.{pos}
use vrtc.Clock.{day, second}
use vrtc.Recorder.Entry.{RecordingEntry, complete}
use vrtc.Recorder.Index
use vrtc.Recorder.Index.{new_index, insert}
use vrtc.Channels
use vrtc.Channels.{
  Channel, File, holds, absent, get_channel, load, save, save_channel, delete_channel, has_channel,
}
use vrtc.View.Cameras.{
  Hub, RelayStats, register_camera, unregister_camera, list_cameras, shown, show_camera,
}
use vrtc.Http.Text.{lower_is, trim_space}
use vrtc.Http.Range.{Clock, range, parse_optional_time_range, ok, problem, not_found}
use vrtc.Http.Auth.{Request}
use vrtc.Http.Cameras.{
  State, World, new_channel_response, upsert_camera, get_camera_config, delete_camera, camera_of,
}
use vrtc.Http.Cameras.Changes.{answered, upsert_camera-answered, delete_camera-answered}
use vrtc.Http.Csv.{
  csv_header, column_from, build_column_index, channel_to_record, record_to_channel, extra_of,
  cells, Read, save_csv_records,
}
use vrtc.Http.Csv.Latest.{latest, count_kept, finished, save_csv_records-latest}
use vrtc.Http.Csv.RoundTrip.{record_to_channel-channel_to_record}
use vrtc.Http.Timelines
use vrtc.Http.Timelines.{TimelineInput, huma_get_timeline, huma_recording_timeline}
use vrtc.Http.Timelines.Agree.{
  map_response, map_page, span_of_summary, span_of_entry, spans_in,
  huma_get_timeline-huma_recording_timeline,
}
use vrtc.Http.Streams
use vrtc.Http.Streams.{http_stream, nothing, run, run-http_stream}

abbrev five : List ℕ
five = 1 ∷ 2 ∷ 3 ∷ 4 ∷ 5 ∷ []

-- Reads only one text as a time, the 30th day at noon, and no number.
abbrev clock : Clock
clock = record {
  now = 40 * day;
  parse_rfc3339 = λ s. if str_eq s "0001-01-31T12:00:00Z" then some (30 * day) else none;
  atoi = λ s. none;
}

accepted : parse_optional_time_range clock "0001-01-31T12:00:00Z" "" ≡ range (30 * day) (40 * day)
unfolding parse_optional_time_range
accepted = refl

abbrev handshake : Request
handshake = record {
  path = "/api/cameras/ws/stream";
  authorization = "";
  connection = "Upgrade";
  upgrade = "websocket";
  token = "secret";
}

abbrev door : Channel
door = record {
  id = "cam-1";
  name = "Front Door";
  stream_url = "rtsp://10.0.0.1/main";
  username = "admin";
  password = "";
  site_id = pos 7;
  extra = ("model", "D-2") ∷ ("floor", "2") ∷ [];
}

abbrev relay : RelayStats
relay = record {
  id = "cam-1";
  packets_read = 18_446_744_073_709_551_615;
  bytes_read = 4_000;
  key_frames = 2;
  dropped_packets = 3;
  whole_fps = pos 25;
  streams = record { width = pos 1920; height = pos 1080; codec_name = "H264" } ∷ [];
}

abbrev hub : Hub
hub = record {
  relays = relay ∷ relay ∷ [];
  relay_by_id = λ id. if str_eq id "cam-1" then some relay else none;
  active_relays = pos 2;
  size_text = λ w h. "1920x1080";
}

abbrev recording : Option (String → Bool)
recording = some (λ id. str_eq id "cam-1")

abbrev fine : Channels.Env
fine = record { can_write = true; left_behind = absent }

abbrev world : World
world = record { disk = fine; says_not_found = λ e. false }

abbrev empty : State
empty = record { file = holds []; cameras = [] }

abbrev stored : State
stored = record { file = holds (door ∷ []); cameras = ("cam-1", camera_of door) ∷ [] }

upserted : upsert_camera world "cam-1" door empty ≡ answered stored (new_channel_response door)
unfolding upsert_camera save_channel load save Channels.replace register_camera Assoc.put
upserted = refl

upsert_camera-answered_example :
    (new_channel_response door ≡ new_channel_response door)
    × (get_camera_config "cam-1" stored.file ≡ ok (new_channel_response door))
    × (shown "cam-1" (list_cameras hub recording stored.cameras)
        ≡ some (show_camera hub recording (camera_of door)))
upsert_camera-answered_example =
    upsert_camera-answered world hub recording "cam-1" "cam-1" door empty stored
      (new_channel_response door) tt upserted

deleted : delete_camera world "cam-1" stored ≡ answered empty tt
unfolding delete_camera delete_channel load save has_channel unregister_camera Assoc.remove
    Channels.without_first
deleted = refl

delete_camera-answered_example :
    (get_camera_config "cam-1" empty.file ≡ problem 404 not_found)
    × (shown "cam-1" (list_cameras hub recording empty.cameras) ≡ none)
delete_camera-answered_example =
    delete_camera-answered world hub recording "cam-1" "cam-1" (door ∷ []) stored empty (refl, tt)
      refl (tt, tt) deleted

abbrev columns : String → Option ℕ
columns = build_column_index ("id" ∷ "rtsp_main" ∷ [])

-- Two records of one camera, and one that is blank.
abbrev rows : List (Channels.Env × Read)
rows =
    (fine, cells ("cam-1" ∷ "rtsp://10.0.0.1/old" ∷ []))
    ∷ (fine, cells ("" ∷ "rtsp://x" ∷ []))
    ∷ (fine, cells (" cam-1 " ∷ "rtsp://10.0.0.1/main" ∷ []))
    ∷ []

abbrev after_import : State
after_import = (save_csv_records columns rows 0 empty).0

imported_two : save_csv_records columns rows 0 empty ≡ finished after_import 2
unfolding save_csv_records record_to_channel build_column_index column_from lower_is trim_space
    save_channel load save Channels.replace register_camera Assoc.put
imported_two = refl

save_csv_records-latest_example :
    (get_channel "cam-1" after_import.file
      ≡ latest columns "cam-1" rows (get_channel "cam-1" empty.file))
    × (2 ≡ count_kept columns rows)
save_csv_records-latest_example =
    save_csv_records-latest columns "cam-1" rows empty after_import 2 imported_two

abbrev returned : Channel
returned = record_to_channel (channel_to_record door) (build_column_index csv_header)

record_to_channel-channel_to_record_example :
    (returned.id ≡ trim_space "cam-1")
    × (returned.name ≡ trim_space "Front Door")
    × (returned.stream_url ≡ trim_space "rtsp://10.0.0.1/main")
    × (returned.username ≡ trim_space "admin")
    × (returned.password ≡ trim_space "")
    × (extra_of "ip_address" returned ≡ trim_space (extra_of "ip_address" door))
    × (extra_of "manufacturer" returned ≡ trim_space (extra_of "manufacturer" door))
    × (extra_of "model" returned ≡ trim_space (extra_of "model" door))
    × (extra_of "rtsp_sub" returned ≡ trim_space (extra_of "rtsp_sub" door))
    × (returned.site_id ≡ pos 1)
record_to_channel-channel_to_record_example = record_to_channel-channel_to_record door

abbrev entry : RecordingEntry
entry = record {
  id = "early";
  channel_id = "cam-1";
  start_time = 30 * day;
  end_time = 30 * day + 5 * second;
  file_path = "a.fmp4";
  size_bytes = pos 1;
  status = complete;
  has_motion = false;
  has_objects = false;
  has_events = false;
}

abbrev env : Index.Env
env = record { now = 41 * day; answers = λ ch. true; closes = λ ch. true; listing = some [] }

abbrev queried : Timelines.State
queried = record { index = some (insert env entry (new_index [])).0; collector = some [] }

abbrev request : TimelineInput
request = record {
  paginated = record { limit = pos 10; offset = 0 };
  camera_id = "cam-1";
  start = "0001-01-31T12:00:00Z";
  end = "";
}

huma_get_timeline-huma_recording_timeline_example :
    (map_response (map_page span_of_summary) (huma_get_timeline env clock request queried)
      ≡ map_response (map_page span_of_entry) (huma_recording_timeline env clock request queried))
    × (map_response (map_page span_of_entry) (huma_recording_timeline env clock request queried)
        ≡ spans_in env request (parse_optional_time_range clock request.start request.end) queried)
huma_get_timeline-huma_recording_timeline_example =
    huma_get_timeline-huma_recording_timeline env clock request queried

abbrev streaming : Streams.World
streaming = record { clock = clock; hub_starts = true; consumed = some 5; has_collector = true }

run-http_stream_example :
    run (http_stream streaming "cam-1" "0001-01-31T12:00:00Z") (some nothing) ≡ some nothing
run-http_stream_example = run-http_stream streaming "cam-1" "0001-01-31T12:00:00Z"
