-- ===== src/Http/Cameras.antt =====
-- pkg/edgeview/http_cameras.go and http_handler.go: the cameras over HTTP.
--
-- The writer of the channels is the JSON file. The state of a handler is what the file holds and the
-- cameras of the view service.
pub mod Changes
use vrtc.Base.{
  ℕ, ◌≡◌, ◌≢◌, refl, sym, ap, subst, ◌∙◌, inl, inr, Bool, true, false, ◌||◌, Option, none, some,
  List, [], ◌∷◌, String, str_eq, str_eq_refl, join, arith, if-split, if◌then◌else◌,
}
use vrtc.Base.Int.{ℤ, pos}
use vrtc.Channels.{
  Channel, Error, file_missing, file_error, parse_error, write_error, channel_not_found, wrapped,
  Result, ok, err, File, Env, save_channel, get_channel, delete_channel, list_channels,
}
use vrtc.View.Cameras.{Cameras, CameraInfo, Hub, register_camera, unregister_camera, list_cameras}
use vrtc.Http.Page.{PaginatedInput, Page, page_of}
use vrtc.Http.Range.{Response, problem, stream_url_required, internal, not_found}
use vrtc.Http.Range

pub record ChannelResponse : Type 0 where
  pub channel : Channel
  pub stream_url : String
  pub ws_url : String

unfoldable pub new_channel_response : Channel → ChannelResponse
new_channel_response ch = record {
  channel = ch;
  stream_url = join "/api/cameras/" (join ch.id "/stream");
  ws_url = join "/api/cameras/ws/stream?cameraId=" ch.id;
}

pub record State : Type 0 where
  pub file : File
  pub cameras : Cameras

-- What the system answers: a write to the file, and whether an error says "not found" in its text.
pub record World : Type 0 where
  pub disk : Env
  pub says_not_found : Error → Bool

-- `errors.Is(err, channel.ErrChannelNotFound)`
abbrev pub is_channel_not_found : Error → Bool
is_channel_not_found file_missing = false
is_channel_not_found file_error = false
is_channel_not_found parse_error = false
is_channel_not_found write_error = false
is_channel_not_found channel_not_found = true
is_channel_not_found (wrapped e) = is_channel_not_found e

abbrev pub page_or_problem : PaginatedInput → Result (List Channel) → Response (Page Channel)
page_or_problem input (ok chs) = Range.ok (page_of input chs)
page_or_problem input (err e) = problem 500 internal

-- The handler of listCameraConfigs.
unfoldable pub list_camera_configs : PaginatedInput → File → Response (Page Channel)
list_camera_configs input file = page_or_problem input (list_channels file)

-- The camera that the service lists for a channel.
abbrev pub camera_of : Channel → CameraInfo
camera_of ch = record {
  camera_id = ch.id;
  name = ch.name;
  codec = "";
  resolution = "";
  fps = pos 0;
  recording = false;
  analytics = false;
  state = "active";
}

abbrev pub after_save :
    Channel → Cameras → File × Result (Unit {0}) → State × Response ChannelResponse
after_save ch cameras (file, err e) =
    (record { file = file; cameras = cameras }, problem 500 internal)
after_save ch cameras (file, ok u) = (
  record { file = file; cameras = register_camera (camera_of ch) cameras },
  Range.ok (new_channel_response ch),
)

-- The handler of upsertCamera.
unfoldable pub upsert_camera : World → String → Channel → State → State × Response ChannelResponse
upsert_camera w id body st =
    let ch = record body { id = id } in
    let saved = after_save ch st.cameras (save_channel w.disk ch st.file) in
    if str_eq ch.stream_url "" then (st, problem 400 stream_url_required) else saved

abbrev pub channel_or_problem : Result Channel → Response ChannelResponse
channel_or_problem (ok ch) = Range.ok (new_channel_response ch)
channel_or_problem (err e) =
    if is_channel_not_found e then problem 404 not_found else problem 500 internal

-- The handler of getCameraConfig.
unfoldable pub get_camera_config : String → File → Response ChannelResponse
get_camera_config id file = channel_or_problem (get_channel id file)

abbrev pub after_delete :
    World → String → Cameras → File × Result (Unit {0}) → State × Response (Unit {0})
after_delete w id cameras (file, err e) = (
  record { file = file; cameras = cameras },
  if is_channel_not_found e || w.says_not_found e
      then problem 404 not_found
      else problem 500 internal,
)
after_delete w id cameras (file, ok u) =
    (record { file = file; cameras = unregister_camera id cameras }, Range.ok tt)

-- The handler of deleteCamera; the answer is 204.
unfoldable pub delete_camera : World → String → State → State × Response (Unit {0})
delete_camera w id st = after_delete w id st.cameras (delete_channel w.disk id st.file)

-- The handler of listCameras.
unfoldable pub huma_list_cameras :
    Hub → Option (String → Bool) → PaginatedInput → Cameras → Response (Page CameraInfo)
huma_list_cameras hub active input cameras =
    Range.ok (page_of input (list_cameras hub active cameras))
