-- ===== src/Http/Cameras/Changes.antt =====
-- pkg/edgeview/http_cameras.go: what a change over HTTP leaves, in the file and in the list.
use vrtc.Base.{
  ◌≡◌, ◌≢◌, refl, sym, ap, ◌∙◌, Bool, true, false, ◌||◌, Option, none, some, List, [], String,
  str_eq, if-split, if◌then◌else◌,
}
use vrtc.Base.Int.{pos}
use vrtc.Channels.{
  Channel, channel_not_found, wrapped, Result, ok, err, File, holds, save_channel, get_channel,
  delete_channel,
}
use vrtc.Channels.Changes.{save_channel-get, AreDistinct, delete_channel-get}
use vrtc.View.Cameras.{
  Cameras, Hub, register_camera, unregister_camera, list_cameras, shown, show_camera, AreKeyed,
  list_cameras-changes,
}
use vrtc.Http.Range.{Response, problem, not_found, internal}
use vrtc.Http.Range
use vrtc.Http.Cameras.{
  State, World, ChannelResponse, new_channel_response, is_channel_not_found, camera_of, after_save,
  upsert_camera, channel_or_problem, get_camera_config, after_delete, delete_camera,
}

abbrev pub answered : {A : Type 0} → State → A → State × Response A
answered st a = (st, Range.ok a)

channel_or_problem-if :
    (b : Bool) (ch : Channel) (r : Result Channel)
    → channel_or_problem (if b then ok ch else r)
      ≡ (if b then Range.ok (new_channel_response ch) else channel_or_problem r)
channel_or_problem-if true ch r = refl
channel_or_problem-if false ch r = refl

-- What a save that is answered by a channel has done.
after_save-answered :
    (ch : Channel) (cameras : Cameras) (r : File × Result (Unit {0})) (st' : State)
    (resp : ChannelResponse)
    → after_save ch cameras r ≡ answered st' resp
    → (r.1 ≡ ok tt)
      × (r.0 ≡ st'.file)
      × (register_camera (camera_of ch) cameras ≡ st'.cameras)
      × (new_channel_response ch ≡ resp)
after_save-answered ch cameras (file, err e) st' resp h = cc
after_save-answered ch cameras (file, ok u) st' resp h = (refl, cc, cc, cc)

upsert_camera-saves :
    (w : World) (id : String) (body : Channel) (st st' : State) (resp : ChannelResponse)
    → upsert_camera w id body st ≡ answered st' resp
    → let ch = record body { id = id } in
      after_save ch st.cameras (save_channel w.disk ch st.file) ≡ answered st' resp
unfolding upsert_camera
upsert_camera-saves w id body st st' resp =
    let ch : Channel = record body { id = id } in
    if-split
      (λ (x : State × Response ChannelResponse).
        x ≡ answered st' resp
        → after_save ch st.cameras (save_channel w.disk ch st.file) ≡ answered st' resp)
      (str_eq body.stream_url "") (λ b h. cc) (λ b h. h)

-- An upsert that is answered by a channel: the answer is the channel with the id of the path, reading
-- it back gives the same answer, and every other id reads as before. The list of cameras shows it
-- under its id as active, unless the hub streams it, and every other camera as before.
pub upsert_camera-answered :
    (w : World) (hub : Hub) (active : Option (String → Bool)) (id j : String) (body : Channel)
    (st st' : State) (resp : ChannelResponse)
    → AreKeyed st.cameras
    → upsert_camera w id body st ≡ answered st' resp
    → let ch = record body { id = id } in
      (resp ≡ new_channel_response ch)
      × (get_camera_config j st'.file
          ≡ (if str_eq id j then Range.ok resp else get_camera_config j st.file))
      × (shown j (list_cameras hub active st'.cameras) ≡ (
          if str_eq id j
          then some (show_camera hub active (camera_of ch))
          else shown j (list_cameras hub active st.cameras)))
unfolding get_camera_config
upsert_camera-answered w hub active id j body st st' resp keyed h =
    let ch : Channel = record body { id = id } in
    let (done, file, cameras, same) =
      after_save-answered ch st.cameras (save_channel w.disk ch st.file) st' resp
        (upsert_camera-saves w id body st st' resp h) in
    (
      sym same,
      ap (λ f. channel_or_problem (get_channel j f)) (sym file)
          ∙ (ap channel_or_problem (save_channel-get w.disk ch j st.file done).1
              ∙ channel_or_problem-if (str_eq id j) ch (get_channel j st.file)
              ∙ ap
                  (λ r.
                    if str_eq id j then Range.ok r else channel_or_problem (get_channel j st.file))
                  same),
      ap (λ cs. shown j (list_cameras hub active cs)) (sym cameras)
          ∙ (list_cameras-changes hub active (camera_of ch) id j st.cameras keyed).0,
    )

abbrev no_content : Response (Unit {0})
no_content = Range.ok tt

problem-if : (b : Bool) → (if b then problem 404 not_found else problem 500 internal) ≢ no_content
problem-if true h = cc
problem-if false h = cc

after_delete-answered :
    (w : World) (id : String) (cameras : Cameras) (r : File × Result (Unit {0})) (st' : State)
    → after_delete w id cameras r ≡ answered st' tt
    → (r.1 ≡ ok tt) × (r.0 ≡ st'.file) × (unregister_camera id cameras ≡ st'.cameras)
after_delete-answered w id cameras (file, err e) st' h =
    absurd (problem-if (is_channel_not_found e || w.says_not_found e) (ap (λ x. x.1) h))
after_delete-answered w id cameras (file, ok u) st' h = (refl, cc, cc)

channel_or_problem-gone :
    (b : Bool) (r : Result Channel)
    → channel_or_problem (if b then err (wrapped channel_not_found) else r)
      ≡ (if b then problem 404 not_found else channel_or_problem r)
channel_or_problem-gone true r = refl
channel_or_problem-gone false r = refl

-- A deletion that is answered by 204, from a file in which no two channels have one id: reading the
-- id is answered by 404 from then on, and every other id as before; the list of cameras shows the id
-- no more, and every other camera as before.
pub delete_camera-answered :
    (w : World) (hub : Hub) (active : Option (String → Bool)) (id j : String) (chs : List Channel)
    (st st' : State)
    → AreKeyed st.cameras
    → st.file ≡ holds chs
    → AreDistinct chs
    → delete_camera w id st ≡ answered st' tt
    → (get_camera_config j st'.file
        ≡ (if str_eq id j then problem 404 not_found else get_camera_config j st.file))
      × (shown j (list_cameras hub active st'.cameras)
          ≡ (if str_eq id j then none else shown j (list_cameras hub active st.cameras)))
unfolding delete_camera get_camera_config
delete_camera-answered w hub active id j chs st st' keyed held distinct h =
    let (done, file, cameras) =
      after_delete-answered w id st.cameras (delete_channel w.disk id st.file) st' h in
    (
      ap (λ f. channel_or_problem (get_channel j f)) (sym file)
          ∙ (ap channel_or_problem (delete_channel-get w.disk id j st.file chs held distinct done)
              ∙ channel_or_problem-gone (str_eq id j) (get_channel j st.file)),
      ap (λ cs. shown j (list_cameras hub active cs)) (sym cameras)
          ∙ (list_cameras-changes hub active
              (camera_of (record {
                id = id;
                name = "";
                stream_url = "";
                username = "";
                password = "";
                site_id = pos 0;
                extra = [];
              }))
              id j st.cameras keyed).1,
    )
