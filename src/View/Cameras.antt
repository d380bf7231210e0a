-- ===== src/View/Cameras.antt =====
-- pkg/edgeview/stream.go: the cameras of a view service, and the relays of its hub.
--
-- The map of cameras is an association list; the order in which Go walks a map is none in particular,
-- and here it is that of the list.
use vrtc.Base.Assoc
use vrtc.Base.{
  ℕ, ◌≡◌, refl, sym, ap, ◌∙◌, Bool, true, false, Option, none, some, List, [], ◌∷◌, String, str_eq,
  str_eq→eq, if-split, if-both, arith, if◌then◌else◌,
}
use vrtc.Base.Int.{ℤ, positive}

pub record CameraInfo : Type 0 where
  pub camera_id : String
  pub name : String
  pub codec : String
  pub resolution : String
  pub fps : ℤ
  pub recording : Bool
  pub analytics : Bool
  pub state : String

pub record RelayStream : Type 0 where
  pub width : ℤ
  pub height : ℤ
  pub codec_name : String

-- The fields of the relay hub's statistics that are read; `whole_fps` is `int(ActualFPS)`.
pub record RelayStats : Type 0 where
  pub id : String
  pub packets_read : ℕ
  pub bytes_read : ℕ
  pub key_frames : ℕ
  pub dropped_packets : ℕ
  pub whole_fps : ℤ
  pub streams : List RelayStream

-- What the hub and `fmt.Sprintf("%dx%d")` answer.
pub record Hub : Type 0 where
  pub relays : List RelayStats
  pub relay_by_id : String → Option RelayStats
  pub active_relays : ℤ
  pub size_text : ℤ → ℤ → String

abbrev pub Cameras : Type 0
Cameras = List (String × CameraInfo)

unfoldable pub register_camera : CameraInfo → Cameras → Cameras
register_camera info cameras = Assoc.put info.camera_id info cameras

unfoldable pub unregister_camera : String → Cameras → Cameras
unregister_camera id cameras = Assoc.remove id cameras

-- The loop over the streams of a relay, up to the first with a width.
unfoldable pub show_stream : Hub → List RelayStream → CameraInfo → CameraInfo
show_stream hub [] info = info
show_stream hub (s ∷ ss) info =
    let rest = show_stream hub ss info in
    if positive s.width
    then record info { codec = s.codec_name; resolution = hub.size_text s.width s.height }
    else rest

abbrev pub show_relay : Hub → Option RelayStats → CameraInfo → CameraInfo
show_relay hub none info = info
show_relay hub (some rs) info =
    show_stream hub rs.streams (record info { fps = rs.whole_fps; state = "streaming" })

-- `ActiveChannels()`, or no map where there is no recording manager: a camera is in neither.
abbrev pub is_recording : Option (String → Bool) → String → Bool
is_recording none id = false
is_recording (some active) id = active id

unfoldable pub show_camera : Hub → Option (String → Bool) → CameraInfo → CameraInfo
show_camera hub active c =
    show_relay hub (hub.relay_by_id c.camera_id)
      (record c { recording = is_recording active c.camera_id })

unfoldable pub list_cameras : Hub → Option (String → Bool) → Cameras → List CameraInfo
list_cameras hub active [] = []
list_cameras hub active ((k, c) ∷ cameras) =
    show_camera hub active c ∷ list_cameras hub active cameras

-- The camera that a list shows under an id.
unfoldable pub shown : String → List CameraInfo → Option CameraInfo
shown id [] = none
shown id (c ∷ cs) = if str_eq c.camera_id id then some c else shown id cs

-- Every camera stands under its own id.
abbrev pub AreKeyed : Cameras → Type 0
AreKeyed [] = Unit
AreKeyed ((k, c) ∷ cameras) = (k ≡ c.camera_id) × AreKeyed cameras

pub register_camera-AreKeyed :
    (c : CameraInfo) (cameras : Cameras) → AreKeyed cameras → AreKeyed (register_camera c cameras)
unfolding register_camera Assoc.put
register_camera-AreKeyed c [] h = (refl, tt)
register_camera-AreKeyed c ((j, d) ∷ cameras) (e, h) =
    if-split AreKeyed (str_eq j c.camera_id) (λ b. (str_eq→eq j c.camera_id b, h))
      (λ b. (e, register_camera-AreKeyed c cameras h))

pub unregister_camera-AreKeyed :
    (id : String) (cameras : Cameras) → AreKeyed cameras → AreKeyed (unregister_camera id cameras)
unfolding unregister_camera Assoc.remove
unregister_camera-AreKeyed id [] h = tt
unregister_camera-AreKeyed id ((j, d) ∷ cameras) (e, h) =
    if-both AreKeyed (str_eq j id) (unregister_camera-AreKeyed id cameras h)
      (e, unregister_camera-AreKeyed id cameras h)

show_stream-id :
    (hub : Hub) (ss : List RelayStream) (c : CameraInfo)
    → (show_stream hub ss c).camera_id ≡ c.camera_id
unfolding show_stream
show_stream-id hub [] c = refl
show_stream-id hub (s ∷ ss) c = ground (arith, show_stream-id hub ss c)

show_camera-id :
    (hub : Hub) (active : Option (String → Bool)) (c : CameraInfo)
    → (show_camera hub active c).camera_id ≡ c.camera_id
unfolding show_camera
show_camera-id hub active c = relay (hub.relay_by_id c.camera_id)
  where
    relay :
        (o : Option RelayStats)
        → (show_relay hub o (record c { recording = is_recording active c.camera_id })).camera_id
          ≡ c.camera_id
    relay none = refl
    relay (some rs) = show_stream-id hub rs.streams _

module _ (hub : Hub) (active : Option (String → Bool)) where
  abbrev pub show_found : Option CameraInfo → Option CameraInfo
  show_found none = none
  show_found (some c) = some (show_camera hub active c)

  found-if :
      (b : Bool) (c found : Option CameraInfo) (rest : Option CameraInfo)
      → show_found found ≡ rest
      → show_found (if b then c else found) ≡ (if b then show_found c else rest)
  found-if true c found rest h = refl
  found-if false c found rest h = h

  shown-list_cameras :
      (id : String) (cameras : Cameras)
      → AreKeyed cameras
      → shown id (list_cameras hub active cameras) ≡ show_found (Assoc.get id cameras)
  unfolding list_cameras shown Assoc.get
  shown-list_cameras id [] h = refl
  shown-list_cameras id ((k, c) ∷ cameras) (e, h) =
      let rest = shown id (list_cameras hub active cameras) in
      ap (λ x. if str_eq x id then some (show_camera hub active c) else rest)
        (show_camera-id hub active c ∙ sym e)
      ∙ sym (
          found-if (str_eq k id) (some c) (Assoc.get id cameras) rest
            (sym (shown-list_cameras id cameras h)))

  -- A camera that is registered is listed as it was registered, with what the hub and the recording
  -- manager say of it; every other camera is listed as before. An id that is unregistered is not
  -- listed any more, and every other is as before.
  pub list_cameras-changes :
      (c : CameraInfo) (gone id : String) (cameras : Cameras)
      → AreKeyed cameras
      → (shown id (list_cameras hub active (register_camera c cameras)) ≡ (
          if str_eq c.camera_id id
          then some (show_camera hub active c)
          else shown id (list_cameras hub active cameras)))
        × (shown id (list_cameras hub active (unregister_camera gone cameras))
            ≡ (if str_eq gone id then none else shown id (list_cameras hub active cameras)))
  unfolding register_camera unregister_camera
  list_cameras-changes c gone id cameras h = (
    shown-list_cameras id (register_camera c cameras) (register_camera-AreKeyed c cameras h)
        ∙ ap show_found (Assoc.get-put c.camera_id id c cameras)
        ∙ found-if (str_eq c.camera_id id) (some c) _ _ (sym (shown-list_cameras id cameras h)),
    shown-list_cameras id (unregister_camera gone cameras)
          (unregister_camera-AreKeyed gone cameras h)
        ∙ ap show_found (Assoc.get-remove gone id cameras)
        ∙ found-if (str_eq gone id) none _ _ (sym (shown-list_cameras id cameras h)),
  )
