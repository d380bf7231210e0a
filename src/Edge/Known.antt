-- ===== src/Edge/Known.antt =====
-- internal/edge/app.go with pkg/recorder: the cameras at the start, and their schedules.
use vrtc.Base.Assoc
use vrtc.Base.{
  sym, subst, inl, inr, not, Bool-cases, str_eq→eq, ◌++◌, select, In, In-append_left,
  In-append_right, In-map, In-select_of, ◌≡◌, refl, ap, ◌∙◌, Bool, true, false, ◌||◌, Option, none,
  some, List, [], ◌∷◌, map, String, str_eq, arith, if◌then◌else◌,
}
use vrtc.Channels.{Channel, Result, ok, err, list_channels}
use vrtc.View.Cameras.{Cameras, register_camera}
use vrtc.Http.Cameras.{camera_of}
use vrtc.Recorder.Index
use vrtc.Recorder.Manager
use vrtc.Recorder.Manager.{Schedule}
use vrtc.Recorder.Manager.Tick.{default_schedule, append_defaults}
use vrtc.Recorder.Manager.Tick.Defaults.{append_defaults-eq, In-of_contains, In-of_map}
use vrtc.Edge.{World, register_channels, cameras_of, first_cameras, ids_or_error, adapt_channels}

-- Whether a text is in a list.
abbrev pub contains : String → List String → Bool
contains id [] = false
contains id (x ∷ xs) = str_eq x id || contains id xs

abbrev pub is_some : {A : Type 0} → Option A → Bool
is_some none = false
is_some (some a) = true

abbrev pub is_known : String → Cameras → Bool
is_known id cameras = is_some (Assoc.get id cameras)

is_some-if :
    {A : Type 0} (b : Bool) (a : A) (o : Option A)
    → is_some (if b then some a else o) ≡ b || is_some o
is_some-if true a o = refl
is_some-if false a o = refl

register-known :
    (id : String) (ch : Channel) (cameras : Cameras)
    → is_known id (register_camera (camera_of ch) cameras) ≡ str_eq ch.id id || is_known id cameras
unfolding register_camera
register-known id ch cameras =
    rw (Assoc.get-put ch.id id (camera_of ch) cameras)
      (is_some-if (str_eq ch.id id) (camera_of ch) (Assoc.get id cameras))

or_swap : (a b c : Bool) → a || (b || c) ≡ (b || a) || c
or_swap a b c = ground arith

register_channels-known :
    (id : String) (chs : List Channel) (cameras : Cameras)
    → is_known id (register_channels chs cameras)
      ≡ contains id (map (λ (ch : Channel). ch.id) chs) || is_known id cameras
unfolding register_channels
register_channels-known id [] cameras = refl
register_channels-known id (ch ∷ chs) cameras =
    register_channels-known id chs (register_camera (camera_of ch) cameras)
    ∙ ap (λ b. contains id (map (λ (c : Channel). c.id) chs) || b) (register-known id ch cameras)
    ∙ or_swap (contains id (map (λ (c : Channel). c.id) chs)) (str_eq ch.id id)
        (is_known id cameras)

or_false : (a : Bool) → a || false ≡ a
or_false true = refl
or_false false = refl

ok_injective : {A : Type 0} {a b : A} → ok a ≡ ok b → a ≡ b
ok_injective h = cc

cameras_of-ids :
    (r : Result (List Channel)) (ids : List String) (id : String)
    → ids_or_error r ≡ ok ids
    → is_known id (cameras_of r) ≡ contains id ids
unfolding Assoc.get
cameras_of-ids (err e) ids id h = cc
cameras_of-ids (ok chs) ids id h =
    register_channels-known id chs []
    ∙ or_false (contains id (map (λ (ch : Channel). ch.id) chs))
    ∙ ap (contains id) (ok_injective h)

first_cameras-ids :
    (w : World) (ids : List String) (id : String)
    → adapt_channels w.channels ≡ ok ids
    → is_known id (first_cameras w) ≡ contains id ids
unfolding first_cameras adapt_channels
first_cameras-ids w ids id h = cameras_of-ids (list_channels w.channels) ids id h

In-of_listed : (id : String) (ids : List String) → contains id ids ≡ true → In id ids
In-of_listed id [] h = cc
In-of_listed id (x ∷ xs) h = elim (Bool-cases (str_eq x id)) [
  | inl e ↦ inl (sym (str_eq→eq x id e))
  | inr e ↦ inr (In-of_listed id xs (ground (arith, e, h)))
]

-- A schedule of a list that is for a channel.
abbrev IsCovered : String → List Schedule → Type 0
IsCovered id all = (s : Schedule) × In s all × (s.channel_id ≡ id)

-- A listed channel has a schedule among the given ones, or one is added for it.
defaults-IsCovered :
    (path id : String) (ids : List String) (ss : List Schedule)
    → In id ids
    → IsCovered id (
        ss
        ++ map
            (default_schedule path)
            (select (λ ch. not (Index.contains ch (map (λ s. s.channel_id) ss))) ids))
defaults-IsCovered path id ids ss i =
    elim (Bool-cases (Index.contains id (map (λ s. s.channel_id) ss))) [
      | inl e ↦
          let (s, j, q) =
            In-of_map (λ (s : Schedule). s.channel_id) id ss (In-of_contains id _ e) in
          (s, In-append_left s ss _ j, q)
      | inr e ↦ (
        default_schedule path id,
        In-append_right _ ss _
            (In-map (default_schedule path) id _ (In-select_of _ id ids i (ground (arith, e)))),
        refl,
      )
    ]

-- Every camera that the view service knows at the start has a schedule in a tick of the recording
-- manager, one of those that are listed or a default one: the tick sees the channels that could be
-- listed at the start.
pub first_cameras-append_defaults :
    (w : World) (tw : Manager.World) (m : Manager.Manager) (ids : List String) (id : String)
    (ss : List Schedule)
    → adapt_channels w.channels ≡ ok ids
    → tw.list_channels ≡ some ids
    → m.has_channels ≡ true
    → is_known id (first_cameras w) ≡ true
    → (s : Schedule) × In s (append_defaults tw m ss) × (s.channel_id ≡ id)
first_cameras-append_defaults w tw m ids id ss a l h k =
    subst (IsCovered id) (sym (append_defaults-eq tw m ids ss h l)) (
      defaults-IsCovered m.default_storage_path id ids ss
        (In-of_listed id ids (sym (first_cameras-ids w ids id a) ∙ k)))
