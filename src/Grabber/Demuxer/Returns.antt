-- ===== src/Grabber/Demuxer/Returns.antt =====
-- internal/avgrabber/demuxer.go: `GetCodecs` and `ReadPacket` end.
use vrtc.Base.{
  ◌≡◌, ◌∙◌, refl, ◌⊎◌, inl, inr, Bool, true, false, if-both, ◌==◌, ◌&&◌, not, Option, none, some,
  List, [], ◌∷◌, ◌++◌, arith, if◌then◌else◌,
}
use vrtc.Grabber.Payload.{Bytes, codec_h264, split_annex_b}
use vrtc.Grabber.Frame.{
  Frame, StreamInfo, Error, is_not_ready, frame_type_param_set, media_video, media_audio,
}
use vrtc.Grabber.Demuxer.{
  Demuxer, Parsers, Codec, VideoInfo, Stream, Tick, Answer, frame, error, build_streams,
  new_demuxer,
}
use vrtc.Grabber.Demuxer.ParamSets.{
  apply_param_set, apply_h264_param_set, apply_h265_param_set, apply_h264_sets, apply_h265_sets,
  take_codec, note_units, note_h264, no_sets,
}
use vrtc.Grabber.Demuxer.Audio.{try_audio_from_stream_info}
use vrtc.Grabber.Demuxer.Read.{
  Result, returned, grab_failed, Round, again, ends, loop, or_rest, codecs_answer, after_first_set,
  found_streams,
}

-- A step that goes on, or ends with a result of the loop's own.
abbrev pub IsFine : {A : Type 0} → Demuxer × Round A → Type 0
IsFine {A} r = (r.1 ≡ again) ⊎ ((a : A) × (r.1 ≡ ends (returned a)))

abbrev pub Ends : {A : Type 0} → Demuxer × Round A → Type 0
Ends {A} r = (a : A) × (r.1 ≡ ends (returned a))

abbrev pub AllOf : (Tick → Type 0) → List Tick → Type 0
AllOf P [] = Unit
AllOf P (t ∷ ts) = P t × AllOf P ts

or_rest-returned :
    {A : Type 0} (r : Demuxer × Round A) (rest : Demuxer × Result A)
    → IsFine r
    → (a : A) × (rest.1 ≡ returned a)
    → (a : A) × ((or_rest rest r).1 ≡ returned a)
or_rest-returned (d, again) rest h k = k
or_rest-returned (d, ends x) rest (inl e) k = cc
or_rest-returned (d, ends x) rest (inr (a, e)) k = (a, cc)

or_rest-Ends :
    {A : Type 0} (r : Demuxer × Round A) (rest : Demuxer × Result A)
    → Ends r
    → (a : A) × ((or_rest rest r).1 ≡ returned a)
or_rest-Ends (d, again) rest (a, e) = cc
or_rest-Ends (d, ends x) rest (a, e) = (a, cc)

-- A loop whose rounds are fine up to one that ends, ends.
pub loop-returned :
    {A : Type 0} (P : Tick → Type 0) (body : Tick → Demuxer → Demuxer × Round A)
    → ((t : Tick) (d : Demuxer) → P t → IsFine (body t d))
    → (before : List Tick) (t : Tick) (rest : List Tick) (d : Demuxer) → AllOf P before
    → ((d : Demuxer) → Ends (body t d))
    → (a : A) × ((loop body (before ++ t ∷ rest) d).1 ≡ returned a)
unfolding loop
loop-returned P body fine [] t rest d h last = or_rest-Ends (body t d) _ (last d)
loop-returned P body fine (u ∷ before) t rest d (p, ps) last =
    or_rest-returned (body u d) _ (fine u d p)
      (loop-returned P body fine before t rest (body u d).0 ps last)

-- Whether the parser of the SDK fails does not depend on the demuxer.
take_codec-fails :
    (c : Codec) (o : Option VideoInfo) (d e : Demuxer) → (take_codec c o d).1 ≡ (take_codec c o e).1
take_codec-fails c none d e = refl
take_codec-fails c (some i) d e = refl

apply_h264_sets-fails :
    (sdk : Parsers) (sps pps : Option Bytes) (d e : Demuxer)
    → (apply_h264_sets sdk sps pps d).1 ≡ (apply_h264_sets sdk sps pps e).1
apply_h264_sets-fails sdk none pps d e = refl
apply_h264_sets-fails sdk (some s) none d e = refl
apply_h264_sets-fails sdk (some s) (some p) d e = take_codec-fails _ _ d e

apply_h265_sets-fails :
    (sdk : Parsers) (vps sps pps : Option Bytes) (d e : Demuxer)
    → (apply_h265_sets sdk vps sps pps d).1 ≡ (apply_h265_sets sdk vps sps pps e).1
apply_h265_sets-fails sdk none sps pps d e = refl
apply_h265_sets-fails sdk (some v) none pps d e = refl
apply_h265_sets-fails sdk (some v) (some s) none d e = refl
apply_h265_sets-fails sdk (some v) (some s) (some p) d e = take_codec-fails _ _ d e

apply_h264_param_set-fails :
    (sdk : Parsers) (bytes : Bytes) (d e : Demuxer)
    → (apply_h264_param_set sdk bytes d).1 ≡ (apply_h264_param_set sdk bytes e).1
unfolding apply_h264_param_set
apply_h264_param_set-fails sdk bytes d e = apply_h264_sets-fails sdk _ _ d e

apply_h265_param_set-fails :
    (sdk : Parsers) (bytes : Bytes) (d e : Demuxer)
    → (apply_h265_param_set sdk bytes d).1 ≡ (apply_h265_param_set sdk bytes e).1
unfolding apply_h265_param_set
apply_h265_param_set-fails sdk bytes d e = apply_h265_sets-fails sdk _ _ _ d e

pub apply_param_set-fails :
    (sdk : Parsers) (f : Frame) (d e : Demuxer)
    → (apply_param_set sdk f d).1 ≡ (apply_param_set sdk f e).1
unfolding apply_param_set
apply_param_set-fails sdk f d e = ground (
  arith,
  apply_h264_param_set-fails sdk f.payload d e,
  apply_h265_param_set-fails sdk f.payload d e,
)

-- An answer that no loop fails on: that nothing is there yet, or a frame whose parameter sets, if it
-- carries any, the parser of the SDK takes.
abbrev pub CalmAnswer : Parsers → Answer → Type 0
CalmAnswer sdk (error e) = is_not_ready e ≡ true
CalmAnswer sdk (frame f) = (apply_param_set sdk f new_demuxer).1 ≡ false

abbrev pub IsCalm : Parsers → Tick → Type 0
IsCalm sdk t = (t.cancelled ≡ false) × CalmAnswer sdk t.answer

pub on_error-IsFine :
    {A : Type 0} (d : Demuxer) (e : Error)
    → is_not_ready e ≡ true
    → IsFine {A = A} (d, if is_not_ready e then again else ends (grab_failed e))
on_error-IsFine d e h = rw h (inl refl)

found_streams-IsFine : (d : Demuxer) (ss : List Stream) → IsFine (found_streams d ss)
found_streams-IsFine d [] = inl refl
found_streams-IsFine d (s ∷ ss) = inr (s ∷ ss, refl)

after_first_set-IsFine :
    (info : Option StreamInfo) (r : Demuxer × Bool) → r.1 ≡ false → IsFine (after_first_set info r)
after_first_set-IsFine info (d, true) e = cc
after_first_set-IsFine info (d, false) e =
    let d' = if d.audio_ready then d else try_audio_from_stream_info info d in
    found_streams-IsFine d' (build_streams d')

pub codecs_answer-IsFine :
    (sdk : Parsers) (info : Option StreamInfo) (a : Answer) (d : Demuxer)
    → CalmAnswer sdk a
    → IsFine (codecs_answer sdk info a d)
codecs_answer-IsFine sdk info (error e) d h = on_error-IsFine d e h
codecs_answer-IsFine sdk info (frame f) d h =
    if-both IsFine (f.media_type == media_video && f.frame_type == frame_type_param_set)
      (after_first_set-IsFine info (apply_param_set sdk f d)
        (apply_param_set-fails sdk f d new_demuxer ∙ h))
      (if-both IsFine (f.media_type == media_audio && not d.audio_ready) (inl refl) (inl refl))

-- A frame with an H.264 sequence and picture parameter set that the parser of the SDK takes.
abbrev pub IsComplete : Parsers → Frame → Type 0
IsComplete sdk f =
    let sets = note_units note_h264 no_sets (split_annex_b f.payload) in
    (f.media_type ≡ media_video)
    × (f.frame_type ≡ frame_type_param_set)
    × (f.codec_type ≡ codec_h264)
    × (s p : Bytes) × (sets.sps ≡ some s)
    × (sets.pps ≡ some p)
    × (i : VideoInfo) × (sdk.parse_h264 s p ≡ some i)
