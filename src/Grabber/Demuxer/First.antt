-- ===== src/Grabber/Demuxer/First.antt =====
-- internal/avgrabber/demuxer.go: what `GetCodecs` returns, and when.
use vrtc.Base.{
  ◌≡◌, refl, Bool, true, false, if-both, ◌==◌, ◌&&◌, not, Option, none, some, List, if◌then◌else◌,
}
use vrtc.Grabber.Frame.{StreamInfo, is_not_ready, frame_type_param_set, media_video, media_audio}
use vrtc.Grabber.Demuxer.{
  Demuxer, Parsers, Codec, Stream, Tick, Answer, frame, error, build_streams, with_audio,
  video_streams,
}
use vrtc.Grabber.Demuxer.ParamSets.{apply_param_set}
use vrtc.Grabber.Demuxer.Audio.{try_audio_from_stream_info}
use vrtc.Grabber.Demuxer.Read.{
  Result, returned, grab_failed, cancelled, bad_param_set, crashed, waiting, Round, get_codecs,
  codecs_round, codecs_answer, after_first_set, found_streams,
}
use vrtc.Grabber.Demuxer.Told.{Leaves, loop-Leaves, video_of}

-- The streams that are returned begin with the video codec of the demuxer.
abbrev pub IsFirst : Result (List Stream) → Demuxer → Type 0
IsFirst (returned ss) d = (c : Codec) × (d.video_codec ≡ some c) × (video_of ss ≡ some c)
IsFirst (grab_failed e) d = Unit
IsFirst cancelled d = Unit
IsFirst bad_param_set d = Unit
IsFirst crashed d = Unit
IsFirst waiting d = Unit

abbrev Goes : Demuxer × Round (List Stream) → Type 0
Goes = Leaves (λ d. Unit) IsFirst

found_streams-Goes :
    (d : Demuxer) (v a : Option Codec) (ready : Bool)
    → d.video_codec ≡ v
    → Goes (found_streams d (with_audio (video_streams v) ready a))
found_streams-Goes d none a ready e = tt
found_streams-Goes d (some c) (some a) true e = (c, e, refl)
found_streams-Goes d (some c) none true e = (c, e, refl)
found_streams-Goes d (some c) a false e = (c, e, refl)

after_first_set-Goes :
    (info : Option StreamInfo) (r : Demuxer × Bool) → Goes (after_first_set info r)
unfolding build_streams
after_first_set-Goes info (d, true) = tt
after_first_set-Goes info (d, false) =
    let d' = if d.audio_ready then d else try_audio_from_stream_info info d in
    found_streams-Goes d' d'.video_codec d'.audio_codec d'.audio_ready refl

codecs_answer-Goes :
    (sdk : Parsers) (info : Option StreamInfo) (a : Answer) (d : Demuxer)
    → Goes (codecs_answer sdk info a d)
codecs_answer-Goes sdk info (error e) d =
    if-both (λ (r : Round (List Stream)). Goes (d, r)) (is_not_ready e) tt tt
codecs_answer-Goes sdk info (frame f) d =
    if-both Goes (f.media_type == media_video && f.frame_type == frame_type_param_set)
      (after_first_set-Goes info (apply_param_set sdk f d))
      (if-both Goes (f.media_type == media_audio && not d.audio_ready) tt tt)

-- `GetCodecs` returns streams only with a video stream first, of the codec that the demuxer has.
pub get_codecs-IsFirst :
    (sdk : Parsers) (ts : List Tick) (d : Demuxer)
    → let (d', r) = get_codecs sdk ts d in IsFirst r d'
unfolding get_codecs codecs_round
get_codecs-IsFirst sdk ts d =
    loop-Leaves (λ d. Unit) IsFirst (codecs_round sdk)
      (λ t d h. if-both Goes t.cancelled tt (codecs_answer-Goes sdk t.info t.answer d)) (λ d h. tt)
      ts d tt
