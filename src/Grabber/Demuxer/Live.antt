-- ===== src/Grabber/Demuxer/Live.antt =====
-- internal/avgrabber/demuxer.go: a complete parameter set ends `GetCodecs`, a picture `ReadPacket`.
use vrtc.Base.{
  ℕ, ◌≡◌, ◌∙◌, ◌≢◌, refl, ◌⊎◌, inl, inr, Bool, true, false, if-both, if-split, ◌==◌, Option, none,
  some, List, ◌∷◌, ◌++◌, arith, if◌then◌else◌,
}
use vrtc.Grabber.Frame.{
  Frame, StreamInfo, frame_type_param_set, frame_type_key, frame_type_delta, media_video,
  media_audio,
}
use vrtc.Grabber.Demuxer.{
  Demuxer, Parsers, Codec, avc, Stream, Packet, Tick, Answer, frame, error, build_streams,
  with_audio, video_streams, new_demuxer,
}
use vrtc.Grabber.Demuxer.ParamSets.{apply_param_set, apply_h264_param_set}
use vrtc.Grabber.Demuxer.Audio.{try_audio_from_stream_info, set_info_codec}
use vrtc.Grabber.Demuxer.Read.{
  returned, get_codecs, codecs_round, after_first_set, found_streams, Outcome, read_packet,
  read_round, read_answer, packet_round, frame_to_packet, video_frame_to_packet, after_param_set,
  announce, video_packet,
}
use vrtc.Grabber.Demuxer.Returns.{
  IsFine, Ends, AllOf, loop-returned, apply_param_set-fails, on_error-IsFine, codecs_answer-IsFine,
  CalmAnswer, IsCalm, IsComplete,
}

found_streams-Ends :
    (d : Demuxer) (v a : Option Codec) (ready : Bool) (c : Codec)
    → v ≡ some c
    → Ends (found_streams d (with_audio (video_streams v) ready a))
found_streams-Ends d none a ready c e = cc
found_streams-Ends d (some x) (some a) true c e = (_, refl)
found_streams-Ends d (some x) none true c e = (_, refl)
found_streams-Ends d (some x) a false c e = (_, refl)

set_info_codec-video :
    (rate : ℕ) (o : Option Codec) (d : Demuxer)
    → (set_info_codec rate o d).video_codec ≡ d.video_codec
set_info_codec-video rate none d = refl
set_info_codec-video rate (some c) d = refl

try_audio_from_stream_info-video :
    (o : Option StreamInfo) (d : Demuxer)
    → (try_audio_from_stream_info o d).video_codec ≡ d.video_codec
unfolding try_audio_from_stream_info
try_audio_from_stream_info-video none d = refl
try_audio_from_stream_info-video (some i) d =
    if-both (λ (x : Demuxer). x.video_codec ≡ d.video_codec) (i.audio_sample_rate == 0) refl
      (set_info_codec-video _ _ d)

after_first_set-Ends :
    (info : Option StreamInfo) (r : Demuxer × Bool) (c : Codec)
    → r.1 ≡ false
    → r.0.video_codec ≡ some c
    → Ends (after_first_set info r)
unfolding build_streams
after_first_set-Ends info (d, true) c e h = cc
after_first_set-Ends info (d, false) c e h =
    let d' = if d.audio_ready then d else try_audio_from_stream_info info d in
    let known : d'.video_codec ≡ some c =
      if-both (λ (x : Demuxer). x.video_codec ≡ some c) d.audio_ready h
        (try_audio_from_stream_info-video info d ∙ h) in
    found_streams-Ends d' d'.video_codec d'.audio_codec d'.audio_ready c known

apply_complete :
    (sdk : Parsers) (f : Frame) (d : Demuxer)
    → IsComplete sdk f
    → ((apply_param_set sdk f d).1 ≡ false)
      × (c : Codec) × ((apply_param_set sdk f d).0.video_codec ≡ some c)
unfolding apply_param_set apply_h264_param_set
apply_complete sdk f d (media, kind, codec, s, p, es, ep, i, ei) =
    rw (codec, es, ep, ei) (refl, avc s p, refl)

codecs_round-Ends :
    (sdk : Parsers) (t : Tick) (f : Frame) (d : Demuxer)
    → t.cancelled ≡ false
    → t.answer ≡ frame f
    → IsComplete sdk f
    → Ends (codecs_round sdk t d)
unfolding codecs_round
codecs_round-Ends sdk t f d go e complete =
    let (fine, c, known) = apply_complete sdk f d complete in
    let media = complete.0 in
    let kind = complete.1 in
    simp (go, e, media, kind) (after_first_set-Ends t.info (apply_param_set sdk f d) c fine known)

-- `GetCodecs` returns streams: after any rounds in which it is not cancelled and no answer fails it,
-- at the latest in the round of an H.264 frame with both its parameter sets, which the parser takes. It
-- waits for no key frame.
pub get_codecs-returns :
    (sdk : Parsers) (before : List Tick) (t : Tick) (rest : List Tick) (f : Frame) (d : Demuxer)
    → AllOf (IsCalm sdk) before
    → t.cancelled ≡ false
    → t.answer ≡ frame f
    → IsComplete sdk f
    → (ss : List Stream) × ((get_codecs sdk (before ++ t ∷ rest) d).1 ≡ returned ss)
unfolding get_codecs codecs_round
get_codecs-returns sdk before t rest f d calm go e complete =
    loop-returned (IsCalm sdk) (codecs_round sdk)
      (λ t d (go, calm). rw go (codecs_answer-IsFine sdk t.info t.answer d calm)) before t rest d
      calm (λ d. codecs_round-Ends sdk t f d go e complete)

-- A picture: a key or a delta frame of video.
abbrev pub IsPicture : Frame → Type 0
IsPicture f =
    (f.media_type ≡ media_video)
    × ((f.frame_type ≡ frame_type_key) ⊎ (f.frame_type ≡ frame_type_delta))

-- An answer that is not of audio.
abbrev pub IsVideo : Answer → Type 0
IsVideo (error e) = Unit
IsVideo (frame f) = f.media_type ≢ media_audio

announce-Ends : (r : Demuxer × Packet) → Ends (packet_round (announce r))
announce-Ends (d, p) =
    if-both (λ (r : Demuxer × Outcome). Ends (packet_round r)) d.codec_dirty (_, refl) (_, refl)

read_picture-Ends :
    (sdk : Parsers) (t : Tick) (f : Frame) (d : Demuxer)
    → t.cancelled ≡ false
    → t.answer ≡ frame f
    → IsPicture f
    → Ends (read_round sdk t d)
unfolding read_round frame_to_packet video_frame_to_packet
read_picture-Ends sdk t f d go e (media, inl key) =
    simp (go, e, media, key) (announce-Ends (video_packet d f true))
read_picture-Ends sdk t f d go e (media, inr delta) = simp (go, e, media, delta) (_, refl)

after_param_set-IsFine :
    (r : Demuxer × Bool) → r.1 ≡ false → IsFine (packet_round (after_param_set r))
after_param_set-IsFine (d, true) e = cc
after_param_set-IsFine (d, false) e = inl refl

abbrev IsFineFrame : Demuxer × Outcome → Type 0
IsFineFrame r = IsFine (packet_round r)

video_frame_to_packet-IsFine :
    (sdk : Parsers) (f : Frame) (d : Demuxer)
    → CalmAnswer sdk (frame f)
    → IsFineFrame (video_frame_to_packet sdk f d)
unfolding video_frame_to_packet
video_frame_to_packet-IsFine sdk f d calm =
    if-both IsFineFrame (f.frame_type == frame_type_param_set)
      (after_param_set-IsFine (apply_param_set sdk f d)
        (apply_param_set-fails sdk f d new_demuxer ∙ calm))
      (if-both IsFineFrame (f.frame_type == frame_type_key)
        (inr (announce-Ends (video_packet d f true)))
        (if-both IsFineFrame (f.frame_type == frame_type_delta) (inr (_, refl)) (inl refl)))

read_answer-IsFine :
    (sdk : Parsers) (info : Option StreamInfo) (a : Answer) (d : Demuxer)
    → CalmAnswer sdk a
    → IsVideo a
    → IsFine (read_answer sdk info a d)
unfolding frame_to_packet
read_answer-IsFine sdk info (error e) d calm video = on_error-IsFine d e calm
read_answer-IsFine sdk info (frame f) d calm video =
    if-both IsFineFrame (f.media_type == media_video) (video_frame_to_packet-IsFine sdk f d calm) (
      if-split IsFineFrame (f.media_type == media_audio) (λ b. absurd (ground (arith, video)))
        (λ b. inl refl))

-- `ReadPacket` returns a packet: after any rounds without audio in which it is not cancelled and no
-- answer fails it, at the latest in the round of a picture.
pub read_packet-returns :
    (sdk : Parsers) (before : List Tick) (t : Tick) (rest : List Tick) (f : Frame) (d : Demuxer)
    → AllOf (λ t. IsCalm sdk t × IsVideo t.answer) before
    → t.cancelled ≡ false
    → t.answer ≡ frame f
    → IsPicture f
    → (p : Packet) × ((read_packet sdk (before ++ t ∷ rest) d).1 ≡ returned p)
unfolding read_packet read_round
read_packet-returns sdk before t rest f d calm go e picture =
    loop-returned (λ t. IsCalm sdk t × IsVideo t.answer) (read_round sdk)
      (λ t d ((go, calm), video). rw go (read_answer-IsFine sdk t.info t.answer d calm video))
      before t rest d calm (λ d. read_picture-Ends sdk t f d go e picture)
