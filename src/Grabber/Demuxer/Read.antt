-- ===== src/Grabber/Demuxer/Read.antt =====
-- internal/avgrabber/demuxer.go: `GetCodecs` and `ReadPacket`, over the rounds of their loops.
use vrtc.Base.{
  ℕ, zero, suc, Bool, true, false, not, ◌&&◌, Option, none, some, List, [], ◌∷◌, ltb, ◌==◌,
  if◌then◌else◌,
}
use vrtc.Base.Int.{ℤ, pos, sub64, positive}
use vrtc.Grabber.Payload.{Bytes, video_payload_to_avcc}
use vrtc.Grabber.Frame.{
  Frame, StreamInfo, Error, is_not_ready, frame_type_param_set, frame_type_key, frame_type_delta,
  media_video, media_audio, codec_aac,
}
use vrtc.Grabber.Demuxer.{
  Demuxer, Parsers, Adts, Stream, Packet, Answer, frame, error, Tick, video_stream_idx,
  audio_stream_idx, ticks_to_duration, build_streams, base_packet,
}
use vrtc.Grabber.Demuxer.ParamSets.{apply_param_set, video_duration}
use vrtc.Grabber.Demuxer.Audio.{try_audio_from_stream_info, try_audio_from_frame}

-- What became of a frame; `panicked` is a slice out of range.
pub data Outcome : Type 0 where
  packet : Packet → Outcome
  skipped parse_failed panicked : Outcome

abbrev pub after_param_set : Demuxer × Bool → Demuxer × Outcome
after_param_set (d, true) = (d, parse_failed)
after_param_set (d, false) = (d, skipped)

-- A video packet with its payload and its duration.
abbrev pub video_packet : Demuxer → Frame → Bool → Demuxer × Packet
video_packet d f key =
    let p = base_packet d f video_stream_idx in
    let (d', duration) = video_duration p.dts d in
    (
      d',
      record p {
        key_frame = key;
        payload = video_payload_to_avcc f.payload f.codec_type;
        duration = duration;
      },
    )

abbrev pub announce : Demuxer × Packet → Demuxer × Outcome
announce (d, p) =
    if d.codec_dirty
    then (record d { codec_dirty = false }, packet (record p { new_codecs = build_streams d }))
    else (d, packet p)

abbrev pub as_packet : Demuxer × Packet → Demuxer × Outcome
as_packet (d, p) = (d, packet p)

unfoldable pub video_frame_to_packet : Parsers → Frame → Demuxer → Demuxer × Outcome
video_frame_to_packet sdk f d =
    if f.frame_type == frame_type_param_set
    then after_param_set (apply_param_set sdk f d)
    else if f.frame_type == frame_type_key
    then announce (video_packet d f true)
    else if f.frame_type == frame_type_delta
    then as_packet (video_packet d f false)
    else (d, skipped)

-- `bytes[n:]`
unfoldable pub slice_from : ℕ → Bytes → Option Bytes
slice_from zero bytes = some bytes
slice_from (suc n) [] = none
slice_from (suc n) (b ∷ bytes) = slice_from n bytes

abbrev pub audio_duration : Demuxer → Frame → ℤ → ℤ
audio_duration d f dts =
    if ltb 0 d.audio_clk && ltb 0 f.duration_ticks
    then ticks_to_duration (pos f.duration_ticks) d.audio_clk
    else if d.has_last_audio_dts && positive (sub64 dts d.last_audio_dts)
    then sub64 dts d.last_audio_dts
    else pos 0

abbrev pub finish_audio : Demuxer → Frame → Bytes → Demuxer × Outcome
finish_audio d f bytes =
    let p = base_packet d f audio_stream_idx in
    (
      record d { last_audio_dts = p.dts; has_last_audio_dts = true },
      packet (record p { payload = bytes; duration = audio_duration d f p.dts }),
    )

abbrev pub finish_sliced : Demuxer → Frame → Option Bytes → Demuxer × Outcome
finish_sliced d f none = (d, panicked)
finish_sliced d f (some bytes) = finish_audio d f bytes

abbrev pub finish_adts : Demuxer → Frame → Option Adts → Demuxer × Outcome
finish_adts d f none = (d, skipped)
finish_adts d f (some a) = finish_sliced d f (slice_from a.header_len f.payload)

unfoldable pub audio_packet : Parsers → Frame → Demuxer → Demuxer × Outcome
audio_packet sdk f d =
    if f.codec_type == codec_aac
    then finish_adts d f (sdk.parse_adts f.payload)
    else finish_audio d f f.payload

unfoldable pub audio_frame_to_packet :
    Parsers → Option StreamInfo → Frame → Demuxer → Demuxer × Outcome
audio_frame_to_packet sdk info f d =
    let d' = if d.audio_ready then d else try_audio_from_frame sdk info f d in
    if d'.audio_ready then audio_packet sdk f d' else (d', skipped)

unfoldable pub frame_to_packet : Parsers → Option StreamInfo → Frame → Demuxer → Demuxer × Outcome
frame_to_packet sdk info f d =
    if f.media_type == media_video
    then video_frame_to_packet sdk f d
    else if f.media_type == media_audio
    then audio_frame_to_packet sdk info f d
    else (d, skipped)

-- How a loop ended; `waiting` is a loop that has more rounds to go than were given.
pub data Result (A : Type 0) : Type 0 where
  returned : A → Result A
  grab_failed : Error → Result A
  cancelled bad_param_set crashed waiting : Result A

-- What a round of a loop says: go on, or end.
pub data Round (A : Type 0) : Type 0 where
  again : Round A
  ends : Result A → Round A

abbrev pub or_rest : {A : Type 0} → Demuxer × Result A → Demuxer × Round A → Demuxer × Result A
or_rest rest (d, again) = rest
or_rest rest (d, ends r) = (d, r)

-- The loop over the rounds, from a body.
unfoldable pub loop :
    {A : Type 0} → (Tick → Demuxer → Demuxer × Round A) → List Tick → Demuxer → Demuxer × Result A
loop body [] d = (d, waiting)
loop body (t ∷ ts) d = let r = body t d in let rest = loop body ts r.0 in or_rest rest r

abbrev pub on_error : {A : Type 0} → Error → Round A
on_error e = if is_not_ready e then again else ends (grab_failed e)

abbrev pub packet_round : Demuxer × Outcome → Demuxer × Round Packet
packet_round (d, packet p) = (d, ends (returned p))
packet_round (d, skipped) = (d, again)
packet_round (d, parse_failed) = (d, ends bad_param_set)
packet_round (d, panicked) = (d, ends crashed)

abbrev pub read_answer : Parsers → Option StreamInfo → Answer → Demuxer → Demuxer × Round Packet
read_answer sdk info (error e) d = (d, on_error e)
read_answer sdk info (frame f) d = packet_round (frame_to_packet sdk info f d)

unfoldable pub read_round : Parsers → Tick → Demuxer → Demuxer × Round Packet
read_round sdk t d = if t.cancelled then (d, ends cancelled) else read_answer sdk t.info t.answer d

unfoldable pub read_packet : Parsers → List Tick → Demuxer → Demuxer × Result Packet
read_packet sdk ts d = loop (read_round sdk) ts d

abbrev pub found_streams : Demuxer → List Stream → Demuxer × Round (List Stream)
found_streams d [] = (d, again)
found_streams d (s ∷ ss) = (d, ends (returned (s ∷ ss)))

abbrev pub after_first_set : Option StreamInfo → Demuxer × Bool → Demuxer × Round (List Stream)
after_first_set info (d, true) = (d, ends bad_param_set)
after_first_set info (d, false) =
    let d' = if d.audio_ready then d else try_audio_from_stream_info info d in
    found_streams d' (build_streams d')

abbrev pub codecs_answer :
    Parsers → Option StreamInfo → Answer → Demuxer → Demuxer × Round (List Stream)
codecs_answer sdk info (error e) d = (d, on_error e)
codecs_answer sdk info (frame f) d =
    if f.media_type == media_video && f.frame_type == frame_type_param_set
    then after_first_set info (apply_param_set sdk f d)
    else if f.media_type == media_audio && not d.audio_ready
    then (try_audio_from_frame sdk info f d, again)
    else (d, again)

unfoldable pub codecs_round : Parsers → Tick → Demuxer → Demuxer × Round (List Stream)
codecs_round sdk t d =
    if t.cancelled then (d, ends cancelled) else codecs_answer sdk t.info t.answer d

unfoldable pub get_codecs : Parsers → List Tick → Demuxer → Demuxer × Result (List Stream)
get_codecs sdk ts d = loop (codecs_round sdk) ts d
