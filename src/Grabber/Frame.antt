-- ===== src/Grabber/Frame.antt =====
-- internal/avgrabber: what the grabber library delivers (types.go, constants.go, errors.go) and the
-- codec of a frame (convert.go).
use vrtc.Base.{ℕ, ◌/◌, ◌%◌, Bool, true, false, ◌==◌, if◌then◌else◌}
use vrtc.Base.Int.{ℤ, pos, negsuc}
use vrtc.Grabber.Payload.{Bytes, codec_h264, codec_h265}

pub record Frame : Type 0 where
  pub frame_type : ℕ
  pub media_type : ℕ
  pub codec_type : ℕ
  pub flags : ℕ
  pub wall_clock_ms : ℤ
  pub pts_ticks : ℤ
  pub dts_ticks : ℤ
  pub duration_ticks : ℕ
  pub payload : Bytes

-- The fields of a StreamInfo that the demuxer reads.
pub record StreamInfo : Type 0 where
  pub audio_codec : ℕ
  pub audio_channels : ℕ
  pub audio_sample_rate : ℕ

abbrev pub frame_type_param_set : ℕ
frame_type_param_set = 0

abbrev pub frame_type_key : ℕ
frame_type_key = 1

abbrev pub frame_type_delta : ℕ
frame_type_delta = 2

abbrev pub media_video : ℕ
media_video = 0

abbrev pub media_audio : ℕ
media_audio = 1

abbrev pub codec_mjpeg : ℕ
codec_mjpeg = 0

abbrev pub codec_g711u : ℕ
codec_g711u = 3

abbrev pub codec_g711a : ℕ
codec_g711a = 4

abbrev pub codec_l16 : ℕ
codec_l16 = 5

abbrev pub codec_aac : ℕ
codec_aac = 6

abbrev pub codec_g722 : ℕ
codec_g722 = 9

abbrev pub codec_g726 : ℕ
codec_g726 = 10

abbrev pub codec_opus : ℕ
codec_opus = 11

-- `f.Flags&FlagDiscontinuity != 0`
abbrev pub is_discontinuity : Frame → Bool
is_discontinuity f = f.flags / 2 % 2 == 1

-- The errors that stand for the status codes of the library.
pub data Error : Type 0 where
  not_ready stopped auth_failed null_pointer invalid_arg : Error
  unknown : ℤ → Error

pub data Status : Type 0 where
  fine : Status
  failed : Error → Status

unfoldable pub status_error : ℤ → Status
status_error (negsuc n) = failed (unknown (negsuc n))
status_error (pos n) =
    if n == 0
    then fine
    else if n == 3
    then failed null_pointer
    else if n == 10
    then failed not_ready
    else if n == 18
    then failed stopped
    else if n == 37
    then failed invalid_arg
    else if n == 1101
    then failed auth_failed
    else failed (unknown (pos n))

unfoldable pub is_not_ready : Error → Bool
is_not_ready not_ready = true
is_not_ready stopped = false
is_not_ready auth_failed = false
is_not_ready null_pointer = false
is_not_ready invalid_arg = false
is_not_ready (unknown n) = false

unfoldable pub is_fatal : Error → Bool
is_fatal stopped = true
is_fatal auth_failed = true
is_fatal not_ready = false
is_fatal null_pointer = false
is_fatal invalid_arg = false
is_fatal (unknown n) = false

-- The codec types of the SDK that a frame can get.
pub data CodecType : Type 0 where
  h264 h265 mjpeg aac pcm_mulaw pcm_alaw opus pcm unknown_codec : CodecType

abbrev pub audio_codec_type : ℕ → CodecType
audio_codec_type c =
    if c == codec_aac
    then aac
    else if c == codec_g711u
    then pcm_mulaw
    else if c == codec_g711a
    then pcm_alaw
    else if c == codec_opus
    then opus
    else pcm

abbrev pub video_codec_type : ℕ → CodecType
video_codec_type c =
    if c == codec_h264
    then h264
    else if c == codec_h265
    then h265
    else if c == codec_mjpeg
    then mjpeg
    else unknown_codec

unfoldable pub av_codec_type : Frame → CodecType
av_codec_type f =
    if f.media_type == media_audio
    then audio_codec_type f.codec_type
    else video_codec_type f.codec_type
