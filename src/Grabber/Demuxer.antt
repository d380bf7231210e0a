-- ===== src/Grabber/Demuxer.antt =====
-- internal/avgrabber/demuxer.go: packets and streams out of the frames of a grabber session.
--
-- The parsers of the SDK are a parameter, `Parsers`; a codec is kept as what it was built from. One
-- round of a loop is a `Tick`: whether the context is done, what `NextFrame` answers, and what
-- `GetStreamInfo` answers if it is asked.
pub mod ParamSets
pub mod Audio
pub mod Read
pub mod Ticks
pub mod Told
pub mod Announced
pub mod First
pub mod Returns
pub mod Live
mod Tests
use vrtc.Base.{
  ℕ, ◌+◌, ◌/◌, ◌%◌, ◌^◌, Bool, true, false, not, ◌&&◌, Option, none, some, List, [], ◌∷◌, ltb, ◌==◌,
  if◌then◌else◌,
}
use vrtc.Base.Int.{ℤ, pos, negsuc, sub_ℕ, mul64, sub64, positive, quot}
use vrtc.Clock.{second}
use vrtc.Grabber.Payload.{Bytes}
use vrtc.Grabber.Frame.{Frame, StreamInfo, Error, CodecType, av_codec_type, is_discontinuity}

pub data Layout : Type 0 where
  mono stereo : Layout

-- `default_mulaw` and `default_alaw` are what the constructors of the SDK return.
pub data Codec : Type 0 where
  avc : Bytes → Bytes → Codec
  hevc : Bytes → Bytes → Bytes → Codec
  mulaw alaw linear opus_at : ℕ → Layout → Codec
  default_mulaw default_alaw : Codec
  mpeg4_audio : ℕ → Codec

-- What an H.264 or H.265 codec answers: `TimeScale()`, and `PacketDuration(nil)`.
pub record VideoInfo : Type 0 where
  pub time_scale : ℕ
  pub packet_duration : ℤ

-- A parsed ADTS header: the configuration, its sample rate, and the length of the header.
pub record Adts : Type 0 where
  pub config : ℕ
  pub sample_rate : ℕ
  pub header_len : ℕ

pub record Parsers : Type 0 where
  pub parse_h264 : Bytes → Bytes → Option VideoInfo
  pub parse_h265 : Bytes → Bytes → Bytes → Option VideoInfo
  pub parse_adts : Bytes → Option Adts
  pub accepts_config : ℕ → Bool

pub record Stream : Type 0 where
  pub idx : ℕ
  pub codec : Codec

-- `new_codecs` is empty where the source's slice is nil.
pub record Packet : Type 0 where
  pub idx : ℕ
  pub key_frame : Bool
  pub codec_type : CodecType
  pub is_discontinuity : Bool
  pub dts : ℤ
  pub pts_offset : ℤ
  pub wall_clock_ms : ℤ
  pub frame_id : ℤ
  pub payload : Bytes
  pub duration : ℤ
  pub new_codecs : List Stream

pub record Demuxer : Type 0 where
  pub video_codec : Option Codec
  pub video_clk : ℕ
  pub audio_codec : Option Codec
  pub audio_clk : ℕ
  pub audio_ready : Bool
  pub codec_dirty : Bool
  pub last_video_dts : ℤ
  pub last_audio_dts : ℤ
  pub nominal_video_dur : ℤ
  pub has_last_video_dts : Bool
  pub has_last_audio_dts : Bool

-- The demuxer of `NewDemuxer`, on an open session.
abbrev pub new_demuxer : Demuxer
new_demuxer = record {
  video_codec = none;
  video_clk = 0;
  audio_codec = none;
  audio_clk = 0;
  audio_ready = false;
  codec_dirty = false;
  last_video_dts = pos 0;
  last_audio_dts = pos 0;
  nominal_video_dur = pos 0;
  has_last_video_dts = false;
  has_last_audio_dts = false;
}

pub data Answer : Type 0 where
  frame : Frame → Answer
  error : Error → Answer

pub record Tick : Type 0 where
  pub cancelled : Bool
  pub answer : Answer
  pub info : Option StreamInfo

abbrev pub video_stream_idx : ℕ
video_stream_idx = 0

abbrev pub audio_stream_idx : ℕ
audio_stream_idx = 1

-- `time.Duration(ticks) * time.Second / time.Duration(clk)` for clk > 0.
unfoldable pub ticks_to_duration : ℤ → ℕ → ℤ
ticks_to_duration ticks clk = quot (mul64 ticks (pos second)) clk

abbrev pub with_audio : List Stream → Bool → Option Codec → List Stream
with_audio [] ready audio = []
with_audio (s ∷ ss) true (some c) = s ∷ record { idx = audio_stream_idx; codec = c } ∷ ss
with_audio (s ∷ ss) true none = s ∷ ss
with_audio (s ∷ ss) false audio = s ∷ ss

abbrev pub video_streams : Option Codec → List Stream
video_streams none = []
video_streams (some c) = record { idx = video_stream_idx; codec = c } ∷ []

unfoldable pub build_streams : Demuxer → List Stream
build_streams d = with_audio (video_streams d.video_codec) d.audio_ready d.audio_codec

-- `basePacket`, with the clock of the stream. For equal ticks the offset is that of a difference of 0.
abbrev pub base_packet_at : Frame → ℕ → ℕ → Packet
base_packet_at f idx clk = record {
  idx = idx;
  key_frame = false;
  codec_type = av_codec_type f;
  is_discontinuity = is_discontinuity f;
  dts = if ltb 0 clk then ticks_to_duration f.dts_ticks clk else pos 0;
  pts_offset = if ltb 0 clk then ticks_to_duration (sub64 f.pts_ticks f.dts_ticks) clk else pos 0;
  wall_clock_ms = f.wall_clock_ms;
  frame_id = f.pts_ticks;
  payload = [];
  duration = pos 0;
  new_codecs = [];
}

unfoldable pub base_packet : Demuxer → Frame → ℕ → Packet
base_packet d f idx =
    base_packet_at f idx (if idx == audio_stream_idx then d.audio_clk else d.video_clk)
