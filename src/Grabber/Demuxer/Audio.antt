-- ===== src/Grabber/Demuxer/Audio.antt =====
-- internal/avgrabber/demuxer.go: the audio codec, learnt from the stream info or from a frame.
use vrtc.Base.{ℕ, ◌%◌, ◌^◌, true, ◌||◌, Option, none, some, ltb, leb, ◌==◌, if◌then◌else◌}
use vrtc.Grabber.Frame.{
  Frame, StreamInfo, codec_g711u, codec_g711a, codec_l16, codec_aac, codec_g722, codec_g726,
  codec_opus,
}
use vrtc.Grabber.Demuxer.{
  Demuxer, Parsers, Codec, Layout, mono, stereo, mulaw, alaw, linear, opus_at, default_mulaw,
  default_alaw, mpeg4_audio, Adts,
}

-- The codec of the stream info, for the codecs that it is enough for.
abbrev pub info_codec : ℕ → ℕ → Layout → Option Codec
info_codec c rate ch =
    if c == codec_g711u
    then some (mulaw rate ch)
    else if c == codec_g711a
    then some (alaw rate ch)
    else if c == codec_opus
    then some (opus_at rate ch)
    else if c == codec_g722 || c == codec_g726 || c == codec_l16
    then some (linear rate ch)
    else none

abbrev pub set_info_codec : ℕ → Option Codec → Demuxer → Demuxer
set_info_codec rate none d = record d { audio_clk = rate }
set_info_codec rate (some c) d = record d {
  audio_clk = rate;
  audio_codec = some c;
  audio_ready = true;
}

-- The clock is set for a codec that is not known too.
unfoldable pub try_audio_from_stream_info : Option StreamInfo → Demuxer → Demuxer
try_audio_from_stream_info none d = d
try_audio_from_stream_info (some i) d =
    let ch = if leb 2 i.audio_channels then stereo else mono in
    let ready =
      set_info_codec i.audio_sample_rate (info_codec i.audio_codec i.audio_sample_rate ch) d in
    if i.audio_sample_rate == 0 then d else ready

abbrev pub set_audio : Codec → ℕ → Demuxer → Demuxer
set_audio c clk d = record d { audio_codec = some c; audio_clk = clk; audio_ready = true }

-- The rate of the stream info if there is one, and a default.
abbrev pub rate_or : ℕ → Option StreamInfo → ℕ
rate_or rate none = rate
rate_or rate (some i) = if ltb 0 i.audio_sample_rate then i.audio_sample_rate else rate

abbrev pub try_adts : Parsers → Option Adts → Demuxer → Demuxer
try_adts sdk none d = d
try_adts sdk (some a) d =
    if sdk.accepts_config a.config
    then set_audio (mpeg4_audio a.config) (a.sample_rate % 2 ^ 32) d
    else d

unfoldable pub try_audio_from_frame : Parsers → Option StreamInfo → Frame → Demuxer → Demuxer
try_audio_from_frame sdk info f d =
    if f.codec_type == codec_aac
    then try_adts sdk (sdk.parse_adts f.payload) d
    else if f.codec_type == codec_g711u
    then set_audio default_mulaw 8000 d
    else if f.codec_type == codec_g711a
    then set_audio default_alaw 8000 d
    else if f.codec_type == codec_opus
    then set_audio (opus_at (rate_or 48000 info) mono) (rate_or 48000 info) d
    else if f.codec_type == codec_g722 || f.codec_type == codec_g726 || f.codec_type == codec_l16
    then set_audio (linear (rate_or 8000 info) mono) (rate_or 8000 info) d
    else d
