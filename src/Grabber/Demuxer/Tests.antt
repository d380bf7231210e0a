-- ===== src/Grabber/Demuxer/Tests.antt =====
-- The demuxer at concrete inputs: a camera that sends its parameter sets, a key and a delta picture.
use vrtc.Base.{ℕ, ◌≡◌, refl, inl, true, false, none, some, List, [], ◌∷◌, ◌++◌, arith}
use vrtc.Base.Int.{quot, pos, wrap64, ◌*ℤ◌, mul64, sub64, ◌-ℤ◌}
use vrtc.Clock.{second}
use vrtc.Grabber.Payload.{
  Bytes, annex_b_start_code_len, split_from, split_annex_b, video_payload_to_avcc, prefix_units,
  put_uint32,
}
use vrtc.Grabber.Frame.{Frame, not_ready, is_not_ready, av_codec_type, h264}
use vrtc.Grabber.Demuxer.{
  Demuxer, Parsers, avc, Stream, Packet, Tick, Answer, frame, error, new_demuxer, build_streams,
  base_packet, ticks_to_duration, video_stream_idx,
}
use vrtc.Grabber.Demuxer.ParamSets.{
  apply_param_set, apply_h264_param_set, note_units, video_duration,
}
use vrtc.Grabber.Demuxer.Audio.{try_audio_from_stream_info}
use vrtc.Grabber.Demuxer.Read.{
  returned, loop, get_codecs, codecs_round, read_packet, read_round, frame_to_packet,
  video_frame_to_packet,
}
use vrtc.Grabber.Demuxer.Ticks.{base_packet-wraps, IsNegative}
use vrtc.Grabber.Demuxer.Told.{heard, video_of}
use vrtc.Grabber.Demuxer.Announced.{read_packets, get_codecs-read_packets}
use vrtc.Grabber.Demuxer.Live.{get_codecs-returns, read_packet-returns}

abbrev sdk : Parsers
sdk = record {
  parse_h264 = λ s p. some (record { time_scale = 90_000; packet_duration = pos 40_000_000 });
  parse_h265 = λ v s p. none;
  parse_adts = λ bytes. none;
  accepts_config = λ c. true;
}

abbrev sets : Bytes
sets = 0 ∷ 0 ∷ 1 ∷ 103 ∷ 66 ∷ 0 ∷ 0 ∷ 1 ∷ 104 ∷ 206 ∷ []

abbrev video_frame : ℕ → ℕ → Bytes → Frame
video_frame kind ticks bytes = record {
  frame_type = kind;
  media_type = 0;
  codec_type = 2;
  flags = 0;
  wall_clock_ms = pos 0;
  pts_ticks = pos ticks;
  dts_ticks = pos ticks;
  duration_ticks = 0;
  payload = bytes;
}

abbrev tick : Answer → Tick
tick a = record { cancelled = false; answer = a; info = none }

abbrev set_tick : Tick
set_tick = tick (frame (video_frame 0 0 sets))

abbrev key_tick : Tick
key_tick = tick (frame (video_frame 1 90_000 (0 ∷ 0 ∷ 1 ∷ 101 ∷ [])))

abbrev idle : Tick
idle = tick (error not_ready)

abbrev streams : List Stream
streams = record { idx = 0; codec = avc (103 ∷ 66 ∷ []) (104 ∷ 206 ∷ []) } ∷ []

started : (get_codecs sdk (idle ∷ set_tick ∷ []) new_demuxer).1 ≡ returned streams
unfolding get_codecs loop codecs_round is_not_ready apply_param_set apply_h264_param_set note_units
    split_annex_b split_from annex_b_start_code_len try_audio_from_stream_info build_streams
started = refl

abbrev key_packet : Packet
key_packet = record {
  idx = 0;
  key_frame = true;
  codec_type = h264;
  is_discontinuity = false;
  dts = pos second;
  pts_offset = pos 0;
  wall_clock_ms = pos 0;
  frame_id = pos 90_000;
  payload = 0 ∷ 0 ∷ 0 ∷ 1 ∷ 101 ∷ [];
  duration = pos 40_000_000;
  new_codecs = streams;
}

abbrev after_start : Demuxer
after_start = (get_codecs sdk (idle ∷ set_tick ∷ []) new_demuxer).0

abbrev after_calls : Demuxer × List Stream
after_calls = read_packets sdk ((set_tick ∷ []) ∷ []) after_start streams

key_read : (read_packet sdk (key_tick ∷ []) after_calls.0).1 ≡ returned key_packet
unfolding get_codecs loop codecs_round is_not_ready apply_param_set apply_h264_param_set note_units
    split_annex_b split_from annex_b_start_code_len try_audio_from_stream_info build_streams
    read_packets read_packet read_round frame_to_packet video_frame_to_packet video_duration
    base_packet av_codec_type ticks_to_duration quot mul64 sub64 wrap64 ◌*ℤ◌ ◌-ℤ◌
    video_payload_to_avcc prefix_units put_uint32
key_read = refl

get_codecs-read_packets_example :
    video_of (heard after_calls.1 streams)
    ≡ (read_packet sdk (key_tick ∷ []) after_calls.0).0.video_codec
get_codecs-read_packets_example =
    get_codecs-read_packets sdk (idle ∷ set_tick ∷ []) (key_tick ∷ []) ((set_tick ∷ []) ∷ [])
      new_demuxer streams key_packet started key_read refl

get_codecs-returns_example :
    (ss : List Stream) × ((get_codecs sdk ((idle ∷ []) ++ set_tick ∷ idle ∷ []) new_demuxer).1
      ≡ returned ss)
unfolding is_not_ready note_units split_annex_b split_from annex_b_start_code_len
get_codecs-returns_example =
    get_codecs-returns sdk (idle ∷ []) set_tick (idle ∷ []) (video_frame 0 0 sets) new_demuxer
      ((refl, refl), tt) refl refl (refl, refl, refl, _, _, refl, refl, _, refl)

read_packet-returns_example :
    (p : Packet) × ((read_packet sdk ((idle ∷ []) ++ key_tick ∷ []) new_demuxer).1 ≡ returned p)
unfolding is_not_ready
read_packet-returns_example =
    read_packet-returns sdk (idle ∷ []) key_tick [] (video_frame 1 90_000 (0 ∷ 0 ∷ 1 ∷ 101 ∷ []))
      new_demuxer (((refl, refl), tt), tt) refl refl (refl, inl refl)

abbrev running : Demuxer
running = record new_demuxer {
  video_clk = 90_000;
  last_video_dts = pos 1_000;
  has_last_video_dts = true;
}

base_packet-wraps_example :
    IsNegative (base_packet running (video_frame 1 9_223_372_037 []) video_stream_idx).dts
base_packet-wraps_example =
    base_packet-wraps running (video_frame 1 9_223_372_037 []) 9_223_372_037 (omega arith) refl
      (omega arith) (omega arith)
