-- ===== src/Grabber/Demuxer/Announced.antt =====
-- internal/avgrabber/demuxer.go: what the reader of the packets has been told of the streams.
use vrtc.Base.{
  ◌≡◌, ◌∙◌, sym, subst, refl, ◌⊎◌, inl, inr, Bool, true, false, if-both, if-split, ◌==◌, Option,
  none, some, List, [], ◌∷◌, if◌then◌else◌,
}
use vrtc.Grabber.Frame.{
  Frame, StreamInfo, is_not_ready, frame_type_param_set, frame_type_key, frame_type_delta,
  media_video, media_audio, codec_aac,
}
use vrtc.Grabber.Demuxer.{
  Demuxer, Parsers, Adts, Codec, Stream, Packet, Tick, Answer, frame, error, build_streams,
  with_audio, video_streams, base_packet,
}
use vrtc.Grabber.Payload.{Bytes}
use vrtc.Grabber.Demuxer.ParamSets.{video_duration}
use vrtc.Grabber.Demuxer.Audio.{try_audio_from_frame}
use vrtc.Grabber.Demuxer.Read.{
  Outcome, after_param_set, video_packet, announce, as_packet, packet, skipped, parse_failed,
  panicked, Result, returned, Round, read_packet, read_round, read_answer, packet_round,
  finish_audio, finish_adts, finish_sliced, slice_from, audio_packet, get_codecs,
  video_frame_to_packet, audio_frame_to_packet, frame_to_packet,
}
use vrtc.Grabber.Demuxer.Told.{
  Leaves, loop-Leaves, heard, told, video_of, IsAnnounced, IsTold, apply_param_set-IsAnnounced,
  try_audio_from_frame-IsAnnounced,
}
use vrtc.Grabber.Demuxer.First.{IsFirst, get_codecs-IsFirst}

module _ (ss : List Stream) where
  -- What a packet or its absence leaves behind.
  abbrev AfterFrame : Demuxer × Outcome → Type 0
  AfterFrame (d, packet p) =
      IsAnnounced (heard ss p.new_codecs) d
      × (p.key_frame ≡ true → video_of (heard ss p.new_codecs) ≡ d.video_codec)
  AfterFrame (d, skipped) = IsAnnounced ss d
  AfterFrame (d, parse_failed) = IsAnnounced ss d
  AfterFrame (d, panicked) = IsAnnounced ss d

  after_param_set-AfterFrame :
      (r : Demuxer × Bool) → IsAnnounced ss r.0 → AfterFrame (after_param_set r)
  after_param_set-AfterFrame (d, true) h = h
  after_param_set-AfterFrame (d, false) h = h

  heard-with_audio :
      (v audio : Option Codec) (ready dirty : Bool)
      → ((dirty ≡ true) × (c : Codec) × (v ≡ some c)) ⊎ (video_of ss ≡ v)
      → video_of (heard ss (with_audio (video_streams v) ready audio)) ≡ v
  heard-with_audio none audio ready dirty (inl (t, c, e)) = cc
  heard-with_audio none audio ready dirty (inr e) = e
  heard-with_audio (some c) (some a) true dirty h = refl
  heard-with_audio (some c) none true dirty h = refl
  heard-with_audio (some c) audio false dirty h = refl

  heard-build_streams :
      (d : Demuxer) → IsAnnounced ss d → video_of (heard ss (build_streams d)) ≡ d.video_codec
  unfolding build_streams
  heard-build_streams d h =
      heard-with_audio d.video_codec d.audio_codec d.audio_ready d.codec_dirty h

  announce-AfterFrame :
      (r : Demuxer × Packet) → r.1.new_codecs ≡ [] → IsAnnounced ss r.0 → AfterFrame (announce r)
  announce-AfterFrame (d, p) e h =
      if-split AfterFrame d.codec_dirty (λ b. let q = heard-build_streams d h in (inr q, λ _. q))
        (λ b. rw e (h, λ _. elim h [ inl (t, c, q) ↦ cc | inr q ↦ q ]))

  video_packet-fields :
      (d : Demuxer) (f : Frame) (key : Bool)
      → ((video_packet d f key).1.new_codecs ≡ [])
        × (IsAnnounced ss d → IsAnnounced ss (video_packet d f key).0)
  unfolding base_packet video_duration
  video_packet-fields d f key = (refl, λ h. h)

  as_packet-AfterFrame :
      (r : Demuxer × Packet)
      → r.1.new_codecs ≡ []
      → r.1.key_frame ≡ false
      → IsAnnounced ss r.0
      → AfterFrame (as_packet r)
  as_packet-AfterFrame (d, p) e k h = rw e (h, λ t. cc)

  video_frame_to_packet-AfterFrame :
      (sdk : Parsers) (f : Frame) (d : Demuxer)
      → IsAnnounced ss d
      → AfterFrame (video_frame_to_packet sdk f d)
  unfolding video_frame_to_packet
  video_frame_to_packet-AfterFrame sdk f d h =
      let keyed = video_packet-fields d f true in
      let plain = video_packet-fields d f false in
      if-both AfterFrame (f.frame_type == frame_type_param_set)
        (after_param_set-AfterFrame _ (apply_param_set-IsAnnounced ss sdk f d h))
        (if-both AfterFrame (f.frame_type == frame_type_key)
          (announce-AfterFrame (video_packet d f true) keyed.0 (keyed.1 h))
          (if-both AfterFrame (f.frame_type == frame_type_delta)
            (as_packet-AfterFrame (video_packet d f false) plain.0 refl (plain.1 h)) h))

  finish_audio-AfterFrame :
      (d : Demuxer) (f : Frame) (bytes : Bytes)
      → IsAnnounced ss d
      → AfterFrame (finish_audio d f bytes)
  unfolding base_packet
  finish_audio-AfterFrame d f bytes h = (h, λ t. cc)

  finish_adts-AfterFrame :
      (d : Demuxer) (f : Frame) (a : Option Adts)
      → IsAnnounced ss d
      → AfterFrame (finish_adts d f a)
  finish_adts-AfterFrame d f none h = h
  finish_adts-AfterFrame d f (some a) h = sliced (slice_from a.header_len f.payload)
    where
      sliced : (o : Option Bytes) → AfterFrame (finish_sliced d f o)
      sliced none = h
      sliced (some bytes) = finish_audio-AfterFrame d f bytes h

  audio_frame_to_packet-AfterFrame :
      (sdk : Parsers) (o : Option StreamInfo) (f : Frame) (d : Demuxer)
      → IsAnnounced ss d
      → AfterFrame (audio_frame_to_packet sdk o f d)
  unfolding audio_frame_to_packet audio_packet
  audio_frame_to_packet-AfterFrame sdk o f d h =
      let d' = if d.audio_ready then d else try_audio_from_frame sdk o f d in
      let h' : IsAnnounced ss d' =
        if-both (IsAnnounced ss) d.audio_ready h
          (try_audio_from_frame-IsAnnounced ss sdk o f d h) in
      if-both AfterFrame d'.audio_ready
        (if-both AfterFrame (f.codec_type == codec_aac)
          (finish_adts-AfterFrame d' f (sdk.parse_adts f.payload) h')
          (finish_audio-AfterFrame d' f f.payload h'))
        h'

  frame_to_packet-AfterFrame :
      (sdk : Parsers) (o : Option StreamInfo) (f : Frame) (d : Demuxer)
      → IsAnnounced ss d
      → AfterFrame (frame_to_packet sdk o f d)
  unfolding frame_to_packet
  frame_to_packet-AfterFrame sdk o f d h =
      if-both AfterFrame (f.media_type == media_video) (video_frame_to_packet-AfterFrame sdk f d h)
        (if-both AfterFrame (f.media_type == media_audio)
          (audio_frame_to_packet-AfterFrame sdk o f d h) h)

  -- What the end of `ReadPacket` leaves behind.
  abbrev AfterRead : Result Packet → Demuxer → Type 0
  AfterRead r d = IsAnnounced (told ss r) d × IsTold ss r d

  packet_round-Leaves :
      (r : Demuxer × Outcome) → AfterFrame r → Leaves (IsAnnounced ss) AfterRead (packet_round r)
  packet_round-Leaves (d, packet p) h = h
  packet_round-Leaves (d, skipped) h = h
  packet_round-Leaves (d, parse_failed) h = (h, tt)
  packet_round-Leaves (d, panicked) h = (h, tt)

  read_answer-Leaves :
      (sdk : Parsers) (o : Option StreamInfo) (a : Answer) (d : Demuxer)
      → IsAnnounced ss d
      → Leaves (IsAnnounced ss) AfterRead (read_answer sdk o a d)
  read_answer-Leaves sdk o (error e) d h =
      if-both (λ (r : Round Packet). Leaves (IsAnnounced ss) AfterRead (d, r)) (is_not_ready e) h
        (h, tt)
  read_answer-Leaves sdk o (frame f) d h =
      packet_round-Leaves (frame_to_packet sdk o f d) (frame_to_packet-AfterFrame sdk o f d h)

  -- The reader of the packets knows the video codec that the demuxer has, or a packet is due that
  -- tells it: `ReadPacket` keeps this, however it ends. Where it returns a key packet, the reader
  -- knows the video codec from then on.
  pub read_packet-IsAnnounced :
      (sdk : Parsers) (ts : List Tick) (d : Demuxer)
      → IsAnnounced ss d
      → let (d', r) = read_packet sdk ts d in IsAnnounced (told ss r) d' × IsTold ss r d'
  unfolding read_packet read_round
  read_packet-IsAnnounced sdk ts d h =
      loop-Leaves (IsAnnounced ss) AfterRead (read_round sdk)
        (λ t d h.
          if-both (Leaves (IsAnnounced ss) AfterRead) t.cancelled (h, tt)
            (read_answer-Leaves sdk t.info t.answer d h))
        (λ d h. (h, tt)) ts d h

-- The calls of a reader after `GetCodecs`: what the demuxer is then, and the streams it was told.
unfoldable pub read_packets :
    Parsers → List (List Tick) → Demuxer → List Stream → Demuxer × List Stream
read_packets sdk [] d ss = (d, ss)
read_packets sdk (ts ∷ calls) d ss =
    let (d', r) = read_packet sdk ts d in read_packets sdk calls d' (told ss r)

read_packets-IsAnnounced :
    (sdk : Parsers) (calls : List (List Tick)) (d : Demuxer) (ss : List Stream)
    → IsAnnounced ss d
    → let (d', ss') = read_packets sdk calls d ss in IsAnnounced ss' d'
unfolding read_packets
read_packets-IsAnnounced sdk [] d ss h = h
read_packets-IsAnnounced sdk (ts ∷ calls) d ss h =
    let (d', r) = read_packet sdk ts d in
    read_packets-IsAnnounced sdk calls d' (told ss r) (read_packet-IsAnnounced ss sdk ts d h).0

-- A reader that got its streams from `GetCodecs` and then calls `ReadPacket` any number of times
-- knows the video codec at every key packet: where one more call returns a key packet, the codec it
-- was told last, by that packet or before it, is the one the demuxer has.
pub get_codecs-read_packets :
    (sdk : Parsers) (start next : List Tick) (calls : List (List Tick)) (d : Demuxer)
    (ss : List Stream) (p : Packet)
    → (get_codecs sdk start d).1 ≡ returned ss
    → let (d', ss') = read_packets sdk calls (get_codecs sdk start d).0 ss in
      let (d'', r) = read_packet sdk next d' in
      r ≡ returned p → p.key_frame ≡ true → video_of (heard ss' p.new_codecs) ≡ d''.video_codec
get_codecs-read_packets sdk start next calls d ss p e got key =
    let first =
      subst (λ r. IsFirst r (get_codecs sdk start d).0) e (get_codecs-IsFirst sdk start d) in
    let (c, known, told_first) = first in
    let (d', ss') = read_packets sdk calls (get_codecs sdk start d).0 ss in
    let (d'', r) = read_packet sdk next d' in
    let h =
      read_packets-IsAnnounced sdk calls (get_codecs sdk start d).0 ss
        (inr (told_first ∙ sym known)) in
    subst (λ r. IsTold ss' r d'') got (read_packet-IsAnnounced ss' sdk next d' h).1 key
