-- ===== src/Grabber/Demuxer/Told.antt =====
-- internal/avgrabber/demuxer.go: what the reader of the packets has been told of the streams.
use vrtc.Base.{
  ℕ, ◌≡◌, refl, ◌⊎◌, inl, Bool, true, if-both, ◌==◌, Option, none, some, List, [], ◌∷◌, arith,
}
use vrtc.Grabber.Frame.{Frame, StreamInfo}
use vrtc.Grabber.Demuxer.{Demuxer, Parsers, Adts, Codec, VideoInfo, Stream, Packet, Tick}
use vrtc.Grabber.Payload.{Bytes, codec_h264, codec_h265}
use vrtc.Grabber.Demuxer.ParamSets.{
  apply_param_set, apply_h264_param_set, apply_h265_param_set, apply_h264_sets, apply_h265_sets,
  take_codec,
}
use vrtc.Grabber.Demuxer.Audio.{
  try_audio_from_frame, try_audio_from_stream_info, set_info_codec, try_adts,
}
use vrtc.Grabber.Demuxer.Read.{
  Result, returned, grab_failed, cancelled, bad_param_set, crashed, waiting, Round, again, ends,
  loop, or_rest,
}

-- What a step has to leave behind: `P` if the loop goes on, and `Q` of the result if it ends.
abbrev pub Leaves :
    {A : Type 0} → (Demuxer → Type 0) → (Result A → Demuxer → Type 0) → Demuxer × Round A → Type 0
Leaves P Q (d, again) = P d
Leaves P Q (d, ends r) = Q r d

-- The rule for the loops: what holds between rounds, and what holds at the end.
pub loop-Leaves :
    {A : Type 0} (P : Demuxer → Type 0) (Q : Result A → Demuxer → Type 0)
    (body : Tick → Demuxer → Demuxer × Round A)
    → ((t : Tick) (d : Demuxer) → P d → Leaves P Q (body t d))
    → ((d : Demuxer) → P d → Q waiting d)
    → (ts : List Tick) (d : Demuxer) → P d
    → Q (loop body ts d).1 (loop body ts d).0
unfolding loop
loop-Leaves P Q body keep stop [] d h = stop d h
loop-Leaves P Q body keep stop (t ∷ ts) d h =
    loop_on (body t d) (loop body ts (body t d).0) (keep t d h)
      (loop-Leaves P Q body keep stop ts (body t d).0)
  where
    loop_on :
        (r : Demuxer × Round _) (rest : Demuxer × Result _)
        → Leaves P Q r
        → (P r.0 → Q rest.1 rest.0)
        → Q (or_rest rest r).1 (or_rest rest r).0
    loop_on (d, again) rest l k = k l
    loop_on (d, ends r) rest l k = l

-- The streams that the reader knows after a result, if it knew `ss`.
abbrev pub heard : List Stream → List Stream → List Stream
heard ss [] = ss
heard ss (x ∷ xs) = x ∷ xs

abbrev pub told : List Stream → Result Packet → List Stream
told ss (returned p) = heard ss p.new_codecs
told ss (grab_failed e) = ss
told ss cancelled = ss
told ss bad_param_set = ss
told ss crashed = ss
told ss waiting = ss

abbrev pub video_of : List Stream → Option Codec
video_of [] = none
video_of (s ∷ ss) = some s.codec

-- The reader knows the video codec, or a packet is due that tells it.
abbrev pub IsAnnounced : List Stream → Demuxer → Type 0
IsAnnounced ss d =
    ((d.codec_dirty ≡ true) × (c : Codec) × (d.video_codec ≡ some c))
    ⊎ (video_of ss ≡ d.video_codec)

-- After a key packet nothing is due.
abbrev pub IsTold : List Stream → Result Packet → Demuxer → Type 0
IsTold ss (returned p) d = p.key_frame ≡ true → video_of (heard ss p.new_codecs) ≡ d.video_codec
IsTold ss (grab_failed e) d = Unit
IsTold ss cancelled d = Unit
IsTold ss bad_param_set d = Unit
IsTold ss crashed d = Unit
IsTold ss waiting d = Unit

module _ (ss : List Stream) where
  pub take_codec-IsAnnounced :
      (c : Codec) (o : Option VideoInfo) (d : Demuxer)
      → IsAnnounced ss d
      → IsAnnounced ss (take_codec c o d).0
  take_codec-IsAnnounced c none d h = h
  take_codec-IsAnnounced c (some i) d h = inl (refl, c, refl)

  pub apply_h264_sets-IsAnnounced :
      (sdk : Parsers) (sps pps : Option Bytes) (d : Demuxer)
      → IsAnnounced ss d
      → IsAnnounced ss (apply_h264_sets sdk sps pps d).0
  apply_h264_sets-IsAnnounced sdk none pps d h = h
  apply_h264_sets-IsAnnounced sdk (some s) none d h = h
  apply_h264_sets-IsAnnounced sdk (some s) (some p) d h = take_codec-IsAnnounced _ _ d h

  pub apply_h265_sets-IsAnnounced :
      (sdk : Parsers) (vps sps pps : Option Bytes) (d : Demuxer)
      → IsAnnounced ss d
      → IsAnnounced ss (apply_h265_sets sdk vps sps pps d).0
  apply_h265_sets-IsAnnounced sdk none sps pps d h = h
  apply_h265_sets-IsAnnounced sdk (some v) none pps d h = h
  apply_h265_sets-IsAnnounced sdk (some v) (some s) none d h = h
  apply_h265_sets-IsAnnounced sdk (some v) (some s) (some p) d h = take_codec-IsAnnounced _ _ d h

  pub apply_param_set-IsAnnounced :
      (sdk : Parsers) (f : Frame) (d : Demuxer)
      → IsAnnounced ss d
      → IsAnnounced ss (apply_param_set sdk f d).0
  unfolding apply_param_set apply_h264_param_set apply_h265_param_set
  apply_param_set-IsAnnounced sdk f d h =
      if-both (λ (r : Demuxer × Bool). IsAnnounced ss r.0) (f.codec_type == codec_h264)
        (apply_h264_sets-IsAnnounced sdk _ _ d h)
        (if-both (λ (r : Demuxer × Bool). IsAnnounced ss r.0) (f.codec_type == codec_h265)
          (apply_h265_sets-IsAnnounced sdk _ _ _ d h) h)

  pub set_info_codec-IsAnnounced :
      (rate : ℕ) (o : Option Codec) (d : Demuxer)
      → IsAnnounced ss d
      → IsAnnounced ss (set_info_codec rate o d)
  set_info_codec-IsAnnounced rate none d h = h
  set_info_codec-IsAnnounced rate (some c) d h = h

  pub try_audio_from_stream_info-IsAnnounced :
      (o : Option StreamInfo) (d : Demuxer)
      → IsAnnounced ss d
      → IsAnnounced ss (try_audio_from_stream_info o d)
  unfolding try_audio_from_stream_info
  try_audio_from_stream_info-IsAnnounced none d h = h
  try_audio_from_stream_info-IsAnnounced (some i) d h =
      if-both (IsAnnounced ss) (i.audio_sample_rate == 0) h (set_info_codec-IsAnnounced _ _ d h)

  -- An audio codec that is learnt leaves the video codec and what is due alone.
  try_adts-same :
      (sdk : Parsers) (a : Option Adts) (d : Demuxer)
      → ((try_adts sdk a d).video_codec ≡ d.video_codec)
        × ((try_adts sdk a d).codec_dirty ≡ d.codec_dirty)
  try_adts-same sdk none d = (refl, refl)
  try_adts-same sdk (some a) d = ground arith

  try_audio_from_frame-same :
      (sdk : Parsers) (o : Option StreamInfo) (f : Frame) (d : Demuxer)
      → ((try_audio_from_frame sdk o f d).video_codec ≡ d.video_codec)
        × ((try_audio_from_frame sdk o f d).codec_dirty ≡ d.codec_dirty)
  unfolding try_audio_from_frame
  try_audio_from_frame-same sdk o f d =
      ground (arith, try_adts-same sdk (sdk.parse_adts f.payload) d)

  pub try_audio_from_frame-IsAnnounced :
      (sdk : Parsers) (o : Option StreamInfo) (f : Frame) (d : Demuxer)
      → IsAnnounced ss d
      → IsAnnounced ss (try_audio_from_frame sdk o f d)
  try_audio_from_frame-IsAnnounced sdk o f d h =
      let (video, due) = try_audio_from_frame-same sdk o f d in rw (video, due) h
