-- ===== src/Grabber/Demuxer/ParamSets.antt =====
-- internal/avgrabber/demuxer.go: parameter sets, and the durations of video packets.
use vrtc.Base.{◌/◌, ◌%◌, Bool, true, false, Option, none, some, List, [], ◌∷◌, ◌==◌, if◌then◌else◌}
use vrtc.Base.Int.{ℤ, sub64, positive}
use vrtc.Grabber.Payload.{Bytes, split_annex_b, codec_h264, codec_h265}
use vrtc.Grabber.Frame.{Frame}
use vrtc.Grabber.Demuxer.{Demuxer, Parsers, Codec, avc, hevc, VideoInfo}

-- The local variables of the loops over the units; `vps` stays none for H.264.
pub record ParamSets : Type 0 where
  pub vps : Option Bytes
  pub sps : Option Bytes
  pub pps : Option Bytes

abbrev pub no_sets : ParamSets
no_sets = record { vps = none; sps = none; pps = none }

abbrev pub note_h264 : ParamSets → Bytes → ParamSets
note_h264 s [] = s
note_h264 s (b ∷ bs) =
    if b % 32 == 7
    then record s { sps = some (b ∷ bs) }
    else if b % 32 == 8
    then record s { pps = some (b ∷ bs) }
    else s

abbrev pub note_h265 : ParamSets → Bytes → ParamSets
note_h265 s [] = s
note_h265 s (b ∷ bs) =
    if b % 128 / 2 == 32
    then record s { vps = some (b ∷ bs) }
    else if b % 128 / 2 == 33
    then record s { sps = some (b ∷ bs) }
    else if b % 128 / 2 == 34
    then record s { pps = some (b ∷ bs) }
    else s

unfoldable pub note_units : (ParamSets → Bytes → ParamSets) → ParamSets → List Bytes → ParamSets
note_units note s [] = s
note_units note s (u ∷ us) = note_units note (note s u) us

-- `pending…` is written and never read in the source, and left out.
abbrev pub set_codec : Codec → VideoInfo → Demuxer → Demuxer
set_codec c i d = record d {
  video_codec = some c;
  video_clk = i.time_scale;
  nominal_video_dur = i.packet_duration;
  codec_dirty = true;
}

-- The state after, and whether the parser of the SDK failed.
abbrev pub take_codec : Codec → Option VideoInfo → Demuxer → Demuxer × Bool
take_codec c none d = (d, true)
take_codec c (some i) d = (set_codec c i d, false)

abbrev pub apply_h264_sets : Parsers → Option Bytes → Option Bytes → Demuxer → Demuxer × Bool
apply_h264_sets sdk none pps d = (d, false)
apply_h264_sets sdk (some s) none d = (d, false)
apply_h264_sets sdk (some s) (some p) d = take_codec (avc s p) (sdk.parse_h264 s p) d

unfoldable pub apply_h264_param_set : Parsers → Bytes → Demuxer → Demuxer × Bool
apply_h264_param_set sdk bytes d =
    let sets = note_units note_h264 no_sets (split_annex_b bytes) in
    apply_h264_sets sdk sets.sps sets.pps d

abbrev pub apply_h265_sets :
    Parsers → Option Bytes → Option Bytes → Option Bytes → Demuxer → Demuxer × Bool
apply_h265_sets sdk none sps pps d = (d, false)
apply_h265_sets sdk (some v) none pps d = (d, false)
apply_h265_sets sdk (some v) (some s) none d = (d, false)
apply_h265_sets sdk (some v) (some s) (some p) d = take_codec (hevc v s p) (sdk.parse_h265 v s p) d

unfoldable pub apply_h265_param_set : Parsers → Bytes → Demuxer → Demuxer × Bool
apply_h265_param_set sdk bytes d =
    let sets = note_units note_h265 no_sets (split_annex_b bytes) in
    apply_h265_sets sdk sets.vps sets.sps sets.pps d

unfoldable pub apply_param_set : Parsers → Frame → Demuxer → Demuxer × Bool
apply_param_set sdk f d =
    if f.codec_type == codec_h264
    then apply_h264_param_set sdk f.payload d
    else if f.codec_type == codec_h265
    then apply_h265_param_set sdk f.payload d
    else (d, false)

-- `videoDuration`: the state after, and the duration.
abbrev pub duration_after : Bool → ℤ → Demuxer → ℤ
duration_after true dts d =
    let delta = sub64 dts d.last_video_dts in if positive delta then delta else d.nominal_video_dur
duration_after false dts d = d.nominal_video_dur

unfoldable pub video_duration : ℤ → Demuxer → Demuxer × ℤ
video_duration dts d = (
  record d { last_video_dts = dts; has_last_video_dts = true },
  duration_after d.has_last_video_dts dts d,
)
