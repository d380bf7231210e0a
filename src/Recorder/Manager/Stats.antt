-- ===== src/Recorder/Manager/Stats.antt =====
-- pkg/recorder/recorder.go and metrics.go: the statistics of the channels.
pub mod Totals
use vrtc.Base.Assoc.{get, put}
use vrtc.Base.{
  ℕ, ◌+◌, Bool, true, false, ◌||◌, Option, none, some, List, [], ◌∷◌, String, if◌then◌else◌, length,
}
use vrtc.Base.Int.{ℤ, pos, add64}
use vrtc.Clock.{Time, zero_time, is_zero, before, after}
use vrtc.Recorder.Entry.{RecordingEntry}
use vrtc.Recorder.Index.{Index, Result, ok, err}
use vrtc.Recorder.Manager.{Manager, World}
use vrtc.Recorder.Manager.Tick.{active_count, active_channels}

pub record ChannelStats : Type 0 where
  pub segments : ℕ
  pub total_bytes : ℤ
  pub oldest_segment : Time
  pub newest_segment : Time
  pub is_recording : Bool
  pub ring_buf_bytes : ℤ

abbrev pub no_stats : ChannelStats
no_stats = record {
  segments = 0;
  total_bytes = pos 0;
  oldest_segment = zero_time;
  newest_segment = zero_time;
  is_recording = false;
  ring_buf_bytes = pos 0;
}

-- A missing key reads as the zero value.
abbrev pub stats_or_zero : Option ChannelStats → ChannelStats
stats_or_zero none = no_stats
stats_or_zero (some cs) = cs

unfoldable pub add_entry :
    (String → Bool) → (String → ℤ) → RecordingEntry → ChannelStats → ChannelStats
add_entry active sizes e cs = record {
  segments = cs.segments + 1;
  total_bytes = add64 cs.total_bytes e.size_bytes;
  oldest_segment =
      if is_zero cs.oldest_segment || before e.start_time cs.oldest_segment
      then e.start_time
      else cs.oldest_segment;
  newest_segment = if after e.start_time cs.newest_segment then e.start_time else cs.newest_segment;
  is_recording = active e.channel_id;
  ring_buf_bytes = sizes e.channel_id;
}

-- The loop of `buildPerChannelStats`, from the statistics and the total so far.
unfoldable pub stats_from :
    (String → Bool)
    → (String → ℤ)
    → List RecordingEntry
    → List (String × ChannelStats)
    → ℤ
    → List (String × ChannelStats) × ℤ
stats_from active sizes [] stats total = (stats, total)
stats_from active sizes (e ∷ es) stats total =
    let cs = add_entry active sizes e (stats_or_zero (get e.channel_id stats)) in
    stats_from active sizes es (put e.channel_id cs stats) (add64 total e.size_bytes)

unfoldable pub build_per_channel_stats :
    List RecordingEntry → (String → Bool) → (String → ℤ) → List (String × ChannelStats) × ℤ
build_per_channel_stats es active sizes = stats_from active sizes es [] (pos 0)
