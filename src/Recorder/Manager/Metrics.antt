-- ===== src/Recorder/Manager/Metrics.antt =====
-- pkg/recorder/recorder.go and metrics.go: the snapshot that `Metrics` takes.
use vrtc.Base.Assoc.{get, put}
use vrtc.Base.{
  ℕ, ◌+◌, ◌≡◌, refl, sym, subst, ◌∙◌, Bool, Option, none, some, List, [], ◌∷◌, String, str_eq,
  str_eq→eq, if-split, All, length, arith,
}
use vrtc.Base.Int.{ℤ, pos}
use vrtc.Clock.{Time, zero_time}
use vrtc.Recorder.Entry.{RecordingEntry}
use vrtc.Recorder.Index.{Index, Env, Result, ok, err}
use vrtc.Recorder.Sweep.{query_all_channels}
use vrtc.Recorder.Manager.{ActiveRec, Manager}
use vrtc.Recorder.Manager.Tick.{active_count, active_channels}
use vrtc.Recorder.Manager.Stats.{
  ChannelStats, stats_or_zero, add_entry, stats_from, build_per_channel_stats,
}

pub record Metrics : Type 0 where
  pub active_segments : ℕ
  pub total_segments : ℕ
  pub total_size_bytes : ℤ
  pub disk_free_bytes : ℤ
  pub disk_total_bytes : ℤ
  pub per_channel : List (String × ChannelStats)
  pub last_retention : Time

-- What the disk and the ring buffers answer.
pub record World : Type 0 where
  pub db : Env
  pub disk_space : String → Option (ℤ × ℤ)
  pub size_bytes : String → ℤ

-- A failed query answers no entries.
abbrev pub entries_or_none : Result (List RecordingEntry) → List RecordingEntry
entries_or_none (err x) = []
entries_or_none (ok es) = es

-- A failed reading answers two zeros.
abbrev pub space_or_zero : Option (ℤ × ℤ) → ℤ × ℤ
space_or_zero none = (pos 0, pos 0)
space_or_zero (some space) = space

-- The disk of one active recording, which is the first of the list here.
abbrev pub disk_of : World → List (String × ActiveRec) → ℤ × ℤ
disk_of w [] = (pos 0, pos 0)
disk_of w ((k, a) ∷ others) = space_or_zero (w.disk_space a.sched.storage_path)

-- The sizes of the ring buffers; a channel without one reads as 0.
abbrev pub size_or_zero : World → String → Option ℤ → ℤ
size_or_zero w ch none = pos 0
size_or_zero w ch (some length) = w.size_bytes ch

abbrev pub ring_buf_sizes : World → Manager → String → ℤ
ring_buf_sizes w m ch = size_or_zero w ch (get ch m.ring_buffers)

abbrev pub snapshot : World → Manager → Index × Result (List RecordingEntry) → Manager × Metrics
snapshot w m (idx, answer) =
    let es = entries_or_none answer in
    let stats = build_per_channel_stats es (active_channels m) (ring_buf_sizes w m) in
    let disk = disk_of w m.active in
    (
      record m { index = idx },
      record {
        active_segments = active_count m;
        total_segments = length es;
        total_size_bytes = stats.1;
        disk_free_bytes = disk.0;
        disk_total_bytes = disk.1;
        per_channel = stats.0;
        last_retention = m.last_retention;
      },
    )

-- Nothing else happens to the manager during the call.
unfoldable pub metrics : World → Manager → Manager × Metrics
metrics w m = snapshot w m (query_all_channels w.db zero_time zero_time m.index)

-- The segments of all channels.
abbrev pub sum_segments : List (String × ChannelStats) → ℕ
sum_segments [] = 0
sum_segments ((ch, cs) ∷ stats) = cs.segments + sum_segments stats

sum_segments-put :
    (ch : String) (cs : ChannelStats) (stats : List (String × ChannelStats))
    → sum_segments (put ch cs stats) + (stats_or_zero (get ch stats)).segments
      ≡ sum_segments stats + cs.segments
unfolding get put
sum_segments-put ch cs [] = omega arith
sum_segments-put ch cs ((k, c) ∷ stats) = ground (arith, sum_segments-put ch cs stats)

stats_from-sum_segments :
    (active : String → Bool) (sizes : String → ℤ) (es : List RecordingEntry)
    (stats : List (String × ChannelStats)) (total : ℤ)
    → sum_segments (stats_from active sizes es stats total).0 ≡ sum_segments stats + length es
unfolding stats_from add_entry
stats_from-sum_segments active sizes [] stats total = omega arith
stats_from-sum_segments active sizes (e ∷ es) stats total =
    let cs = add_entry active sizes e (stats_or_zero (get e.channel_id stats)) in
    omega (
      arith,
      stats_from-sum_segments active sizes es (put e.channel_id cs stats) _,
      sum_segments-put e.channel_id cs stats,
    )

-- What `put` leaves has a property that the new pair and the old ones have.
put-All :
    (P : String × ChannelStats → Type 0) (k : String) (cs : ChannelStats)
    (stats : List (String × ChannelStats))
    → P (k, cs)
    → All P stats
    → All P (put k cs stats)
unfolding put
put-All P k cs [] p ps = (p, tt)
put-All P k cs ((j, c) ∷ stats) p (q, qs) =
    if-split (All P) (str_eq j k) (λ e. (subst (λ i. P (i, cs)) (sym (str_eq→eq j k e)) p, qs))
      (λ e. (q, put-All P k cs stats p qs))

-- Whether the pair says what the manager knows of the channel.
abbrev IsCurrent : (String → Bool) → (String → ℤ) → String × ChannelStats → Type 0
IsCurrent active sizes x = (x.1.is_recording ≡ active x.0) × (x.1.ring_buf_bytes ≡ sizes x.0)

stats_from-IsCurrent :
    (active : String → Bool) (sizes : String → ℤ) (es : List RecordingEntry)
    (stats : List (String × ChannelStats)) (total : ℤ)
    → All (IsCurrent active sizes) stats
    → All (IsCurrent active sizes) (stats_from active sizes es stats total).0
unfolding stats_from add_entry
stats_from-IsCurrent active sizes [] stats total h = h
stats_from-IsCurrent active sizes (e ∷ es) stats total h =
    let cs = add_entry active sizes e (stats_or_zero (get e.channel_id stats)) in
    stats_from-IsCurrent active sizes es (put e.channel_id cs stats) _
      (put-All (IsCurrent active sizes) e.channel_id cs stats (refl, refl) h)

snapshot-sum_segments :
    (w : World) (m : Manager) (answer : Index × Result (List RecordingEntry))
    → let n = (snapshot w m answer).1 in
      (sum_segments n.per_channel ≡ n.total_segments)
      × All (IsCurrent (active_channels m) (ring_buf_sizes w m)) n.per_channel
unfolding build_per_channel_stats
snapshot-sum_segments w m (idx, answer) =
    let es = entries_or_none answer in
    (
      stats_from-sum_segments (active_channels m) (ring_buf_sizes w m) es [] (pos 0) ∙ omega arith,
      stats_from-IsCurrent (active_channels m) (ring_buf_sizes w m) es [] (pos 0) tt,
    )

-- In a snapshot the segments of the channels add up to the number of all segments, whether or not the
-- index answers, and each channel that it lists is shown as recording exactly where an active
-- recording is of that channel, with the size of its ring buffer.
pub metrics-sum_segments :
    (w : World) (m : Manager)
    → let n = (metrics w m).1 in
      (sum_segments n.per_channel ≡ n.total_segments)
      × All
          (λ (x : String × ChannelStats).
            (x.1.is_recording ≡ active_channels m x.0)
            × (x.1.ring_buf_bytes ≡ ring_buf_sizes w m x.0))
          n.per_channel
unfolding metrics
metrics-sum_segments w m =
    snapshot-sum_segments w m (query_all_channels w.db zero_time zero_time m.index)
