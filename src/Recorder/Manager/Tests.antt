-- ===== src/Recorder/Manager/Tests.antt =====
-- The recording manager at concrete inputs.
use vrtc.Base.Assoc.{get, remove}
use vrtc.Base.{
  if-both, ◌+◌, ◌-◌, ◌*◌, ◌≡◌, refl, sym, true, false, not, none, some, List, [], ◌∷◌, ◌++◌, map,
  String, String-cases, str_eq, join, inl, inr, ◌⊎◌, In, All, arith, length, select,
}
use vrtc.Base.Int.{pos, mul64}
use vrtc.Clock.{day, minute, whole_bytes, sub_time}
use vrtc.Recorder.Table.{row_of, has_id}
use vrtc.Recorder.Retention.{
  evaluate_retention, apply_time_tiers, apply_storage_cap, apply_disk_free_cap, marked, tier_cutoff,
}
use vrtc.Recorder.Index.{contains, query_by_channel, delete, delete_in, ok}
use vrtc.Recorder.Index.Query.{rows_of}
use vrtc.Recorder.Index.Lifecycle.{OnlyIn}
use vrtc.Recorder.Sweep.{seal_interrupted, seal_from, seal_channel}
use vrtc.Recorder.Tests.{early, late, fine, empty, filled, machinery}
use vrtc.Recorder.Manager.{
  Schedule, ActiveRec, attach, close_handle, remove_file, Manager, attached, SegmentCloseInfo,
  World, new_manager,
}
use vrtc.Recorder.Manager.Segment.{
  entry_id, closed_entry, on_close, open_muxer, get_or_create_ring_buffer, register_active_segment,
  start_segment, close_rec, rotate_segment,
}
use vrtc.Recorder.Manager.Retain.{
  delete_segment, delete_segments, batch_of, enforce_retention, has_retention_policy,
}
use vrtc.Recorder.Manager.Retain.Removal.{paths_of}
use vrtc.Recorder.Manager.Retain.Batch.{due_of, enforce_retention-condemned, delete_segment-gone}
use vrtc.Recorder.Manager.Segment.Marker.{on_close-replaces_marker}
use vrtc.Recorder.Manager.Tick.{
  default_schedule, append_each, append_defaults, is_below_min, process_at, process_schedule,
  process_all, advance, take_turn, take_turns, wait_all, stale_of, fresh_of, close_recs, stop_stale,
  enforce_all, tick, start, run, stop_all, active_channels, active_schedules,
}
use vrtc.Recorder.Manager.Metrics
use vrtc.Recorder.Manager.Stats.{ChannelStats}
use vrtc.Recorder.Manager.Tick.Active.{tick-active}
use vrtc.Recorder.Manager.Owned.Turns.{AreApart}
use vrtc.Recorder.Manager.Owned.Runs.{HasApart, life, life-closes_all}
use vrtc.Recorder.Manager.Tick.Rotation.{IsNew, IsYoung, IsSmall, process_schedule-rotates}

-- A schedule of a camera that keeps a week, and one with a minimum of free space.
abbrev weekly : Schedule
weekly = record (default_schedule "rec" "cam-1") { id = "weekly"; continuous_days = pos 7 }

abbrev guarded : Schedule
guarded = record weekly { min_free_gb = record { mantissa = 1; shift = 0 } }

-- A world with two cameras, of which one has a schedule, and a disk with five free bytes.
abbrev world : World
world = record {
  now = 41 * day;
  db = fine;
  list_schedules = some (weekly ∷ []);
  list_channels = some ("cam-1" ∷ "cam-2" ∷ []);
  is_active = λ s t. true;
  turns = 1 ∷ 0 ∷ 0 ∷ [];
  disk_free = λ calls path. some (pos 5);
  consume = λ calls ch. attached (length calls) none;
  bytes_written = λ mux. pos 0;
  rename_succeeds = λ a b. true;
  segment_path = λ base ch t. join base ch;
  segment_path_final = λ base ch t u. join base ch;
  stamp_ms = λ ms. "t";
}

abbrev manager : Manager
manager = record {
  poll_interval = pos 30;
  has_channels = true;
  default_storage_path = "rec";
  active = [];
  ring_buffers = [];
  failed_start = [];
  last_retention = 0;
  index = filled;
  calls = [];
}

-- Unfolds what a tick computes with.
abbrev ticking : Unit {0}
unfolding machinery tick append_defaults append_each process_all take_turns take_turn advance
    wait_all process_schedule process_at start_segment get_or_create_ring_buffer
    register_active_segment stop_stale stale_of fresh_of close_recs close_rec enforce_all
    has_retention_policy enforce_retention delete_segments delete_segment delete delete_in batch_of
    evaluate_retention apply_time_tiers apply_storage_cap apply_disk_free_cap marked tier_cutoff run
    stop_all start new_manager seal_interrupted seal_from seal_channel life rotate_segment remove
    mul64 sub_time
ticking = tt

ticked :
    get "default-cam-2" (tick world manager).active
    ≡ some (record {
      sched = default_schedule "rec" "cam-2";
      handle = 1;
      muxer = none;
      start_time = 41 * day;
    })
unfolding ticking has_id
ticked = refl

tick-active_example :
    (s : Schedule) × In s (append_defaults world manager (weekly ∷ []))
    × (true ≡ true)
    × (s.id ≡ "default-cam-2")
tick-active_example = tick-active world manager (weekly ∷ []) "default-cam-2" _ refl ticked

life_attached : In (attach "cam-2" 1) (life world (world ∷ []) (pos 0) true "rec" empty).calls
unfolding ticking
life_attached = inr (inr (inl refl))

apart : HasApart world
unfolding append_defaults append_each contains
apart m =
    if-both (λ ss. AreApart (active_schedules world ss)) (not m.has_channels) (tt, tt)
      (((λ e. cc), tt), (tt, tt))

life-closes_all_example :
    In (close_handle 1) (life world (world ∷ []) (pos 0) true "rec" empty).calls
life-closes_all_example =
    life-closes_all world (world ∷ []) (pos 0) true "rec" empty "cam-2" 1 (apart, tt) life_attached

-- Two schedules of one id, whose goroutines both look before either acts: the first handle is lost.
abbrev twins : World
twins = record world {
  list_schedules = some (weekly ∷ weekly ∷ []);
  list_channels = none;
  turns = 0 ∷ 1 ∷ 0 ∷ 1 ∷ [];
}

twins_leak :
    (life twins (twins ∷ []) (pos 0) true "rec" empty).calls
    ≡ close_handle 1 ∷ attach "cam-1" 1 ∷ attach "cam-1" 0 ∷ []
unfolding ticking
twins_leak = refl

-- A recording of the schedule that started six minutes ago, after its limit of five.
abbrev old : ActiveRec
old = record { sched = weekly; handle = 7; muxer = none; start_time = 41 * day - 6 * minute }

abbrev overdue : Manager
overdue = record manager { active = ("weekly", old) ∷ [] }

rotated :
    get "weekly" (process_schedule world weekly (41 * day) overdue).active
    ≡ some (record { sched = weekly; handle = 1; muxer = none; start_time = 41 * day })
unfolding ticking
rotated = refl

process_schedule-rotates_example :
    IsNew weekly
      (41 * day)
      (record { sched = weekly; handle = 1; muxer = none; start_time = 41 * day })
    ⊎ (get "weekly" overdue.active
        ≡ some (record { sched = weekly; handle = 1; muxer = none; start_time = 41 * day }))
      × IsYoung (pos 5) (41 * day) (41 * day)
      × IsSmall (pos 0) none world.bytes_written
process_schedule-rotates_example =
    process_schedule-rotates world weekly (41 * day) overdue _ (omega arith) (omega arith) rotated

guarded_below : is_below_min guarded (some (pos 5)) ≡ true
unfolding whole_bytes
guarded_below = refl

weekly_query : (query_by_channel fine "cam-1" 0 0 filled).1 ≡ ok (early ∷ late ∷ [])
unfolding machinery
weekly_query = refl

enforce_retention-condemned_example :
    (paths : List String) × ((enforce_retention world weekly (41 * day) manager).calls
      ≡ map remove_file paths ++ [])
    × ((enforce_retention world weekly (41 * day) manager).active ≡ [])
    × All (λ p. In p (paths_of (due_of world weekly (41 * day) (early ∷ late ∷ []) manager))) paths
enforce_retention-condemned_example =
    enforce_retention-condemned world weekly (41 * day) (early ∷ late ∷ []) manager weekly_query

OnlyIn-cam : OnlyIn "early" "cam-1" filled
unfolding machinery
OnlyIn-cam j c n = elim (String-cases "cam-1" j) [
  | inl (s, q) ↦ absurd (n (sym q))
  | inr (s, q) ↦ ground (arith, c, s)
]

filled_is_open : contains "cam-1" filled.dbs ≡ true
unfolding machinery
filled_is_open = refl

delete_segment-gone_example :
    ((delete_segment world early manager).calls ≡ remove_file "a.fmp4" ∷ [])
    × ((query_by_channel fine "cam-1" 0 0 (delete_segment world early manager).index).1
        ≡ ok (late ∷ []))
delete_segment-gone_example =
    delete_segment-gone world early 0 0 manager (early ∷ late ∷ []) (λ j. refl) filled_is_open
      OnlyIn-cam weekly_query

abbrev info : SegmentCloseInfo
info = record {
  start = 41 * day;
  end = 41 * day + 5 * minute;
  path = "tmp";
  size_bytes = pos 9;
  has_motion = true;
  has_objects = false;
  is_valid = true;
}

on_close-replaces_marker_example :
    rows_of "cam-1"
      (on_close world weekly info (open_muxer world weekly (41 * day + 3) manager)).index
    ≡ select
        (λ r. not (str_eq r.id (entry_id world weekly (41 * day + 3))))
        (rows_of "cam-1" filled)
      ++ row_of (closed_entry world weekly info) ∷ []
on_close-replaces_marker_example =
    on_close-replaces_marker world weekly (41 * day + 3) info manager refl refl

abbrev metrics_world : Metrics.World
metrics_world = record {
  db = fine;
  disk_space = λ path. some (pos 50, pos 100);
  size_bytes = λ ch. pos 7;
}

metrics-sum_segments_example :
    let n = (Metrics.metrics metrics_world manager).1 in
    (Metrics.sum_segments n.per_channel ≡ n.total_segments)
    × All
        (λ (x : String × ChannelStats).
          (x.1.is_recording ≡ active_channels manager x.0)
          × (x.1.ring_buf_bytes ≡ Metrics.ring_buf_sizes metrics_world manager x.0))
        n.per_channel
metrics-sum_segments_example = Metrics.metrics-sum_segments metrics_world manager
