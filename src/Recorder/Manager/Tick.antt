-- ===== src/Recorder/Manager/Tick.antt =====
-- pkg/recorder/recorder.go: a tick of the poll loop, and the stop.
--
-- A tick processes the active schedules in goroutines of their own, which share the map of active
-- recordings. A goroutine has two steps: up to its look at the map, and what it does then by what it
-- saw. `World.turns` says which goroutine takes the next step, by its place in the list; the wait group
-- sees to it that every goroutine comes to its end.
pub mod Defaults
pub mod Active
pub mod Rotation
use vrtc.Base.Assoc.{get}
use vrtc.Base.{
  ℕ, zero, suc, Bool, true, false, not, ◌&&◌, ◌||◌, Option, none, some, List, [], ◌∷◌, ◌++◌, map,
  String, join, str_eq, if◌then◌else◌, select, length,
}
use vrtc.Base.Int.{ℤ, pos, leb_ℤ, ltb_ℤ, positive, mul64}
use vrtc.Clock.{Time, Gigabytes, minute, sub_time, gt_zero, to_bytes}
use vrtc.Recorder.Index.{contains}
use vrtc.Recorder.Sweep.{seal_interrupted}
use vrtc.Recorder.Manager.{Schedule, ActiveRec, Manager, World}
use vrtc.Recorder.Manager.Segment.{start_segment, close_rec, rotate_segment}
use vrtc.Recorder.Manager.Retain.{has_retention_policy, enforce_retention, check_disk_space}

abbrev pub default_segment_minutes : ℕ
default_segment_minutes = 5

abbrev pub no_size : Gigabytes
no_size = record { mantissa = 0; shift = 0 }

abbrev pub default_schedule : String → String → Schedule
default_schedule path ch = record {
  id = join "default-" ch;
  channel_id = ch;
  storage_path = path;
  segment_minutes = pos default_segment_minutes;
  segment_size_mb = pos 0;
  ring_buffer_seconds = pos 0;
  max_age_days = pos 0;
  continuous_days = pos 0;
  motion_days = pos 0;
  object_days = pos 0;
  max_storage_gb = no_size;
  min_free_gb = no_size;
  low_free_gb = no_size;
}

-- The loop over the channels. What is covered is decided before it.
unfoldable pub append_each : String → List String → List String → List Schedule → List Schedule
append_each path covered [] ss = ss
append_each path covered (ch ∷ chs) ss =
    let skip = append_each path covered chs ss in
    let added = append_each path covered chs (ss ++ default_schedule path ch ∷ []) in
    if contains ch covered then skip else added

abbrev pub append_listed : Manager → Option (List String) → List Schedule → List Schedule
append_listed m none ss = ss
append_listed m (some chs) ss =
    append_each m.default_storage_path (map (λ s. s.channel_id) ss) chs ss

unfoldable pub append_defaults : World → Manager → List Schedule → List Schedule
append_defaults w m ss = if not m.has_channels then ss else append_listed m w.list_channels ss

-- Whether a new segment is refused because the disk is below MinFreeGB.
abbrev pub is_below_min : Schedule → Option ℤ → Bool
is_below_min s none = false
is_below_min s (some avail) = ltb_ℤ avail (to_bytes s.min_free_gb)

abbrev pub is_due_by_time : Schedule → ActiveRec → Time → Bool
is_due_by_time s ar now =
    positive s.segment_minutes
    && leb_ℤ (mul64 s.segment_minutes (pos minute)) (sub_time now ar.start_time)

abbrev pub is_due_by_size : World → Schedule → Option ℕ → Bool
is_due_by_size w s none = false
is_due_by_size w s (some mux) =
    positive s.segment_size_mb
    && leb_ℤ (mul64 (mul64 s.segment_size_mb (pos 1024)) (pos 1024)) (w.bytes_written mux)

unfoldable pub process_at : World → Schedule → Time → Option ActiveRec → Manager → Manager
process_at w s now none m =
    if gt_zero s.min_free_gb && is_below_min s (w.disk_free m.calls s.storage_path)
    then m
    else start_segment w s now m
process_at w s now (some ar) m =
    if is_due_by_time s ar now || is_due_by_size w s ar.muxer
    then rotate_segment w ar s now m
    else m

abbrev pub checked : World → Schedule → Time → Manager → Manager
checked w s now m =
    if gt_zero s.min_free_gb || gt_zero s.low_free_gb then check_disk_space w s now m else m

-- A goroutine that is not interrupted.
unfoldable pub process_schedule : World → Schedule → Time → Manager → Manager
process_schedule w s now m =
    let m' = checked w s now m in process_at w s now (get s.id m'.active) m'

-- How far the goroutine of a schedule has come: what it saw in the map is its own.
pub data Stage : Type 0 where
  fresh done : Stage
  looked : Option ActiveRec → Stage

abbrev pub Goroutine : Type 0
Goroutine = Schedule × Stage

unfoldable pub advance : World → Time → Goroutine → Manager → Goroutine × Manager
advance w now (s, fresh) m = let m' = checked w s now m in ((s, looked (get s.id m'.active)), m')
advance w now (s, looked o) m = ((s, done), process_at w s now o m)
advance w now (s, done) m = ((s, done), m)

unfoldable pub take_turn : World → Time → ℕ → List Goroutine → Manager → List Goroutine × Manager
take_turn w now n [] m = ([], m)
take_turn w now zero (g ∷ gs) m = let r = advance w now g m in (r.0 ∷ gs, r.1)
take_turn w now (suc n) (g ∷ gs) m = let r = take_turn w now n gs m in (g ∷ r.0, r.1)

unfoldable pub take_turns :
    World → Time → List ℕ → List Goroutine → Manager → List Goroutine × Manager
take_turns w now [] gs m = (gs, m)
take_turns w now (n ∷ ns) gs m = let r = take_turn w now n gs m in take_turns w now ns r.0 r.1

-- `wg.Wait()`
unfoldable pub wait_all : World → Time → List Goroutine → Manager → Manager
wait_all w now [] m = m
wait_all w now (g ∷ gs) m = let r = advance w now g m in wait_all w now gs (advance w now r.0 r.1).1

unfoldable pub process_all : World → Time → List Schedule → Manager → Manager
process_all w now ss m =
    let r = take_turns w now w.turns (map (λ s. (s, fresh)) ss) m in wait_all w now r.0 r.1

-- The active recordings that a list of ids does not name, and those that it does.
unfoldable pub stale_of : List String → List (String × ActiveRec) → List (String × ActiveRec)
stale_of ids [] = []
stale_of ids ((k, ar) ∷ rest) =
    if contains k ids then stale_of ids rest else (k, ar) ∷ stale_of ids rest

unfoldable pub fresh_of : List String → List (String × ActiveRec) → List (String × ActiveRec)
fresh_of ids [] = []
fresh_of ids ((k, ar) ∷ rest) =
    if contains k ids then (k, ar) ∷ fresh_of ids rest else fresh_of ids rest

unfoldable pub close_recs : List (String × ActiveRec) → Manager → Manager
close_recs [] m = m
close_recs ((k, ar) ∷ rest) m = close_recs rest (close_rec ar m)

unfoldable pub stop_stale : List String → Manager → Manager
stop_stale ids m = close_recs (stale_of ids m.active) (record m { active = fresh_of ids m.active })

unfoldable pub enforce_all : World → Time → List Schedule → Manager → Manager
enforce_all w now [] m = m
enforce_all w now (s ∷ ss) m =
    enforce_all w now ss (if has_retention_policy s then enforce_retention w s now m else m)

abbrev pub active_schedules : World → List Schedule → List Schedule
active_schedules w ss = select (λ s. w.is_active s w.now) ss

abbrev pub tick_on : World → List Schedule → Manager → Manager
tick_on w ss m =
    let running = active_schedules w ss in
    enforce_all w w.now ss (stop_stale (map (λ s. s.id) running) (process_all w w.now running m))

-- The schedules that a tick processes.
abbrev pub running_of : World → Manager → Option (List Schedule) → List Schedule
running_of w m none = []
running_of w m (some ss) = active_schedules w (append_defaults w m ss)

abbrev pub tick_listed : World → Option (List Schedule) → Manager → Manager
tick_listed w none m = m
tick_listed w (some ss) m = tick_on w (append_defaults w m ss) m

unfoldable pub tick : World → Manager → Manager
tick w m = tick_listed w w.list_schedules m

unfoldable pub stop_all : Manager → Manager
stop_all m = close_recs m.active (record m { active = [] })

-- `Start` before its goroutine: an error of the index is only logged.
unfoldable pub start : World → Manager → Manager
start w m = record m { index = (seal_interrupted w.db m.index).0 }

-- `Stop` ends the loop, which then closes what is active, or ends after the first tick.
unfoldable pub run : List World → Manager → Manager
run [] m = stop_all m
run (w ∷ ws) m = run ws (tick w m)

unfoldable pub active_count : Manager → ℕ
active_count m = length m.active

-- The set that `ActiveChannels` answers with, as its characteristic function.
unfoldable pub active_channels : Manager → String → Bool
active_channels m ch = contains ch (map (λ (e : String × ActiveRec). e.1.sched.channel_id) m.active)

unfoldable pub ring_buffer : Manager → String → Option ℤ
ring_buffer m ch = get ch m.ring_buffers
