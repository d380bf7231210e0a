-- ===== src/Recorder/Manager.antt =====
-- pkg/recorder/recorder.go: the state of the recording manager.
--
-- What the manager calls outside itself is a `World`, read during one call of the manager: the clock,
-- the providers of schedules and channels, the relay hub, the muxers' counters, the file system and
-- the databases. Answers that may differ from call to call take the calls made so far, newest first.
-- File names (namer.go) and the texts of `time.Format` are functions of the world.
pub mod Segment
pub mod Retain
pub mod Tick
pub mod Owned
pub mod Stats
pub mod Metrics
mod Tests
use vrtc.Base.{ℕ, ◌*◌, Bool, Option, List, [], String, if◌then◌else◌}
use vrtc.Base.Int.{ℤ, pos, leb_ℤ}
use vrtc.Clock.{Time, zero_time, second, Gigabytes}
use vrtc.Recorder.Index.{Env, Index}

-- The fields that the manager reads of a schedule of the SDK.
pub record Schedule : Type 0 where
  pub id : String
  pub channel_id : String
  pub storage_path : String
  pub segment_minutes : ℤ
  pub segment_size_mb : ℤ
  pub ring_buffer_seconds : ℤ
  pub max_age_days : ℤ
  pub continuous_days : ℤ
  pub motion_days : ℤ
  pub object_days : ℤ
  pub max_storage_gb : Gigabytes
  pub min_free_gb : Gigabytes
  pub low_free_gb : Gigabytes

-- A consumer handle and a muxer are numbers that the hub gives out.
pub record ActiveRec : Type 0 where
  pub sched : Schedule
  pub handle : ℕ
  pub muxer : Option ℕ
  pub start_time : Time

-- The calls whose order matters: a consumer attached, a handle closed, a file removed.
pub data Call : Type 0 where
  attach : String → ℕ → Call
  close_handle : ℕ → Call
  remove_file : String → Call

-- The ring buffers are kept as their lengths of time.
pub record Manager : Type 0 where
  pub poll_interval : ℤ
  pub has_channels : Bool
  pub default_storage_path : String
  pub active : List (String × ActiveRec)
  pub ring_buffers : List (String × ℤ)
  pub failed_start : List (String × String)
  pub last_retention : Time
  pub index : Index
  pub calls : List Call

-- A muxer that the hub opened during `Consume`: its number and the clock in the muxer factory.
pub record Opened : Type 0 where
  pub muxer : ℕ
  pub seg_start : Time

pub data Attached : Type 0 where
  refused : String → Attached
  attached : ℕ → Option Opened → Attached

-- What the SDK reports of a segment that was closed.
pub record SegmentCloseInfo : Type 0 where
  pub start : Time
  pub end : Time
  pub path : String
  pub size_bytes : ℤ
  pub has_motion : Bool
  pub has_objects : Bool
  pub is_valid : Bool

pub record World : Type 0 where
  pub now : Time
  pub db : Env
  pub list_schedules : Option (List Schedule)
  pub list_channels : Option (List String)
  pub is_active : Schedule → Time → Bool
  pub turns : List ℕ
  pub disk_free : List Call → String → Option ℤ
  pub consume : List Call → String → Attached
  pub bytes_written : ℕ → ℤ
  pub rename_succeeds : String → String → Bool
  pub segment_path : String → String → Time → String
  pub segment_path_final : String → String → Time → Time → String
  pub stamp_ms : ℕ → String

-- `New`: an interval that is not positive becomes half a minute.
unfoldable pub new_manager : ℤ → Bool → String → Index → Manager
new_manager interval has_channels path index = record {
  poll_interval = if leb_ℤ interval (pos 0) then pos (30 * second) else interval;
  has_channels = has_channels;
  default_storage_path = path;
  active = [];
  ring_buffers = [];
  failed_start = [];
  last_retention = zero_time;
  index = index;
  calls = [];
}
