-- ===== src/Recorder/Entry.antt =====
-- pkg/recorder/index.go: the status values and the metadata of one recording segment.
use vrtc.Base.{ℕ, String, Bool, ◌≡◌}
use vrtc.Base.Int.{ℤ, pos_part, neg_part}
use vrtc.Clock.{Time}

pub data Status : Type 0 where
  recording complete interrupted deleted corrupted : Status

pub Status-discrete : Discrete Status
Status-discrete = hlevel

pub record RecordingEntry : Type 0 where
  pub id : String
  pub channel_id : String
  pub start_time : Time
  pub end_time : Time
  pub file_path : String
  pub size_bytes : ℤ
  pub status : Status
  pub has_motion : Bool
  pub has_objects : Bool
  pub has_events : Bool

-- The size of an entry as a number, and that an entry's size is one.
abbrev pub bytes : RecordingEntry → ℕ
bytes e = pos_part e.size_bytes

abbrev pub IsSized : RecordingEntry → Type 0
IsSized e = neg_part e.size_bytes ≡ 0

-- A key frame of a segment: its DTS in milliseconds and its place in the file.
pub record SeekEntry : Type 0 where
  pub dts_ms : ℤ
  pub byte_offset : ℤ
