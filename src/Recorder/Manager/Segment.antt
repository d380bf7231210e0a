-- ===== src/Recorder/Manager/Segment.antt =====
-- pkg/recorder/recorder.go: a segment's start, rotation and end.
pub mod Marker
use vrtc.Base.Assoc.{get, put, remove}
use vrtc.Base.{ℕ, ◌*◌, ◌/◌, Bool, false, Option, none, some, List, ◌∷◌, String, join, if◌then◌else◌}
use vrtc.Base.Int.{ℤ, pos, leb_ℤ, positive, mul64}
use vrtc.Clock.{Time, second, zero_time}
use vrtc.Recorder.Entry.{RecordingEntry, Status, recording, complete, corrupted}
use vrtc.Recorder.Index
use vrtc.Recorder.Manager.{
  Schedule, ActiveRec, Call, attach, close_handle, Manager, Opened, Attached, refused, attached,
  SegmentCloseInfo, World,
}

-- The id of a segment's row: the schedule and the start of the segment, in milliseconds.
abbrev pub entry_id : World → Schedule → Time → String
entry_id w s start = join "recorder-" (join s.id (join "-" (w.stamp_ms (start / 1_000_000))))

unfoldable pub segment_prealloc_bytes : Schedule → ℤ
segment_prealloc_bytes s =
    if positive s.segment_size_mb
    then mul64 (mul64 s.segment_size_mb (pos 1024)) (pos 1024)
    else if positive s.segment_minutes
    then mul64 (mul64 s.segment_minutes (pos 60)) (pos 1_200_000)
    else pos 0

-- `maxBytes` of `startSegment`.
unfoldable pub max_bytes : Schedule → ℤ
max_bytes s =
    if positive s.segment_size_mb
    then mul64 (mul64 s.segment_size_mb (pos 1024)) (pos 1024)
    else pos 0

-- The row of a closed segment, whose file gets its final name if the rename succeeds.
abbrev pub closed_entry : World → Schedule → SegmentCloseInfo → RecordingEntry
closed_entry w s info =
    let final = w.segment_path_final s.storage_path s.channel_id info.start info.end in
    record {
      id = entry_id w s info.start;
      channel_id = s.channel_id;
      start_time = info.start;
      end_time = info.end;
      file_path = if w.rename_succeeds info.path final then final else info.path;
      size_bytes = info.size_bytes;
      status = if info.is_valid then complete else corrupted;
      has_motion = info.has_motion;
      has_objects = info.has_objects;
      has_events = false;
    }

-- The callback of `makeOnCloseCallback`. An error of the index is only logged.
unfoldable pub on_close : World → Schedule → SegmentCloseInfo → Manager → Manager
on_close w s info m = record m { index = (Index.insert w.db (closed_entry w s info) m.index).0 }

-- The row that marks a segment as being recorded.
abbrev pub marker_entry : World → Schedule → Time → RecordingEntry
marker_entry w s start = record {
  id = entry_id w s start;
  channel_id = s.channel_id;
  start_time = start;
  end_time = zero_time;
  file_path = w.segment_path s.storage_path s.channel_id start;
  size_bytes = pos 0;
  status = recording;
  has_motion = false;
  has_objects = false;
  has_events = false;
}

-- What the muxer factory does once the muxer is created.
unfoldable pub open_muxer : World → Schedule → Time → Manager → Manager
open_muxer w s start m = record m { index = (Index.insert w.db (marker_entry w s start) m.index).0 }

unfoldable pub get_or_create_ring_buffer : Schedule → Manager → Manager × Option ℤ
get_or_create_ring_buffer s m =
    if leb_ℤ s.ring_buffer_seconds (pos 0)
    then (m, none)
    else elim (get s.channel_id m.ring_buffers) [
      | none ↦
          let length = mul64 s.ring_buffer_seconds (pos second) in
          (record m { ring_buffers = put s.channel_id length m.ring_buffers }, some length)
      | some length ↦ (m, some length)
    ]

unfoldable pub register_active_segment : Schedule → Time → ℕ → Option ℕ → Manager → Manager
register_active_segment s now handle muxer m = record m {
  active =
      put s.id (record { sched = s; handle = handle; muxer = muxer; start_time = now }) m.active;
}

-- The muxer factory runs inside `Consume` where the hub has opened the muxer when that returns.
abbrev pub opened_in : World → Schedule → Option Opened → Manager → Manager
opened_in w s none m = m
opened_in w s (some o) m = open_muxer w s o.seg_start m

abbrev pub muxer_of : Option Opened → Option ℕ
muxer_of none = none
muxer_of (some o) = some o.muxer

abbrev pub on_attached : World → Schedule → Time → Attached → Manager → Manager
on_attached w s now (refused msg) m = record m { failed_start = put s.id msg m.failed_start }
on_attached w s now (attached h o) m =
    let opened = opened_in w s o m in
    register_active_segment s now h (muxer_of o) (record opened {
      failed_start = remove s.id opened.failed_start;
      calls = attach s.channel_id h ∷ opened.calls;
    })

unfoldable pub start_segment : World → Schedule → Time → Manager → Manager
start_segment w s now m =
    let ringed = (get_or_create_ring_buffer s m).0 in
    on_attached w s now (w.consume ringed.calls s.channel_id) ringed

-- `closeHandle`, whose error is only logged.
unfoldable pub close_rec : ActiveRec → Manager → Manager
close_rec ar m = record m { calls = close_handle ar.handle ∷ m.calls }

unfoldable pub rotate_segment : World → ActiveRec → Schedule → Time → Manager → Manager
rotate_segment w ar s now m =
    start_segment w s now (close_rec ar (record m { active = remove s.id m.active }))
