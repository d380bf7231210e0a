-- ===== src/Schedules/Tests.antt =====
-- The schedules of a file at concrete inputs.
use vrtc.Base.{◌≡◌, refl, none, [], ◌∷◌, map, All}
use vrtc.Base.Int.{pos}
use vrtc.Clock.{day}
use vrtc.Base.{◌*◌, ◌+◌, false}
use vrtc.Recorder.Entry.{RecordingEntry, complete}
use vrtc.Recorder.Manager.Retain.{policy_of}
use vrtc.Recorder.Retention.{evaluate_retention}
use vrtc.Schedules.{
  JsonSchedule, FileSchedule, ok, holds, to_schedule, convert, list_schedules, schedule_of,
}
use vrtc.Schedules.Kept.{list_schedules-keeps}

abbrev weekdays : JsonSchedule
weekdays = record {
  id = "sched-1";
  channel_id = "cam-1";
  storage_path = "/data/recordings";
  segment_minutes = pos 5;
  start_at = "";
  end_at = "";
  days_of_week = pos 1 ∷ pos 2 ∷ [];
}

abbrev read : FileSchedule
read = record {
  schedule = schedule_of weekdays;
  start_at = 0;
  end_at = 0;
  days_of_week = pos 1 ∷ pos 2 ∷ [];
}

abbrev old : RecordingEntry
old = record {
  id = "old";
  channel_id = "cam-1";
  start_time = 30 * day;
  end_time = 30 * day + 5;
  file_path = "a.fmp4";
  size_bytes = pos 1_000;
  status = complete;
  has_motion = false;
  has_objects = false;
  has_events = false;
}

listed : list_schedules (λ s. none) (holds (weekdays ∷ [])) ≡ ok (read ∷ [])
unfolding list_schedules convert to_schedule
listed = refl

list_schedules-keeps_example :
    (map (λ (s : FileSchedule). s.schedule.id) (read ∷ [])
      ≡ map (λ (j : JsonSchedule). j.id) (weekdays ∷ []))
    × All
        (λ (s : FileSchedule).
          evaluate_retention (old ∷ []) (policy_of s.schedule (pos 0)) (400 * day) ≡ [])
        (read ∷ [])
list_schedules-keeps_example =
    list_schedules-keeps (λ s. none) (weekdays ∷ []) (read ∷ []) (old ∷ []) (400 * day) (pos 0)
      listed
