-- ===== src/Schedules.antt =====
-- pkg/schedule/file.go: the schedules in a JSON file, and what the recorder makes of them.
--
-- The file is read as a list of its entries; `time.Parse` for RFC3339 is an argument.
pub mod Kept
mod Tests
use vrtc.Base.{Bool, Option, none, some, List, [], ◌∷◌, String, str_eq, if◌then◌else◌}
use vrtc.Base.Int.{ℤ, pos}
use vrtc.Clock.{Time, zero_time, Gigabytes}
use vrtc.Recorder.Manager.{Schedule}

pub record JsonSchedule : Type 0 where
  pub id : String
  pub channel_id : String
  pub storage_path : String
  pub segment_minutes : ℤ
  pub start_at : String
  pub end_at : String
  pub days_of_week : List ℤ

-- A schedule of the SDK: what the recorder reads of it, and when it is active.
pub record FileSchedule : Type 0 where
  pub schedule : Schedule
  pub start_at : Time
  pub end_at : Time
  pub days_of_week : List ℤ

pub data Error : Type 0 where
  read_error parse_error invalid_start_at invalid_end_at : Error

pub data Result (A : Type 0) : Type 0 where
  ok : A → Result A
  err : Error → Result A

pub data File : Type 0 where
  unreadable malformed : File
  holds : List JsonSchedule → File

abbrev pub no_gigabytes : Gigabytes
no_gigabytes = record { mantissa = 0; shift = 0 }

-- The fields that are not in the file have their zero values.
abbrev pub schedule_of : JsonSchedule → Schedule
schedule_of j = record {
  id = j.id;
  channel_id = j.channel_id;
  storage_path = j.storage_path;
  segment_minutes = j.segment_minutes;
  segment_size_mb = pos 0;
  ring_buffer_seconds = pos 0;
  max_age_days = pos 0;
  continuous_days = pos 0;
  motion_days = pos 0;
  object_days = pos 0;
  max_storage_gb = no_gigabytes;
  min_free_gb = no_gigabytes;
  low_free_gb = no_gigabytes;
}

abbrev pub or_err : Error → Option Time → Result Time
or_err e none = err e
or_err e (some t) = ok t

abbrev pub at_times : JsonSchedule → Result Time → Result Time → Result FileSchedule
at_times j (err e) end = err e
at_times j (ok s) (err e) = err e
at_times j (ok s) (ok t) =
    ok
      (record { schedule = schedule_of j; start_at = s; end_at = t; days_of_week = j.days_of_week })

module _ (parse_rfc3339 : String → Option Time) where
  abbrev pub time_of : Error → String → Result Time
  time_of e s = if str_eq s "" then ok zero_time else or_err e (parse_rfc3339 s)

  unfoldable pub to_schedule : JsonSchedule → Result FileSchedule
  to_schedule j = at_times j (time_of invalid_start_at j.start_at) (time_of invalid_end_at j.end_at)

  abbrev pub cons_result :
      Result FileSchedule → Result (List FileSchedule) → Result (List FileSchedule)
  cons_result (err e) rest = err e
  cons_result (ok s) (err e) = err e
  cons_result (ok s) (ok ss) = ok (s ∷ ss)

  -- The loop of `ListSchedules`, which ends at the first error.
  unfoldable pub convert : List JsonSchedule → Result (List FileSchedule)
  convert [] = ok []
  convert (j ∷ js) = cons_result (to_schedule j) (convert js)

  unfoldable pub list_schedules : File → Result (List FileSchedule)
  list_schedules unreadable = err read_error
  list_schedules malformed = err parse_error
  list_schedules (holds js) = convert js
