-- ===== src/Schedules/Kept.antt =====
-- pkg/schedule/file.go with pkg/recorder: recordings under a schedule of the file are kept.
use vrtc.Base.{◌≡◌, refl, subst, ap, false, Option, none, List, [], ◌∷◌, map, String, All, arith}
use vrtc.Base.Int.{ℤ}
use vrtc.Clock.{Time}
use vrtc.Recorder.Entry.{RecordingEntry}
use vrtc.Recorder.Manager.Retain.{policy_of}
use vrtc.Recorder.Retention.{
  tier_cutoff, apply_time_tiers, apply_storage_cap, apply_disk_free_cap, marked, evaluate_retention,
}
use vrtc.Schedules.{
  JsonSchedule, FileSchedule, Result, ok, err, holds, schedule_of, at_times, to_schedule,
  cons_result, convert, list_schedules,
}

-- No tier of a schedule of the file has a limit.
tier_cutoff-none :
    (e : RecordingEntry) (j : JsonSchedule) (free : ℤ) (now : Time)
    → tier_cutoff e (policy_of (schedule_of j) free) now ≡ none
unfolding tier_cutoff
tier_cutoff-none e j free now = ground arith

marked-nothing :
    (j : JsonSchedule) (free : ℤ) (now : Time) (es : List RecordingEntry)
    → marked (apply_time_tiers (policy_of (schedule_of j) free) now (map (λ x. (x, false)) es)) ≡ []
unfolding marked apply_time_tiers
marked-nothing j free now [] = refl
marked-nothing j free now (e ∷ es) =
    rw (tier_cutoff-none e j free now) (marked-nothing j free now es)

evaluate-nothing :
    (j : JsonSchedule) (free : ℤ) (now : Time) (es : List RecordingEntry)
    → evaluate_retention es (policy_of (schedule_of j) free) now ≡ []
unfolding evaluate_retention apply_storage_cap apply_disk_free_cap
evaluate-nothing j free now [] = refl
evaluate-nothing j free now (e ∷ es) = marked-nothing j free now (e ∷ es)

-- What the listing of one entry after another amounts to.
abbrev IsKeeping : List RecordingEntry → Time → ℤ → FileSchedule → Type 0
IsKeeping es now free s = evaluate_retention es (policy_of s.schedule free) now ≡ []

abbrev ids : List FileSchedule → List String
ids ss = map (λ (s : FileSchedule). s.schedule.id) ss

abbrev raw_ids : List JsonSchedule → List String
raw_ids js = map (λ (j : JsonSchedule). j.id) js

module _ (parse_rfc3339 : String → Option Time) (es : List RecordingEntry) (now : Time)
    (free : ℤ) where
  abbrev IsRead : List JsonSchedule → Result (List FileSchedule) → Type 0
  IsRead js (err e) = Unit
  IsRead js (ok ss) = (ids ss ≡ raw_ids js) × All (IsKeeping es now free) ss

  cons-IsRead :
      (j : JsonSchedule) (js : List JsonSchedule) (start end : Result Time)
      (rest : Result (List FileSchedule))
      → IsRead js rest
      → IsRead (j ∷ js) (cons_result parse_rfc3339 (at_times j start end) rest)
  cons-IsRead j js (err e) end rest h = tt
  cons-IsRead j js (ok a) (err e) rest h = tt
  cons-IsRead j js (ok a) (ok b) (err e) h = tt
  cons-IsRead j js (ok a) (ok b) (ok ss) (same, kept) =
      (ap (λ l. j.id ∷ l) same, (evaluate-nothing j free now es, kept))

  convert-IsRead : (js : List JsonSchedule) → IsRead js (convert parse_rfc3339 js)
  unfolding convert to_schedule
  convert-IsRead [] = (refl, tt)
  convert-IsRead (j ∷ js) = cons-IsRead j js _ _ (convert parse_rfc3339 js) (convert-IsRead js)

-- A listing that succeeds has the schedules of the file, each in its place, and under none of them
-- does a retention pass delete a recording, whatever its age, the disk and the clock: the file has no
-- field that sets a limit.
pub list_schedules-keeps :
    (parse_rfc3339 : String → Option Time) (js : List JsonSchedule) (ss : List FileSchedule)
    (es : List RecordingEntry) (now : Time) (free : ℤ)
    → list_schedules parse_rfc3339 (holds js) ≡ ok ss
    → (map (λ (s : FileSchedule). s.schedule.id) ss ≡ map (λ (j : JsonSchedule). j.id) js)
      × All (λ (s : FileSchedule). evaluate_retention es (policy_of s.schedule free) now ≡ []) ss
unfolding list_schedules
list_schedules-keeps parse_rfc3339 js ss es now free h =
    subst (IsRead parse_rfc3339 es now free js) h (convert-IsRead parse_rfc3339 es now free js)
