-- ===== src/Recorder/Manager/Retain.antt =====
-- pkg/recorder/recorder.go: how the manager applies the retention policy.
pub mod Removal
pub mod Batch
use vrtc.Base.{
  ℕ, zero, suc, Bool, true, false, not, ◌&&◌, ◌||◌, Option, none, some, List, [], ◌∷◌, ltb,
  if◌then◌else◌, length, take,
}
use vrtc.Base.Int.{ℤ, pos, negsuc, ltb_ℤ, positive}
use vrtc.Clock.{Time, zero_time, gt_zero, to_bytes}
use vrtc.Recorder.Entry.{RecordingEntry}
use vrtc.Recorder.Retention.{RetentionPolicy, evaluate_retention}
use vrtc.Recorder.Index.{Index, Result, ok, err, query_by_channel, delete}
use vrtc.Recorder.Manager.{Schedule, Call, remove_file, Manager, World}

unfoldable pub has_retention_policy : Schedule → Bool
has_retention_policy s =
    positive s.max_age_days
    || gt_zero s.max_storage_gb
    || positive s.continuous_days
    || positive s.motion_days
    || positive s.object_days
    || gt_zero s.min_free_gb

-- The file is removed only after its row is marked deleted. An error of `os.Remove` is only logged.
abbrev pub and_remove : RecordingEntry → Index × Result (Unit {0}) → Manager → Manager
and_remove e (idx, ok done) m = record m { index = idx; calls = remove_file e.file_path ∷ m.calls }
and_remove e (idx, err x) m = record m { index = idx }

unfoldable pub delete_segment : World → RecordingEntry → Manager → Manager
delete_segment w e m = and_remove e (delete w.db e.id m.index) m

unfoldable pub delete_segments : World → List RecordingEntry → Manager → Manager
delete_segments w [] m = m
delete_segments w (e ∷ es) m = delete_segments w es (delete_segment w e m)

-- MaxAgeDays stands in for a ContinuousDays of 0.
abbrev pub continuous_days_of : Schedule → ℤ → ℤ
continuous_days_of s (pos zero) = if positive s.max_age_days then s.max_age_days else pos 0
continuous_days_of s (pos (suc n)) = pos (suc n)
continuous_days_of s (negsuc n) = negsuc n

-- A reading that fails is 0.
abbrev pub reading : Option ℤ → ℤ
reading none = pos 0
reading (some bytes) = bytes

abbrev pub disk_free_of : World → Schedule → Manager → ℤ
disk_free_of w s m =
    if gt_zero s.min_free_gb then reading (w.disk_free m.calls s.storage_path) else pos 0

abbrev pub policy_of : Schedule → ℤ → RetentionPolicy
policy_of s disk_free = record {
  continuous_days = continuous_days_of s s.continuous_days;
  motion_days = s.motion_days;
  object_days = s.object_days;
  max_storage_gb = s.max_storage_gb;
  min_free_gb = s.min_free_gb;
  disk_free_bytes = disk_free;
}

abbrev pub is_disk_critical : Schedule → ℤ → Bool
is_disk_critical s disk_free =
    gt_zero s.min_free_gb && positive disk_free && ltb_ℤ disk_free (to_bytes s.min_free_gb)

abbrev pub batch_limit : ℕ
batch_limit = 10

-- The entries that one pass deletes: at most ten, unless the disk is critically full.
unfoldable pub batch_of : Bool → List RecordingEntry → List RecordingEntry
batch_of critical es =
    if not critical && ltb batch_limit (length es) then take batch_limit es else es

abbrev pub stamp_retention : Time → List RecordingEntry → Manager → Manager
stamp_retention now [] m = m
stamp_retention now (e ∷ es) m = record m { last_retention = now }

-- The entries to delete, from what the index answered.
abbrev pub to_delete : World → Schedule → Time → List RecordingEntry → Manager → List RecordingEntry
to_delete w s now es m =
    let free = disk_free_of w s m in
    batch_of (is_disk_critical s free) (evaluate_retention es (policy_of s free) now)

abbrev pub enforce_on :
    World → Schedule → Time → Index × Result (List RecordingEntry) → Manager → Manager
enforce_on w s now (idx, err x) m = record m { index = idx }
enforce_on w s now (idx, ok es) m =
    let batch = to_delete w s now es (record m { index = idx }) in
    stamp_retention now batch (delete_segments w batch (record m { index = idx }))

unfoldable pub enforce_retention : World → Schedule → Time → Manager → Manager
enforce_retention w s now m =
    enforce_on w s now (query_by_channel w.db s.channel_id zero_time zero_time m.index) m

-- Two passes below LowFreeGB and one more below MinFreeGB, both by the same reading.
abbrev pub check_at : World → Schedule → Time → Option ℤ → Manager → Manager
check_at w s now none m = m
check_at w s now (some avail) m =
    let twice = enforce_retention w s now (enforce_retention w s now m) in
    let low = if gt_zero s.low_free_gb && ltb_ℤ avail (to_bytes s.low_free_gb) then twice else m in
    if gt_zero s.min_free_gb && ltb_ℤ avail (to_bytes s.min_free_gb)
    then enforce_retention w s now low
    else low

unfoldable pub check_disk_space : World → Schedule → Time → Manager → Manager
check_disk_space w s now m = check_at w s now (w.disk_free m.calls s.storage_path) m
