-- ===== src/Recorder/Retention.antt =====
-- pkg/recorder/retention.go: which entries a policy deletes. The two slices `entries` and `deleted`
-- are one list of marked entries.
pub mod Marks
pub mod Cap
pub mod Disk
pub mod Extends
pub mod Evaluate
use vrtc.Base.{
  ℕ, Bool, true, false, not, ◌&&◌, ◌||◌, Option, none, some, List, [], ◌∷◌, map, if◌then◌else◌,
}
use vrtc.Base.Int.{ℤ, pos, positive, leb_ℤ, add64, sub64}
use vrtc.Clock.{Time, before, days_back, Gigabytes, gt_zero, to_bytes}
use vrtc.Recorder.Entry.{RecordingEntry}

pub record RetentionPolicy : Type 0 where
  pub continuous_days : ℤ
  pub motion_days : ℤ
  pub object_days : ℤ
  pub max_storage_gb : Gigabytes
  pub min_free_gb : Gigabytes
  pub disk_free_bytes : ℤ

-- `entries[i]` with `deleted[i]`.
abbrev pub Mark : Type 0
Mark = RecordingEntry × Bool

unfoldable pub tier_cutoff : RecordingEntry → RetentionPolicy → Time → Option Time
tier_cutoff e p now =
    if e.has_objects && positive p.object_days
    then some (days_back now p.object_days)
    else if e.has_motion && positive p.motion_days
    then some (days_back now p.motion_days)
    else if positive p.continuous_days
    then some (days_back now p.continuous_days)
    else none

-- `hasCutoff && e.StartTime.Before(cutoff)`
abbrev pub starts_before : RecordingEntry → Option Time → Bool
starts_before e none = false
starts_before e (some cutoff) = before e.start_time cutoff

unfoldable pub apply_time_tiers : RetentionPolicy → Time → List Mark → List Mark
apply_time_tiers p now [] = []
apply_time_tiers p now ((e, d) ∷ marks) =
    (e, if starts_before e (tier_cutoff e p now) then true else d) ∷ apply_time_tiers p now marks

-- The first loop of `applyStorageCap`: the bytes of what is not deleted.
unfoldable pub total_bytes : ℤ → List Mark → ℤ
total_bytes acc [] = acc
total_bytes acc ((e, d) ∷ marks) = total_bytes (if d then acc else add64 acc e.size_bytes) marks

-- The second loop: delete from the front until the total is within the cap.
unfoldable pub trim_to_cap : ℤ → ℤ → List Mark → List Mark
trim_to_cap max total [] = []
trim_to_cap max total ((e, d) ∷ marks) =
    let rest = trim_to_cap max (if d then total else sub64 total e.size_bytes) marks in
    if leb_ℤ total max then (e, d) ∷ marks else (e, true) ∷ rest

unfoldable pub apply_storage_cap : RetentionPolicy → List Mark → List Mark
apply_storage_cap p marks =
    if not (gt_zero p.max_storage_gb)
    then marks
    else trim_to_cap (to_bytes p.max_storage_gb) (total_bytes (pos 0) marks) marks

-- The first loop of `applyDiskFreeCap`: bytes already scheduled for deletion.
unfoldable pub less_scheduled : ℤ → List Mark → ℤ
less_scheduled deficit [] = deficit
less_scheduled deficit ((e, d) ∷ marks) =
    less_scheduled (if d then sub64 deficit e.size_bytes else deficit) marks

-- The second loop: delete from the front until the deficit is made up.
unfoldable pub trim_deficit : ℤ → List Mark → List Mark
trim_deficit deficit [] = []
trim_deficit deficit ((e, d) ∷ marks) =
    let rest = trim_deficit (if d then deficit else sub64 deficit e.size_bytes) marks in
    if leb_ℤ deficit (pos 0) then (e, d) ∷ marks else (e, true) ∷ rest

unfoldable pub apply_disk_free_cap : RetentionPolicy → List Mark → List Mark
apply_disk_free_cap p marks =
    if not (gt_zero p.min_free_gb) || not (positive p.disk_free_bytes)
    then marks
    else if leb_ℤ (to_bytes p.min_free_gb) p.disk_free_bytes
    then marks
    else trim_deficit (less_scheduled (sub64 (to_bytes p.min_free_gb) p.disk_free_bytes) marks)
        marks

-- The entries whose mark is set.
unfoldable pub marked : List Mark → List RecordingEntry
marked [] = []
marked ((e, d) ∷ marks) = if d then e ∷ marked marks else marked marks

unfoldable pub evaluate_retention :
    List RecordingEntry → RetentionPolicy → Time → List RecordingEntry
unfolding apply_time_tiers apply_storage_cap apply_disk_free_cap marked
evaluate_retention [] p now = []
evaluate_retention (e ∷ es) p now = marked (
    apply_disk_free_cap p
      (apply_storage_cap p (apply_time_tiers p now (map (λ x. (x, false)) (e ∷ es)))))
