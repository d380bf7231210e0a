-- ===== src/Recorder/Manager/Tick/Rotation.antt =====
-- pkg/recorder/recorder.go: `processSchedule` and when a recording is rotated.
use vrtc.Base.Assoc.{get, get-put_self, remove, get-remove}
use vrtc.Base.Int.{ℤ, pos, negsuc, pos_part, positive, leb_ℤ, mul64, mul64-pos}
use vrtc.Base.{
  ℕ, zero, suc, ◌+◌, ◌*◌, ◌^◌, ◌<◌, arith, ◌≡◌, refl, ap, sym, ◌∙◌, subst, ◌⊎◌, inl, inr, Bool,
  true, false, ◌&&◌, ◌||◌, Bool-cases, Option, none, some, str_eq_refl, if◌then◌else◌,
}
use vrtc.Clock.{Time, minute, sub_time, gt_zero}
use vrtc.Recorder.Manager.{Schedule, ActiveRec, Manager, World, Attached, refused, attached}
use vrtc.Recorder.Manager.Segment.{
  get_or_create_ring_buffer, register_active_segment, on_attached, start_segment, rotate_segment,
  close_rec, opened_in,
}
use vrtc.Recorder.Manager.Tick.{
  is_below_min, is_due_by_time, is_due_by_size, process_at, checked, process_schedule,
}
use vrtc.Recorder.Manager.Owned.Turns.{checked-OnlyRemoves}
use vrtc.Recorder.Manager.Owned.Steps.{ring-SameOwner}

some-inj : {A : Type 0} → (a b : A) → some a ≡ some b → a ≡ b
some-inj a b e = cc

-- A recording is new: it started now under its schedule.
abbrev pub IsNew : Schedule → Time → ActiveRec → Type 0
IsNew s now ar = (ar.start_time ≡ now) × (ar.sched ≡ s)

on_attached-IsNew :
    (w : World) (s : Schedule) (now : Time) (a : Attached) (m : Manager) (ar : ActiveRec)
    → get s.id m.active ≡ none
    → get s.id (on_attached w s now a m).active ≡ some ar
    → IsNew s now ar
unfolding register_active_segment
on_attached-IsNew w s now (refused msg) m ar n h = let c = sym n ∙ h in cc
on_attached-IsNew w s now (attached i o) m ar n h =
    let e = some-inj _ ar (sym (get-put_self s.id _ (opened_in w s o m).active) ∙ h) in
    (sym (ap (λ r. r.start_time) e), sym (ap (λ r. r.sched) e))

start_segment-IsNew :
    (w : World) (s : Schedule) (now : Time) (m : Manager) (ar : ActiveRec)
    → get s.id m.active ≡ none
    → get s.id (start_segment w s now m).active ≡ some ar
    → IsNew s now ar
unfolding start_segment
start_segment-IsNew w s now m ar n h =
    let ringed = (get_or_create_ring_buffer s m).0 in
    on_attached-IsNew w s now (w.consume ringed.calls s.channel_id) ringed ar
      (ap (get s.id) (ring-SameOwner s m).0 ∙ n) h

rotate_segment-IsNew :
    (w : World) (old : ActiveRec) (s : Schedule) (now : Time) (m : Manager) (ar : ActiveRec)
    → get s.id (rotate_segment w old s now m).active ≡ some ar
    → IsNew s now ar
unfolding rotate_segment close_rec
rotate_segment-IsNew w old s now m ar h =
    start_segment-IsNew w s now (close_rec old (record m { active = remove s.id m.active })) ar
      (get-remove s.id s.id m.active ∙ rw (str_eq_refl s.id) refl) h

-- The tests of the code for its age and its size both fail for a recording.
abbrev pub IsNotDue : World → Schedule → Time → ActiveRec → Type 0
IsNotDue w s now ar = (is_due_by_time s ar now || is_due_by_size w s ar.muxer) ≡ false

process_at-IsNotDue :
    (w : World) (s : Schedule) (now : Time) (o : Option ActiveRec) (m : Manager) (ar : ActiveRec)
    → get s.id m.active ≡ o
    → get s.id (process_at w s now o m).active ≡ some ar
    → IsNew s now ar ⊎ (IsNotDue w s now ar × (o ≡ some ar))
unfolding process_at
process_at-IsNotDue w s now none m ar f h =
    let full = gt_zero s.min_free_gb && is_below_min s (w.disk_free m.calls s.storage_path) in
    let at : Bool → Type 0 =
      λ b. get s.id (if b then m else start_segment w s now m).active ≡ some ar in
    elim (Bool-cases full) [
      | inl e ↦ let c = sym f ∙ subst at e h in cc
      | inr e ↦ inl (start_segment-IsNew w s now m ar f (subst at e h))
    ]
process_at-IsNotDue w s now (some old) m ar f h =
    let due = is_due_by_time s old now || is_due_by_size w s old.muxer in
    let at : Bool → Type 0 =
      λ b. get s.id (if b then rotate_segment w old s now m else m).active ≡ some ar in
    elim (Bool-cases due) [
      | inl e ↦ inl (rotate_segment-IsNew w old s now m ar (subst at e h))
      | inr e ↦
          let same = sym f ∙ subst at e h in
          inr (subst (IsNotDue w s now) (some-inj old ar same) e, same)
    ]

process_schedule-IsNotDue :
    (w : World) (s : Schedule) (now : Time) (m : Manager) (ar : ActiveRec)
    → get s.id (process_schedule w s now m).active ≡ some ar
    → IsNew s now ar ⊎ (IsNotDue w s now ar × (get s.id m.active ≡ some ar))
unfolding process_schedule
process_schedule-IsNotDue w s now m ar h =
    let m' = checked w s now m in
    let same = (checked-OnlyRemoves w s now m).same_active in
    elim (process_at-IsNotDue w s now (get s.id m'.active) m' ar refl h) [
      | inl fresh ↦ inl fresh
      | inr old ↦ inr (old.0, ap (get s.id) (sym same) ∙ old.1)
    ]

-- A recording of a schedule with a length in minutes is younger than that.
abbrev pub IsYoung : ℤ → Time → Time → Type 0
IsYoung (pos zero) start now = Unit
IsYoung (pos (suc n)) start now = now < start + suc n * minute
IsYoung (negsuc n) start now = Unit

abbrev pub IsBelow : ℤ → ℕ → Type 0
IsBelow (pos written) limit = written < limit
IsBelow (negsuc n) limit = Unit

-- A muxer of a schedule with a size in megabytes has written less than that.
abbrev pub IsSmall : ℤ → Option ℕ → (ℕ → ℤ) → Type 0
IsSmall (pos zero) o written = Unit
IsSmall (pos (suc n)) none written = Unit
IsSmall (pos (suc n)) (some muxer) written = IsBelow (written muxer) (suc n * 1_048_576)
IsSmall (negsuc n) o written = Unit

age-lt :
    (now start k : ℕ) → k < 2 ^ 63 → leb_ℤ (pos k) (sub_time now start) ≡ false → now < start + k
unfolding sub_time
age-lt now start k fits h = ground arith

or-left : (a b : Bool) → (a || b) ≡ false → a ≡ false
or-left a b h = ground arith

or-right : (a b : Bool) → (a || b) ≡ false → b ≡ false
or-right a b h = ground arith

due-IsYoung :
    (s : Schedule) (ar : ActiveRec) (now : Time) (minutes : ℤ)
    → pos_part minutes * minute < 2 ^ 63
    → (positive minutes && leb_ℤ (mul64 minutes (pos minute)) (sub_time now ar.start_time)) ≡ false
    → IsYoung minutes ar.start_time now
due-IsYoung s ar now (pos zero) fits h = tt
due-IsYoung s ar now (pos (suc n)) fits h = age-lt now ar.start_time (suc n * minute) fits (
    subst (λ k. leb_ℤ k (sub_time now ar.start_time) ≡ false) (mul64-pos (suc n) minute fits)
      (ground (arith, h)))
due-IsYoung s ar now (negsuc n) fits h = tt

written-IsBelow : (b : ℤ) (k : ℕ) → leb_ℤ (pos k) b ≡ false → IsBelow b k
written-IsBelow (pos b) k h = ground arith
written-IsBelow (negsuc n) k h = tt

megabytes :
    (n : ℕ)
    → n * 1_048_576 < 2 ^ 63
    → mul64 (mul64 (pos n) (pos 1024)) (pos 1024) ≡ pos (n * 1_048_576)
megabytes n fits =
    ap (λ k. mul64 k (pos 1024)) (mul64-pos n 1024 (omega arith))
    ∙ mul64-pos (n * 1024) 1024 (omega arith)
    ∙ ap pos (omega arith)

size-IsSmall :
    (w : World) (s : Schedule) (o : Option ℕ) (size : ℤ)
    → s.segment_size_mb ≡ size
    → pos_part size * 1_048_576 < 2 ^ 63
    → is_due_by_size w s o ≡ false
    → IsSmall size o w.bytes_written
size-IsSmall w s o (pos zero) e fits h = tt
size-IsSmall w s none (pos (suc n)) e fits h = tt
size-IsSmall w s (some muxer) (pos (suc n)) e fits h =
    let at : ℤ → Type 0 = λ z.
      (positive z && leb_ℤ (mul64 (mul64 z (pos 1024)) (pos 1024)) (w.bytes_written muxer))
      ≡ false in
    let tested = subst at e h in
    written-IsBelow (w.bytes_written muxer) (suc n * 1_048_576) (
      subst (λ k. leb_ℤ k (w.bytes_written muxer) ≡ false) (megabytes (suc n) fits)
        (ground (arith, tested)))
size-IsSmall w s o (negsuc n) e fits h = tt

-- After a schedule was processed, its recording, where there is one, either started just now or is
-- the one from before, and then it is younger than the schedule's length in minutes, if that is
-- positive, and its muxer has written less than the schedule's size in megabytes, if that is
-- positive. Both limits fit in an int64, in nanoseconds and in bytes.
pub process_schedule-rotates :
    (w : World) (s : Schedule) (now : Time) (m : Manager) (ar : ActiveRec)
    → pos_part s.segment_minutes * minute < 2 ^ 63
    → pos_part s.segment_size_mb * 1_048_576 < 2 ^ 63
    → get s.id (process_schedule w s now m).active ≡ some ar
    → IsNew s now ar
      ⊎ (get s.id m.active ≡ some ar)
        × IsYoung s.segment_minutes ar.start_time now
        × IsSmall s.segment_size_mb ar.muxer w.bytes_written
process_schedule-rotates w s now m ar time size h =
    elim (process_schedule-IsNotDue w s now m ar h) [
      | inl fresh ↦ inl fresh
      | inr (kept, old) ↦ inr (
        old,
        due-IsYoung s ar now s.segment_minutes time (or-left _ _ kept),
        size-IsSmall w s ar.muxer s.segment_size_mb refl size (or-right _ _ kept),
      )
    ]

process_at-full :
    (w : World) (s : Schedule) (now : Time) (m : Manager)
    → gt_zero s.min_free_gb ≡ true
    → is_below_min s (w.disk_free m.calls s.storage_path) ≡ true
    → process_at w s now none m ≡ m
unfolding process_at
process_at-full w s now m g b = rw (g, b) refl

-- With the disk below the minimum after the retention passes, a schedule that records nothing starts
-- nothing.
pub process_schedule-full :
    (w : World) (s : Schedule) (now : Time) (m : Manager)
    → get s.id m.active ≡ none
    → gt_zero s.min_free_gb ≡ true
    → is_below_min s (w.disk_free (checked w s now m).calls s.storage_path) ≡ true
    → (process_schedule w s now m).active ≡ m.active
unfolding process_schedule
process_schedule-full w s now m n g b =
    let same = (checked-OnlyRemoves w s now m).same_active in
    let m' = checked w s now m in
    ap (λ o. (process_at w s now o m').active) (ap (get s.id) same ∙ n)
    ∙ ap (λ x. x.active) (process_at-full w s now m' g b)
    ∙ same
