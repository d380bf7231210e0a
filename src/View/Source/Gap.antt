-- ===== src/View/Source/Gap.antt =====
-- pkg/edgeview/stream.go: gaps between segments, and missing files.
use vrtc.Base.{
  ◌≡◌, ◌≢◌, refl, ap, sym, ◌∙◌, inl, inr, Bool, false, ◌&&◌, Bool-cases, List, [], ◌∷◌, String,
  drop, All,
}
use vrtc.Base.Int.{pos}
use vrtc.Clock.{Time, zero_time, is_zero}
use vrtc.Recorder.Entry.{RecordingEntry}
use vrtc.Recorder.Index.{Index, Result, ok, err, query_by_channel}
use vrtc.View.Source.{
  missing, World, Outcome, segment, buffer, end_of_file, open_failure, query_failure, no_demuxer,
  no_recordings, cancelled, waiting, Source, track_gap, gap_before, advance, open_from, open_next,
  first_from, demuxer_on, recorded_demuxer, new_source, or_else, follow_on, next,
}
use vrtc.View.Source.Played.{Opening-cases, open_from-opened, open_from-missing, open_from-failed}
use vrtc.View.Source.Factory.{first_from-opened, first_from-missing, first_from-failed}

segment-inj : (e f : RecordingEntry) (a b : Bool) → segment e a ≡ segment f b → e ≡ f
segment-inj e f a b h = cc

open_from-gap :
    (w : World) (es : List RecordingEntry) (s : Source) (e : RecordingEntry) (b : Bool)
    → (open_from w es s).1 ≡ segment e b
    → (open_from w es s).0.last_gap ≡ gap_before s.last_seg_end e
unfolding track_gap
open_from-gap w [] s e b h = unfold open_from in cc
open_from-gap w (x ∷ es) s e b h = elim (Opening-cases (w.open_file x.file_path)) [
  | inl o ↦
      let r = open_from-opened w x es s o in
      let same = segment-inj x e _ b (sym (ap (λ r. r.1) r) ∙ h) in
      ap (λ r. r.0.last_gap) r ∙ ap (gap_before s.last_seg_end) same
  | inr other ↦ elim other [
    | inl o ↦
        let r = open_from-missing w x es s o in
        ap (λ r. r.0.last_gap) r ∙ open_from-gap w es (advance s) e b (sym (ap (λ r. r.1) r) ∙ h)
    | inr o ↦ let r = open_from-failed w x es s o in let c = sym (ap (λ r. r.1) r) ∙ h in cc
  ]
]

-- The next entry that opens reports its gap: the time since the last known end of a segment if that
-- is at least five seconds, and else zero, entries whose files are missing passed over.
pub open_next-gap :
    (w : World) (s : Source) (e : RecordingEntry) (b : Bool)
    → (open_next w s).1 ≡ segment e b
    → (open_next w s).0.last_gap ≡ gap_before s.last_seg_end e
unfolding open_next
open_next-gap w s e b h = open_from-gap w (drop s.idx s.entries) s e b h

first_from-end :
    (w : World) (from : Time) (all es : List RecordingEntry) (s : Source)
    → (first_from w from all es s).0.last_seg_end ≡ s.last_seg_end
first_from-end w from all [] s =
    elim (Bool-cases (s.follow && w.has_provider && w.has_buffer s.channel_id)) [
      | inl t ↦ unfold first_from in rw t refl
      | inr t ↦ unfold first_from in rw t refl
    ]
first_from-end w from all (x ∷ es) s = elim (Opening-cases (w.open_file x.file_path)) [
  | inl o ↦ ap (λ r. r.0.last_seg_end) (first_from-opened w from all x es s o)
  | inr other ↦ elim other [
    | inl o ↦
        ap (λ r. r.0.last_seg_end) (first_from-missing w from all x es s o)
        ∙ first_from-end w from all es (advance s)
    | inr o ↦ ap (λ r. r.0.last_seg_end) (first_from-failed w from all x es s o)
  ]
]

demuxer_on-end :
    (w : World) (ch : String) (from : Time) (follow : Bool)
    (r : Index × Result (List RecordingEntry))
    → (demuxer_on w ch from follow r).0.last_seg_end ≡ zero_time
demuxer_on-end w ch from follow (idx, err x) = refl
demuxer_on-end w ch from follow (idx, ok es) =
    first_from-end w from es es (new_source es 0 follow ch false idx)

-- The factory does not note where its first segment ends: the segment that opens next reports no
-- gap, however far apart the two are.
pub recorded_demuxer-misses_gap :
    (w w' : World) (ch : String) (from to : Time) (idx : Index) (e : RecordingEntry) (b : Bool)
    → (open_next w' (recorded_demuxer w ch from to idx).0).1 ≡ segment e b
    → (open_next w' (recorded_demuxer w ch from to idx).0).0.last_gap ≡ pos 0
unfolding recorded_demuxer
recorded_demuxer-misses_gap w w' ch from to idx e b h =
    let s = (recorded_demuxer w ch from to idx).0 in
    open_next-gap w' s e b h
    ∙ ap (λ t. gap_before t e)
        (demuxer_on-end w ch from (is_zero to) (query_by_channel w.db ch from to idx))

open_from-exhausted :
    (w : World) (es : List RecordingEntry) (s : Source)
    → (open_from w es s).1 ≡ no_demuxer
    → All (λ (e : RecordingEntry). w.open_file e.file_path ≡ missing) es
open_from-exhausted w [] s h = tt
open_from-exhausted w (x ∷ es) s h = elim (Opening-cases (w.open_file x.file_path)) [
  | inl o ↦ let c = sym (ap (λ r. r.1) (open_from-opened w x es s o)) ∙ h in cc
  | inr other ↦ elim other [
    | inl o ↦ (
      o,
      open_from-exhausted w es (advance s) (sym (ap (λ r. r.1) (open_from-missing w x es s o)) ∙ h),
    )
    | inr o ↦ let c = sym (ap (λ r. r.1) (open_from-failed w x es s o)) ∙ h in cc
  ]
]

or_else-end :
    (r : Source × Outcome) (k : Source → Source × Outcome)
    → (or_else r k).1 ≡ end_of_file
    → r.1 ≢ end_of_file
    → r.1 ≡ no_demuxer
or_else-end (s, no_demuxer) k h n = refl
or_else-end (s, segment e b) k h n = cc
or_else-end (s, buffer since) k h n = cc
or_else-end (s, end_of_file) k h n = absurd (n refl)
or_else-end (s, open_failure) k h n = cc
or_else-end (s, query_failure) k h n = cc
or_else-end (s, cancelled) k h n = cc
or_else-end (s, waiting) k h n = cc
or_else-end (s, no_recordings) k h n = cc

open_from-no_end :
    (w : World) (es : List RecordingEntry) (s : Source) → (open_from w es s).1 ≢ end_of_file
open_from-no_end w [] s h = unfold open_from in cc
open_from-no_end w (x ∷ es) s h = elim (Opening-cases (w.open_file x.file_path)) [
  | inl o ↦ let c = sym (ap (λ r. r.1) (open_from-opened w x es s o)) ∙ h in cc
  | inr other ↦ elim other [
    | inl o ↦
        open_from-no_end w es (advance s) (sym (ap (λ r. r.1) (open_from-missing w x es s o)) ∙ h)
    | inr o ↦ let c = sym (ap (λ r. r.1) (open_from-failed w x es s o)) ∙ h in cc
  ]
]

-- When `Next` answers with the end of file, the files of all entries from the cursor on are missing.
pub next-end :
    (w : World) (ws : List World) (s : Source)
    → (next w ws s).1 ≡ end_of_file
    → All (λ (e : RecordingEntry). w.open_file e.file_path ≡ missing) (drop s.idx s.entries)
unfolding next open_next
next-end w ws s h =
    open_from-exhausted w (drop s.idx s.entries) s
      (or_else-end (open_next w s) (follow_on w ws) h (open_from-no_end w (drop s.idx s.entries) s))
