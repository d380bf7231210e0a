-- ===== src/View/Source/Factory.antt =====
-- pkg/edgeview/stream.go: the demuxer factories, and what is played after their first segment.
use vrtc.Base.{
  ◌≡◌, refl, sym, subst, inl, inr, Bool, true, false, ◌&&◌, List, [], ◌∷◌, ◌++◌, map, String, arith,
  drop, All, All-map_of,
}
use vrtc.Clock.{Time, is_zero}
use vrtc.Recorder.Entry.{RecordingEntry}
use vrtc.Recorder.Index.{Index, Result, ok, err, contains, query_by_channel}
use vrtc.View.Source.{
  opened, missing, failed, World, segment, buffer, open_failure, no_recordings, Source, advance,
  is_stamped, new_source, first_from, demuxer_on, recorded_demuxer,
}
use vrtc.View.Source.Chain.{Distinct, Distinct-Sub, Distinct-append_left, Wf, Moves-trans, drop-suc}
use vrtc.View.Source.Played.{
  played, MovesTo, Opening-cases, stays, steps, contains_self, contains-cons,
}
use vrtc.View.Source.Played.Runs.{MovesTo-if, play, play-Moves}

pub first_from-opened :
    (w : World) (from : Time) (all : List RecordingEntry) (e : RecordingEntry)
    (es : List RecordingEntry) (s : Source)
    → w.open_file e.file_path ≡ opened
    → first_from w from all (e ∷ es) s ≡ (advance s, segment e (is_stamped e s))
unfolding first_from
first_from-opened w from all e es s o = rw (first_from, o) refl

pub first_from-missing :
    (w : World) (from : Time) (all : List RecordingEntry) (e : RecordingEntry)
    (es : List RecordingEntry) (s : Source)
    → w.open_file e.file_path ≡ missing
    → first_from w from all (e ∷ es) s ≡ first_from w from all es (advance s)
unfolding first_from
first_from-missing w from all e es s o = rw (first_from, o) refl

pub first_from-failed :
    (w : World) (from : Time) (all : List RecordingEntry) (e : RecordingEntry)
    (es : List RecordingEntry) (s : Source)
    → w.open_file e.file_path ≡ failed
    → first_from w from all (e ∷ es) s ≡ (s, open_failure)
unfolding first_from
first_from-failed w from all e es s o = rw (first_from, o) refl

first_from-Moves :
    (w : World) (from : Time) (all es : List RecordingEntry) (s : Source)
    → drop s.idx s.entries ≡ es
    → Wf s
    → MovesTo s (first_from w from all es s)
first_from-Moves w from all [] s h wf =
    let same = stays s s refl refl refl wf in
    unfold first_from in
    MovesTo-if (s.follow && w.has_provider && w.has_buffer s.channel_id) s (s, buffer from)
      (s, no_recordings) same same
first_from-Moves w from all (e ∷ es) s h wf =
    let one = steps s (advance s) e es [] refl refl refl h (inl refl) wf in
    elim (Opening-cases (w.open_file e.file_path)) [
      | inl o ↦
          subst (MovesTo s) (sym (first_from-opened w from all e es s o))
            (steps s (advance s) e es (e ∷ []) refl refl refl h (inr ([], refl, refl)) wf)
      | inr other ↦ elim other [
        | inl o ↦ subst (MovesTo s) (sym (first_from-missing w from all e es s o)) (
            Moves-trans s (advance s) _ [] _ wf one (
              first_from-Moves w from all es (advance s) (drop-suc s.idx s.entries es e h).0
                one.is_wf))
        | inr o ↦
            subst (MovesTo s) (sym (first_from-failed w from all e es s o))
              (stays s s refl refl refl wf)
      ]
    ]

All-seen :
    (es : List RecordingEntry)
    → All (λ (e : RecordingEntry). contains e.id (map (λ (x : RecordingEntry). x.id) es) ≡ true) es
All-seen [] = tt
All-seen (e ∷ es) = (
  contains_self e.id (map (λ x. x.id) es),
  All-map_of _ _ (λ f t. contains-cons f.id e.id (map (λ x. x.id) es) t) es (All-seen es),
)

new_source-Wf :
    (es : List RecordingEntry) (follow : Bool) (ch : String) (stamp : Bool) (idx : Index)
    → Distinct es
    → Wf (new_source es 0 follow ch stamp idx)
new_source-Wf es follow ch stamp idx d = record {
  in_bounds = omega arith;
  distinct = d;
  are_seen = All-seen es;
}

demuxer_on-plays :
    (w : World) (ch : String) (from : Time) (follow : Bool)
    (r : Index × Result (List RecordingEntry)) (calls : List (World × List World))
    (es : List RecordingEntry)
    → r.1 ≡ ok es
    → Distinct es
    → Distinct (
        played (demuxer_on w ch from follow r).1
        ++ (play calls (demuxer_on w ch from follow r).0).1)
demuxer_on-plays w ch from follow (idx, err x) calls es q d = cc
demuxer_on-plays w ch from follow (idx, ok xs) calls es q d =
    let s = new_source xs 0 follow ch false idx in
    let same : es ≡ xs = cc in
    let wf = new_source-Wf xs follow ch false idx (subst Distinct same d) in
    let r = first_from w from xs xs s in
    let first = first_from-Moves w from xs xs s refl wf in
    let later = play-Moves calls r.0 first.is_wf in
    let m = Moves-trans s r.0 _ (played r.1) _ wf first later in
    Distinct-Sub _ m.passed m.some_played
      (Distinct-append_left m.passed _ (subst Distinct m.split m.is_wf.distinct))

-- A recorded stream plays no segment twice: whatever is done to the index between the queries of its
-- `Next` calls, the first segment that the factory opens and the segments of all those calls have
-- different ids, if the entries of the factory's query do.
pub recorded_demuxer-plays_once :
    (w : World) (ch : String) (from to : Time) (idx : Index) (calls : List (World × List World))
    (es : List RecordingEntry)
    → (query_by_channel w.db ch from to idx).1 ≡ ok es
    → Distinct es
    → Distinct (
        played (recorded_demuxer w ch from to idx).1
        ++ (play calls (recorded_demuxer w ch from to idx).0).1)
unfolding recorded_demuxer
recorded_demuxer-plays_once w ch from to idx calls es q d =
    demuxer_on-plays w ch from (is_zero to) (query_by_channel w.db ch from to idx) calls es q d
