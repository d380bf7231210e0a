-- ===== src/View/Source/Enriched.antt =====
-- pkg/edgeview/stream.go: recorded playback with analytics.
--
-- The merger of the SDK is told apart by what it reads: the analytics of the database, with those of
-- the live store behind them where there is one.
use vrtc.Base.{
  ℕ, ◌+◌, ◌≡◌, refl, ap, ◌∙◌, inl, inr, Bool, true, false, not, ◌&&◌, ◌||◌, Option, none, some,
  List, [], ◌∷◌, String, if◌then◌else◌,
}
use vrtc.Clock.{Time, is_zero}
use vrtc.Recorder.Entry.{RecordingEntry}
use vrtc.Recorder.Index.{Index, Result, ok, err, query_by_channel}
use vrtc.View.Source.Factory.{first_from-opened, first_from-missing, first_from-failed}
use vrtc.View.Source.Played.{Opening-cases}
use vrtc.View.Source.{
  World, opened, missing, failed, Outcome, segment, buffer, end_of_file, open_failure,
  query_failure, cancelled, no_demuxer, waiting, no_recordings, Source, new_source, first_from,
  demuxer_on, recorded_demuxer,
}

pub data AnalyticsSource : Type 0 where
  persisted composite : String → AnalyticsSource

-- What the factory answers: a merger over the chain of a source, one over the packet buffer, or an
-- error.
pub data Enriched : Type 0 where
  over_chain : Source → Outcome → AnalyticsSource → Enriched
  over_buffer : Outcome → AnalyticsSource → Enriched
  refused : Outcome → Enriched
  no_index : Enriched

-- `openFirstSegment`: a demuxer, stamped or not, and the next index; nothing; or an error.
pub data First : Type 0 where
  found : RecordingEntry → Bool → ℕ → First
  nothing_found first_failed : First

unfoldable pub open_first_segment : World → Bool → ℕ → List RecordingEntry → First
open_first_segment w stamp i [] = nothing_found
open_first_segment w stamp i (e ∷ es) =
    let rest = open_first_segment w stamp (i + 1) es in
    elim (w.open_file e.file_path) [
      | opened ↦ found e (stamp && not (is_zero e.start_time)) (i + 1)
      | missing ↦ rest
      | failed ↦ first_failed
    ]

-- `wrapWithAnalyticsMerger`, from whether there is a live source.
unfoldable pub analytics_source : Bool → String → AnalyticsSource
analytics_source has_live ch = if has_live then composite ch else persisted ch

unfoldable pub live_fallback : World → String → Time → Bool → Option Outcome
live_fallback w ch from follow =
    if not follow || not w.has_provider
    then none
    else if w.has_buffer ch
    then some (buffer from)
    else none

abbrev pub or_no_recordings : AnalyticsSource → Option Outcome → Enriched
or_no_recordings a none = refused no_recordings
or_no_recordings a (some dmx) = over_buffer dmx a

abbrev pub enriched_first :
    World → String → Time → Bool → AnalyticsSource → List RecordingEntry → Index → First → Enriched
enriched_first w ch from follow a es idx (found e stamped i) =
    over_chain (new_source es i follow ch true idx) (segment e stamped) a
enriched_first w ch from follow a es idx nothing_found =
    or_no_recordings a (live_fallback w ch from follow)
enriched_first w ch from follow a es idx first_failed = refused open_failure

abbrev pub enriched_on :
    World → String → Time → Bool → AnalyticsSource → Index × Result (List RecordingEntry) → Enriched
enriched_on w ch from follow a (idx, err x) = refused query_failure
enriched_on w ch from follow a (idx, ok es) =
    enriched_first w ch from follow a es idx (open_first_segment w true 0 es)

-- `AnalyticsRecordedDemuxerFactory`, of a service that may have no index.
unfoldable pub analytics_recorded_demuxer :
    World → String → Time → Time → Bool → Option Index → Enriched
analytics_recorded_demuxer w ch from to has_live none = no_index
analytics_recorded_demuxer w ch from to has_live (some idx) =
    enriched_on w ch from (is_zero to) (analytics_source has_live ch)
      (query_by_channel w.db ch from to idx)

-- `RecordedDemuxerFactory` in the same way.
abbrev pub recorded_if : World → String → Time → Time → Option Index → Option (Source × Outcome)
recorded_if w ch from to none = none
recorded_if w ch from to (some idx) = some (recorded_demuxer w ch from to idx)

-- A merger put over what the factory without analytics answers: segments that have a start are
-- stamped, those of the chain as well.
abbrev pub enrich : AnalyticsSource → Source × Outcome → Enriched
enrich a (s, segment e stamped) =
    over_chain (record s { wall_clock_stamp = true }) (segment e (not (is_zero e.start_time))) a
enrich a (s, buffer from) = over_buffer (buffer from) a
enrich a (s, end_of_file) = refused end_of_file
enrich a (s, open_failure) = refused open_failure
enrich a (s, query_failure) = refused query_failure
enrich a (s, cancelled) = refused cancelled
enrich a (s, no_demuxer) = refused no_demuxer
enrich a (s, waiting) = refused waiting
enrich a (s, no_recordings) = refused no_recordings

abbrev pub enrich_if : AnalyticsSource → Option (Source × Outcome) → Enriched
enrich_if a none = no_index
enrich_if a (some r) = enrich a r

fallback-eq :
    (w : World) (ch : String) (from : Time) (follow : Bool) (a : AnalyticsSource) (s : Source)
    → or_no_recordings a (live_fallback w ch from follow)
      ≡ enrich a (
          if follow && w.has_provider && w.has_buffer ch
          then (s, buffer from)
          else (s, no_recordings))
unfolding live_fallback
fallback-eq w ch from false a s = refl
fallback-eq w ch from true a s = at w.has_provider (w.has_buffer ch)
  where
    at :
        (p b : Bool)
        → or_no_recordings a
            (if not true || not p then none else if b then some (buffer from) else none)
          ≡ enrich a (if true && p && b then (s, buffer from) else (s, no_recordings))
    at false b = refl
    at true false = refl
    at true true = refl

open_first_segment-opened :
    (w : World) (stamp : Bool) (i : ℕ) (e : RecordingEntry) (es : List RecordingEntry)
    → w.open_file e.file_path ≡ opened
    → open_first_segment w stamp i (e ∷ es) ≡ found e (stamp && not (is_zero e.start_time)) (i + 1)
unfolding open_first_segment
open_first_segment-opened w stamp i e es o = rw (open_first_segment, o) refl

open_first_segment-missing :
    (w : World) (stamp : Bool) (i : ℕ) (e : RecordingEntry) (es : List RecordingEntry)
    → w.open_file e.file_path ≡ missing
    → open_first_segment w stamp i (e ∷ es) ≡ open_first_segment w stamp (i + 1) es
unfolding open_first_segment
open_first_segment-missing w stamp i e es o = rw (open_first_segment, o) refl

open_first_segment-failed :
    (w : World) (stamp : Bool) (i : ℕ) (e : RecordingEntry) (es : List RecordingEntry)
    → w.open_file e.file_path ≡ failed
    → open_first_segment w stamp i (e ∷ es) ≡ first_failed
unfolding open_first_segment
open_first_segment-failed w stamp i e es o = rw (open_first_segment, o) refl

first-eq :
    (w : World) (ch : String) (from : Time) (follow : Bool) (a : AnalyticsSource)
    (all es : List RecordingEntry) (i : ℕ) (idx : Index)
    → enriched_first w ch from follow a all idx (open_first_segment w true i es)
      ≡ enrich a (first_from w from all es (new_source all i follow ch false idx))
first-eq w ch from follow a all [] i idx =
    unfold open_first_segment first_from in
    fallback-eq w ch from follow a (new_source all i follow ch false idx)
first-eq w ch from follow a all (e ∷ es) i idx =
    let s = new_source all i follow ch false idx in
    let answer = enriched_first w ch from follow a all idx in
    elim (Opening-cases (w.open_file e.file_path)) [
      | inl o ↦
          rw (first_from-opened w from all e es s o)
            (ap answer (open_first_segment-opened w true i e es o))
      | inr other ↦ elim other [
        | inl o ↦ rw (first_from-missing w from all e es s o) (
            ap answer (open_first_segment-missing w true i e es o)
            ∙ first-eq w ch from follow a all es (i + 1) idx)
        | inr o ↦
            rw (first_from-failed w from all e es s o)
              (ap answer (open_first_segment-failed w true i e es o))
      ]
    ]

demuxer-eq :
    (w : World) (ch : String) (from : Time) (follow : Bool) (a : AnalyticsSource)
    (answer : Index × Result (List RecordingEntry))
    → enriched_on w ch from follow a answer ≡ enrich a (demuxer_on w ch from follow answer)
demuxer-eq w ch from follow a (idx, err x) = refl
demuxer-eq w ch from follow a (idx, ok es) = first-eq w ch from follow a es es 0 idx

-- The factory with analytics answers as the one without, under a merger and with wall clock stamps: it
-- opens the same segment and goes on from the same source, falls back to the same packet buffer, and
-- fails with the same error, without an index too.
pub analytics_recorded_demuxer-recorded_demuxer :
    (w : World) (ch : String) (from to : Time) (has_live : Bool) (o : Option Index)
    → analytics_recorded_demuxer w ch from to has_live o
      ≡ enrich_if (analytics_source has_live ch) (recorded_if w ch from to o)
unfolding analytics_recorded_demuxer recorded_demuxer
analytics_recorded_demuxer-recorded_demuxer w ch from to has_live none = refl
analytics_recorded_demuxer-recorded_demuxer w ch from to has_live (some idx) =
    demuxer-eq w ch from (is_zero to) (analytics_source has_live ch)
      (query_by_channel w.db ch from to idx)
