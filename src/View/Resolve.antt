-- ===== src/View/Resolve.antt =====
-- pkg/edgeview/stream.go: where a playback starts, the timeline and the viewers.
use vrtc.Base.{
  ◌≤◌, ◌≡◌, ◌≢◌, refl, sym, subst, ◌⊎◌, inl, inr, Bool, false, Bool-cases, Option, none, some, List,
  [], ◌∷◌, String, arith, if◌then◌else◌,
}
use vrtc.Base.Int.{ℤ, pos, add64, sub64}
use vrtc.Clock.{Time, before, after}
use vrtc.Recorder.Entry.{RecordingEntry}
use vrtc.Recorder.Index.{
  Index, Env, Result, ok, err, query_by_channel, first_available, last_available,
}

-- Where and how a playback starts.
pub data Start : Type 0 where
  recorded first_recorded : Time → Start
  live no_index nothing_found query_failed : Start

abbrev pub from_first : Index × Result RecordingEntry → Index × Start
from_first (idx, err x) = (idx, nothing_found)
from_first (idx, ok e) = (idx, first_recorded e.start_time)

abbrev pub from_query : Env → String → Time → Index × Result (List RecordingEntry) → Index × Start
from_query env ch from (idx, err x) = (idx, query_failed)
from_query env ch from (idx, ok []) = from_first (first_available env ch idx)
from_query env ch from (idx, ok (e ∷ es)) =
    (idx, recorded (if before from e.start_time then e.start_time else from))

abbrev pub from_last : Env → String → Time → Time → Index × Result RecordingEntry → Index × Start
from_last env ch from to (idx, err x) = (idx, if after from env.now then live else nothing_found)
from_last env ch from to (idx, ok e) =
    let queried = from_query env ch from (query_by_channel env ch from to idx) in
    if after from e.end_time then (idx, live) else queried

-- `ResolvePlaybackStart` on a service with an index.
unfoldable pub resolve_playback_start : Env → String → Time → Time → Index → Index × Start
resolve_playback_start env ch from to idx = from_last env ch from to (last_available env ch idx)

-- The same on a service that may have none.
abbrev pub resolve_on : Env → String → Time → Time → Option Index → Option Index × Start
resolve_on env ch from to none = (none, no_index)
resolve_on env ch from to (some idx) =
    let r = resolve_playback_start env ch from to idx in (some r.0, r.1)

unfoldable pub timeline : Env → String → Time → Time → Index → Index × Result (List RecordingEntry)
timeline env ch start end idx = query_by_channel env ch start end idx

-- The viewers: the count, and the consumers that are tracked and not released.
unfoldable pub track_consumer : ℤ → ℤ
track_consumer n = add64 n (pos 1)

unfoldable pub release_consumer : ℤ → ℤ
release_consumer n = sub64 n (pos 1)

from_first-start :
    (r : Index × Result RecordingEntry) (t : Time)
    → (from_first r).1 ≡ first_recorded t
    → (e : RecordingEntry) × (r.1 ≡ ok e) × (e.start_time ≡ t)
from_first-start (idx, err x) t h = cc
from_first-start (idx, ok e) t h = (e, refl, cc)

from_first-not_recorded :
    (r : Index × Result RecordingEntry) (t : Time) → (from_first r).1 ≢ recorded t
from_first-not_recorded (idx, err x) t h = cc
from_first-not_recorded (idx, ok e) t h = cc

-- The start of a recorded playback, by the answer of the range query.
abbrev pub IsSnapped : Time → Time → List RecordingEntry → Type 0
IsSnapped from t es =
    (e : RecordingEntry) × (rest : List RecordingEntry) × (es ≡ e ∷ rest)
    × (from ≤ t)
    × (e.start_time ≤ t)
    × ((t ≡ from) ⊎ (t ≡ e.start_time))

snap :
    (from start t : Time)
    → (if before from start then start else from) ≡ t
    → (from ≤ t) × (start ≤ t) × ((t ≡ from) ⊎ (t ≡ start))
snap from start t q =
    let at : Bool → Type 0 = λ c. (if c then start else from) ≡ t in
    elim (Bool-cases (before from start)) [
      | inl b ↦ let p = subst at b q in (ground (arith, b, p), omega (arith, p), inr (sym p))
      | inr b ↦ let p = subst at b q in (omega (arith, p), ground (arith, b, p), inl (sym p))
    ]

from_query-recorded :
    (env : Env) (ch : String) (from : Time) (r : Index × Result (List RecordingEntry)) (t : Time)
    → (from_query env ch from r).1 ≡ recorded t
    → (es : List RecordingEntry) × (r.1 ≡ ok es) × IsSnapped from t es
from_query-recorded env ch from (idx, err x) t h = cc
from_query-recorded env ch from (idx, ok []) t h =
    absurd (from_first-not_recorded (first_available env ch idx) t h)
from_query-recorded env ch from (idx, ok (e ∷ es)) t h =
    let q : (if before from e.start_time then e.start_time else from) ≡ t = cc in
    let (late, within, at) = snap from e.start_time t q in
    (e ∷ es, refl, (e, es, refl, late, within, at))

from_last-recorded :
    (env : Env) (ch : String) (from to : Time) (r : Index × Result RecordingEntry) (t : Time)
    → (from_last env ch from to r).1 ≡ recorded t
    → (last : RecordingEntry) × (r.1 ≡ ok last)
      × (after from last.end_time ≡ false)
      × ((from_query env ch from (query_by_channel env ch from to r.0)).1 ≡ recorded t)
from_last-recorded env ch from to (idx, err x) t h = elim (Bool-cases (after from env.now)) [
  | inl b ↦ let c = subst (λ (c : Bool). (if c then live else nothing_found) ≡ recorded t) b h in cc
  | inr b ↦ let c = subst (λ (c : Bool). (if c then live else nothing_found) ≡ recorded t) b h in cc
]
from_last-recorded env ch from to (idx, ok e) t h =
    let queried = from_query env ch from (query_by_channel env ch from to idx) in
    let at : Bool → Type 0 = λ c. (if c then (idx, live) else queried).1 ≡ recorded t in
    elim (Bool-cases (after from e.end_time)) [
      | inl b ↦ let c = subst at b h in cc
      | inr b ↦ (e, refl, b, subst at b h)
    ]

-- Where a playback is resolved as recorded, the last recording does not end before the position asked
-- for, the range query has an answer, and the playback starts at that position or at the start of
-- the first entry, whichever is later.
pub resolve-recorded :
    (env : Env) (ch : String) (from to : Time) (idx : Index) (t : Time)
    → (resolve_playback_start env ch from to idx).1 ≡ recorded t
    → (last : RecordingEntry) × ((last_available env ch idx).1 ≡ ok last)
      × (from ≤ last.end_time)
      × (es : List RecordingEntry) × ((query_by_channel env ch from to
            (last_available env ch idx).0).1
          ≡ ok es)
      × IsSnapped from t es
unfolding resolve_playback_start
resolve-recorded env ch from to idx t h =
    let (last, l, b, q) = from_last-recorded env ch from to (last_available env ch idx) t h in
    let (es, e, s) =
      from_query-recorded env ch from
        (query_by_channel env ch from to (last_available env ch idx).0) t q in
    (last, l, ground (arith, b), es, e, s)
