-- ===== src/View/Source.antt =====
-- pkg/edgeview/stream.go: `indexSource`, which chains the segments of a channel.
--
-- One poll of the index and the opens after it read one `World`: the answers of the database, of
-- opening a file, and of the buffer provider. The index is shared with the recorder, which may have
-- done anything to it since the last query: that is `meanwhile`, and every query reads what it
-- leaves. A demuxer is told apart by what it plays: a segment, stamped with the wall clock or not, or
-- the packet buffer from an instant on.
pub mod Chain
pub mod Played
pub mod Gap
pub mod Factory
pub mod Enriched
use vrtc.Base.{
  ℕ, ◌+◌, ◌-◌, ◌*◌, Bool, true, false, not, ◌&&◌, ◌||◌, Option, none, some, List, [], ◌∷◌, ◌++◌,
  map, String, if◌then◌else◌, length, drop,
}
use vrtc.Base.Int.{ℤ, pos, leb_ℤ}
use vrtc.Clock.{Time, zero_time, is_zero, second, sub_time}
use vrtc.Recorder.Entry.{RecordingEntry}
use vrtc.Recorder.Index.{Index, Env, Result, ok, err, contains, query_by_channel}

-- What opening a file comes to.
pub data Opening : Type 0 where
  opened missing failed : Opening

pub record World : Type 0 where
  pub now : Time
  pub db : Env
  pub meanwhile : Index → Index
  pub open_file : String → Opening
  pub has_provider : Bool
  pub has_buffer : String → Bool
  pub is_cancelled : Bool

-- `no_demuxer` is the pair (nil, nil); `waiting` means that the polls ran out while it still waits.
pub data Outcome : Type 0 where
  segment : RecordingEntry → Bool → Outcome
  buffer : Time → Outcome
  end_of_file open_failure query_failure cancelled no_demuxer waiting no_recordings : Outcome

pub record Source : Type 0 where
  pub entries : List RecordingEntry
  pub idx : ℕ
  pub seen_ids : List String
  pub follow : Bool
  pub channel_id : String
  pub used_buf : Bool
  pub wall_clock_stamp : Bool
  pub last_seg_end : Time
  pub last_gap : ℤ
  pub index : Index

abbrev pub gap_threshold : ℕ
gap_threshold = 5 * second

-- The gap that a segment opens with: zero unless it is at least the threshold.
abbrev pub gap_before : Time → RecordingEntry → ℤ
gap_before seg_end e =
    let gap = sub_time e.start_time seg_end in
    if not (is_zero seg_end) && not (is_zero e.start_time)
    then if leb_ℤ (pos gap_threshold) gap then gap else pos 0
    else pos 0

-- `openEntry` once its file is open.
unfoldable pub track_gap : RecordingEntry → Source → Source
track_gap e s = record s {
  last_gap = gap_before s.last_seg_end e;
  last_seg_end = if is_zero e.end_time then s.last_seg_end else e.end_time;
}

abbrev pub is_stamped : RecordingEntry → Source → Bool
is_stamped e s = s.wall_clock_stamp && not (is_zero e.start_time)

-- The loop that opens the entries from the cursor on: a missing file is skipped.
abbrev pub advance : Source → Source
advance s = record s { idx = s.idx + 1 }

unfoldable pub open_from : World → List RecordingEntry → Source → Source × Outcome
open_from w [] s = (s, no_demuxer)
open_from w (e ∷ es) s =
    let rest = open_from w es (advance s) in
    elim (w.open_file e.file_path) [
      | opened ↦ (track_gap e (advance s), segment e (is_stamped e s))
      | missing ↦ rest
      | failed ↦ (advance s, open_failure)
    ]

unfoldable pub open_next : World → Source → Source × Outcome
open_next w s = open_from w (drop s.idx s.entries) s

-- Appends the entries that were not seen before.
unfoldable pub absorb : List RecordingEntry → Source → Source
absorb [] s = s
absorb (e ∷ es) s =
    let skip = absorb es s in
    let added =
      absorb es (record s { seen_ids = e.id ∷ s.seen_ids; entries = s.entries ++ e ∷ [] }) in
    if contains e.id s.seen_ids then skip else added

-- The end of the last entry, or the zero time.
abbrev pub after_time : Time → List RecordingEntry → Time
after_time t [] = t
after_time t (e ∷ es) = after_time e.end_time es

abbrev pub on_poll :
    World → Index × Result (List RecordingEntry) → Outcome → Source → Source × Outcome
on_poll w (idx, err x) otherwise s = (record s { index = idx }, otherwise)
on_poll w (idx, ok es) otherwise s = open_next w (absorb es (record s { index = idx }))

abbrev pub poll_at : World → Time → Outcome → Source → Source × Outcome
poll_at w t otherwise s =
    on_poll w (query_by_channel w.db s.channel_id t zero_time (w.meanwhile s.index)) otherwise s

-- `waitForNextWithTimeout`: one poll, whose query failure counts as no demuxer.
unfoldable pub poll_once : World → Source → Source × Outcome
poll_once w s = poll_at w (after_time zero_time s.entries) no_demuxer s

-- Goes on where there was neither a demuxer nor an error.
abbrev pub or_else : Source × Outcome → (Source → Source × Outcome) → Source × Outcome
or_else (s, no_demuxer) k = k s
or_else (s, segment e b) k = (s, segment e b)
or_else (s, buffer since) k = (s, buffer since)
or_else (s, end_of_file) k = (s, end_of_file)
or_else (s, open_failure) k = (s, open_failure)
or_else (s, query_failure) k = (s, query_failure)
or_else (s, cancelled) k = (s, cancelled)
or_else (s, waiting) k = (s, waiting)
or_else (s, no_recordings) k = (s, no_recordings)

-- `waitForNext`: a poll for each world of the list, until one gives a demuxer or an open error.
unfoldable pub wait_from : Time → List World → Source → Source × Outcome
wait_from t [] s = (s, waiting)
wait_from t (w ∷ ws) s =
    let polled = or_else (poll_at w t no_demuxer s) (wait_from t ws) in
    if w.is_cancelled then (s, cancelled) else polled

unfoldable pub wait_for_next : List World → Source → Source × Outcome
wait_for_next ws s = wait_from (after_time zero_time s.entries) ws s

-- `tryLiveTransition`: the buffer plays from the end of the last entry, or the last half minute.
unfoldable pub try_live_transition : World → Source → Source × Outcome
try_live_transition w s =
    if s.used_buf || not w.has_provider || not (w.has_buffer s.channel_id)
    then (s, no_demuxer)
    else (record s { used_buf = true }, buffer (after_time (w.now - 30 * second) s.entries))

-- After the entries at hand: the end, or a poll, the buffer, and further polls.
unfoldable pub follow_on : World → List World → Source → Source × Outcome
follow_on w ws s =
    if not s.follow
    then (s, end_of_file)
    else or_else (poll_once w s) λ s. or_else (try_live_transition w s) (wait_for_next ws)

unfoldable pub next : World → List World → Source → Source × Outcome
next w ws s = or_else (open_next w s) (follow_on w ws)

-- The ids of all entries, put before those seen already.
abbrev pub see : List RecordingEntry → List String → List String
see es seen = map (λ e. e.id) es ++ seen

-- The loop of `OpenAt`, at position `i` of the answer.
unfoldable pub open_at_from :
    World → List RecordingEntry → ℕ → List RecordingEntry → Source → Source × Outcome
open_at_from w all i [] s = (s, end_of_file)
open_at_from w all i (e ∷ es) s =
    let rest = open_at_from w all (i + 1) es s in
    elim (w.open_file e.file_path) [
      | opened ↦ (
        record s {
          entries = all;
          idx = i + 1;
          seen_ids = see all s.seen_ids;
          last_gap = pos 0;
          last_seg_end = if is_zero e.end_time then s.last_seg_end else e.end_time;
        },
        segment e (is_stamped e s),
      )
      | missing ↦ rest
      | failed ↦ (s, open_failure)
    ]

abbrev pub open_at_on : World → Index × Result (List RecordingEntry) → Source → Source × Outcome
open_at_on w (idx, err x) s = (record s { index = idx }, query_failure)
open_at_on w (idx, ok es) s = open_at_from w es 0 es (record s { index = idx })

unfoldable pub open_at : World → Time → Source → Source × Outcome
open_at w ts s =
    open_at_on w (query_by_channel w.db s.channel_id ts zero_time (w.meanwhile s.index)) s

-- The source that a demuxer factory starts from.
abbrev pub new_source : List RecordingEntry → ℕ → Bool → String → Bool → Index → Source
new_source es i follow ch stamp idx = record {
  entries = es;
  idx = i;
  seen_ids = map (λ e. e.id) es;
  follow = follow;
  channel_id = ch;
  used_buf = false;
  wall_clock_stamp = stamp;
  last_seg_end = zero_time;
  last_gap = pos 0;
  index = idx;
}

-- `openFirstSegment`, with what the factory makes of its answer: the source behind the first
-- segment, or else the packet buffer where it follows and there is one.
unfoldable pub first_from :
    World → Time → List RecordingEntry → List RecordingEntry → Source → Source × Outcome
first_from w from all [] s =
    if s.follow && w.has_provider && w.has_buffer s.channel_id
    then (s, buffer from)
    else (s, no_recordings)
first_from w from all (e ∷ es) s =
    let rest = first_from w from all es (advance s) in
    elim (w.open_file e.file_path) [
      | opened ↦ (advance s, segment e (is_stamped e s))
      | missing ↦ rest
      | failed ↦ (s, open_failure)
    ]

abbrev pub demuxer_on :
    World → String → Time → Bool → Index × Result (List RecordingEntry) → Source × Outcome
demuxer_on w ch from follow (idx, err x) = (new_source [] 0 follow ch false idx, query_failure)
demuxer_on w ch from follow (idx, ok es) =
    first_from w from es es (new_source es 0 follow ch false idx)

-- `RecordedDemuxerFactory` of a service that has an index: a zero end follows.
unfoldable pub recorded_demuxer : World → String → Time → Time → Index → Source × Outcome
recorded_demuxer w ch from to idx =
    demuxer_on w ch from (is_zero to) (query_by_channel w.db ch from to idx)
