-- ===== src/View/Tests.antt =====
-- Playback at concrete inputs: two segments of a camera, ten days apart.
use vrtc.Base.{
  none, ◌+◌, ◌*◌, ◌≤◌, ◌≡◌, refl, true, false, some, List, [], ◌∷◌, ◌++◌, drop, arith, insert_by,
  sort_by,
}
use vrtc.Base.Assoc.{get, put}
use vrtc.Base.Int.{pos}
use vrtc.Clock.{day, second, sub_time}
use vrtc.Recorder.Entry.{RecordingEntry, complete}
use vrtc.Recorder.Stamp.{format, parse, fraction, parse_fraction, parse_suffix, stamp_le, text_le}
use vrtc.Recorder.Table.{select_range, insert_row, scan_row, last_row}
use vrtc.Recorder.Index.{
  Index, Env, ok, contains, new_index, write_db, touch, open_handle, make_room, get_db, insert,
  query_by_channel, last_available,
}
use vrtc.View.Source.{
  opened, missing, World, segment, end_of_file, Source, open_next, open_from, next, follow_on,
  first_from, recorded_demuxer, new_source, track_gap, absorb, poll_once, wait_for_next, wait_from,
  try_live_transition,
}
use vrtc.View.Source.Chain.{Distinct, Sub, Wf}
use vrtc.View.Source.Played.{played}
use vrtc.View.Source.Played.Runs.{play, play-ordered}
use vrtc.View.Source.Factory.{recorded_demuxer-plays_once}
use vrtc.View.Session
use vrtc.View.Session.Seek
use vrtc.View.Session.Service.{serve-viewers, play-twice}
use vrtc.View.Source.Enriched.{
  analytics_recorded_demuxer, analytics_source, enrich_if, recorded_if,
  analytics_recorded_demuxer-recorded_demuxer,
}
use vrtc.View.Resolve.{recorded, resolve_playback_start, IsSnapped, resolve-recorded}

abbrev early : RecordingEntry
early = record {
  id = "early";
  channel_id = "cam-1";
  start_time = 30 * day;
  end_time = 30 * day + 5 * second;
  file_path = "a.fmp4";
  size_bytes = pos 1;
  status = complete;
  has_motion = false;
  has_objects = false;
  has_events = false;
}

abbrev late : RecordingEntry
late = record early {
  id = "late";
  start_time = 40 * day;
  end_time = 40 * day + 5 * second;
  file_path = "b.fmp4";
}

abbrev fine : Env
fine = record { now = 41 * day; answers = λ ch. true; closes = λ ch. true; listing = some [] }

abbrev filled : Index
filled = (insert fine late (insert fine early (new_index [])).0).0

-- A world in which every file opens, and one in which all are gone.
abbrev world : World
world = record {
  now = 41 * day;
  db = fine;
  meanwhile = λ i. i;
  open_file = λ p. opened;
  has_provider = false;
  has_buffer = λ ch. false;
  is_cancelled = false;
}

abbrev gone : World
gone = record world { open_file = λ p. missing }

-- Unfolds what the index and the source compute with.
abbrev machinery : Unit {0}
unfolding new_index insert query_by_channel get_db open_handle make_room touch write_db contains get
    put insert_row select_range format fraction parse parse_fraction parse_suffix stamp_le text_le
    sort_by insert_by scan_row last_available last_row open_next open_from first_from
    recorded_demuxer track_gap sub_time next follow_on resolve_playback_start
machinery = tt

filled_query : (query_by_channel fine "cam-1" 0 0 filled).1 ≡ ok (early ∷ late ∷ [])
unfolding machinery
filled_query = refl

abbrev both : List RecordingEntry
both = early ∷ late ∷ []

early-Distinct : Distinct both
early-Distinct = (((λ q. cc), tt), (tt, tt))

abbrev source : Source
source = new_source both 0 false "cam-1" false filled

source-Wf : Wf source
unfolding contains
source-Wf = record {
  in_bounds = omega arith;
  distinct = early-Distinct;
  are_seen = (refl, (refl, tt));
}

-- While the second call polls, the recorder has finished a segment.
abbrev newest : RecordingEntry
newest = record early {
  id = "newest";
  start_time = 41 * day;
  end_time = 41 * day + 5 * second;
  file_path = "c.fmp4";
}

abbrev recording : World
recording = record world { meanwhile = λ i. (insert fine newest i).0 }

abbrev calls : List (World × List World)
calls = (world, []) ∷ (recording, []) ∷ (recording, []) ∷ []

play-ordered_example :
    (passed : List RecordingEntry) × (drop 0 (play calls source).0.entries
      ≡ passed ++ drop (play calls source).0.idx (play calls source).0.entries)
    × Sub (play calls source).1 passed
play-ordered_example = play-ordered calls source source-Wf

newest_played : (play calls (recorded_demuxer world "cam-1" 0 0 filled).0).1 ≡ late ∷ newest ∷ []
unfolding machinery play absorb poll_once wait_for_next wait_from try_live_transition
newest_played = refl

recorded_demuxer-plays_once_example : Distinct (
    played (recorded_demuxer world "cam-1" 0 0 filled).1
    ++ (play calls (recorded_demuxer world "cam-1" 0 0 filled).0).1)
recorded_demuxer-plays_once_example =
    recorded_demuxer-plays_once world "cam-1" 0 0 filled calls both filled_query early-Distinct

-- The source behind the first segment, with its end noted.
abbrev after_early : Source
after_early = record source { idx = 1; last_seg_end = 30 * day + 5 * second }

late_opens : (open_next world after_early).1 ≡ segment late false
unfolding machinery
late_opens = refl

late_next : (open_next world (recorded_demuxer world "cam-1" 0 0 filled).0).1 ≡ segment late false
unfolding machinery
late_next = refl

all_gone : (next gone [] source).1 ≡ end_of_file
unfolding machinery
all_gone = refl

snapped : (resolve_playback_start fine "cam-1" (35 * day) 0 filled).1 ≡ recorded (40 * day)
unfolding machinery
snapped = refl

resolve-recorded_example :
    (last : RecordingEntry) × ((last_available fine "cam-1" filled).1 ≡ ok last)
    × (35 * day ≤ last.end_time)
    × (es : List RecordingEntry) × ((query_by_channel fine "cam-1"
          (35 * day)
          0
          (last_available fine "cam-1" filled).0).1
        ≡ ok es)
    × IsSnapped (35 * day) (40 * day) es
resolve-recorded_example = resolve-recorded fine "cam-1" (35 * day) 0 filled (40 * day) snapped

abbrev answers : Session.World
answers = record {
  now = 41 * day;
  db = fine;
  new_hub = 1;
  hub_starts = true;
  new_writer = some 2;
  consumed = some 3;
  codec_string = λ m. "avc1";
  add_offset = λ t d. t;
}

abbrev session : Session.Session
session = record {
  camera_id = "cam-1";
  play_sm = none;
  ms = none;
  consumer = none;
  is_live = true;
  live_handle = none;
  is_tracked = false;
  last_seq_seen = pos 0;
  last_seek_time = 0;
  last_mode = none;
  last_codec_str = "";
  index = some filled;
  viewers = pos 0;
  calls = [];
}

-- A live session that plays, seeks to a recording and back to now, and ends.
abbrev commands : List (Session.World × Seek.Command)
commands =
    (answers, Seek.play)
    ∷ (answers, Seek.seek (Seek.to_time (35 * day)) (pos 1))
    ∷ (answers, Seek.seek Seek.to_now (pos 2))
    ∷ []

serve-viewers_example : (Seek.serve answers 0 commands session).viewers ≡ pos 0
unfolding Session.start_session Session.start_live
serve-viewers_example =
    serve-viewers 0 (omega arith) answers 0 commands session refl refl (refl, (tt, (tt, tt)))

play-twice_example :
    (Session.stop (Seek.step answers Seek.play (Seek.step answers Seek.play session).0).0).viewers
    ≡ pos 1
play-twice_example = play-twice answers answers session 2 2 3 3 refl refl refl refl refl refl

analytics_recorded_demuxer-recorded_demuxer_example :
    analytics_recorded_demuxer world "cam-1" 0 0 true (some filled)
    ≡ enrich_if (analytics_source true "cam-1") (recorded_if world "cam-1" 0 0 (some filled))
analytics_recorded_demuxer-recorded_demuxer_example =
    analytics_recorded_demuxer-recorded_demuxer world "cam-1" 0 0 true (some filled)
