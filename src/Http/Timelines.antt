-- ===== src/Http/Timelines.antt =====
-- pkg/edgeview/http_handler.go and timeline.go: the recordings of a time range.
pub mod Agree
use vrtc.Base.{
  ◌++◌, length, take, drop, ◌+◌, ◌-◌, ℕ, ◌*◌, ◌≤◌, ◌≡◌, refl, Bool, true, false, Option, none, some,
  List, [], ◌∷◌, map, String, ltb, arith, if◌then◌else◌,
}
use vrtc.Base.Int.{ℤ, pos, negsuc, positive, quot}
use vrtc.Clock.{Time, sub_time}
use vrtc.Recorder.Entry.{RecordingEntry, Status}
use vrtc.Recorder.Index
use vrtc.Recorder.Index.{Index, Env}
use vrtc.View.Resolve.{timeline}
use vrtc.Http.Page.{PaginatedInput, Page, min, effective_limit}
use vrtc.Http.Range.{
  Response, problem, internal, Clock, Parsed, parsed, refused, parse_optional_time_range,
  parse_optional_int,
}
use vrtc.Http.Range

pub record TimelineSummary : Type 0 where
  pub start : Time
  pub end : Time
  pub duration_ms : ℤ
  pub has_events : Bool

pub record TimelineEntry : Type 0 where
  pub id : String
  pub start : Time
  pub end : Time
  pub duration_ms : ℤ
  pub size_bytes : ℤ
  pub status : Status
  pub has_motion : Bool
  pub has_objects : Bool

pub record TimelineInput : Type 0 where
  pub paginated : PaginatedInput
  pub camera_id : String
  pub start : String
  pub end : String

-- The items of the two handlers; `d.Milliseconds()` rounds toward 0.
abbrev pub summary_of : RecordingEntry → TimelineSummary
summary_of e = record {
  start = e.start_time;
  end = e.end_time;
  duration_ms = quot (sub_time e.end_time e.start_time) 1_000_000;
  has_events = e.has_events;
}

abbrev pub entry_of : RecordingEntry → TimelineEntry
entry_of e = record {
  id = e.id;
  start = e.start_time;
  end = e.end_time;
  duration_ms = quot (sub_time e.end_time e.start_time) 1_000_000;
  size_bytes = e.size_bytes;
  status = e.status;
  has_motion = e.has_motion;
  has_objects = e.has_objects;
}

-- `Timeline` of a service that may have no index, and the answer to the request.
abbrev pub timeline_on :
    Env → String → Time × Time → Option Index → Option Index × Option (List RecordingEntry)
timeline_on env ch (start, end) none = (none, none)
timeline_on env ch (start, end) (some idx) = found (timeline env ch start end idx)
  where
    found : Index × Index.Result (List RecordingEntry) → Option Index × Option (List RecordingEntry)
    found (idx, Index.err e) = (some idx, none)
    found (idx, Index.ok es) = (some idx, some es)

-- A query that went well is measured, where metrics are collected: by the cameras queried, newest
-- first.
pub record State : Type 0 where
  pub index : Option Index
  pub collector : Option (List String)

abbrev pub record_query : String → Option (List String) → Option (List String)
record_query ch none = none
record_query ch (some queries) = some (ch ∷ queries)

-- `humaGetTimeline`: its loop fills a slice of the right length, and its end makes the page.
unfoldable pub fill_summaries : List RecordingEntry → List TimelineSummary
fill_summaries [] = []
fill_summaries (e ∷ es) = summary_of e ∷ fill_summaries es

abbrev pub timeline_page : PaginatedInput → List TimelineSummary → Page TimelineSummary
timeline_page input result =
    let total = length result in
    let limit = effective_limit input.limit in
    let offset = min input.offset total in
    let end = min (offset + limit) total in
    record {
      items = take (end - offset) (drop offset result);
      total_count = total;
      limit = limit;
      offset = offset;
    }

abbrev pub timeline_answer :
    TimelineInput
    → Option Index × Option (List RecordingEntry)
    → Option (List String)
    → State × Response (Page TimelineSummary)
timeline_answer input (idx, none) collector =
    (record { index = idx; collector = collector }, problem 500 internal)
timeline_answer input (idx, some es) collector = (
  record { index = idx; collector = record_query input.camera_id collector },
  Range.ok (timeline_page input.paginated (fill_summaries es)),
)

abbrev pub timeline_in :
    Env → TimelineInput → Parsed (Time × Time) → State → State × Response (Page TimelineSummary)
timeline_in env input (refused c) st = (st, problem 400 c)
timeline_in env input (parsed range) st =
    timeline_answer input (timeline_on env input.camera_id range st.index) st.collector

unfoldable pub huma_get_timeline :
    Env → Clock → TimelineInput → State → State × Response (Page TimelineSummary)
huma_get_timeline env clock input st =
    timeline_in env input (parse_optional_time_range clock input.start input.end) st

-- `humaRecordingTimeline`: its loop appends to a slice, and its end makes a page in the same way.
unfoldable pub append_entries : List RecordingEntry → List TimelineEntry → List TimelineEntry
append_entries [] result = result
append_entries (e ∷ es) result = append_entries es (result ++ entry_of e ∷ [])

abbrev pub recordings_page : PaginatedInput → List TimelineEntry → Page TimelineEntry
recordings_page input result =
    let total = length result in
    let limit = effective_limit input.limit in
    let offset = min input.offset total in
    let end = min (offset + limit) total in
    record {
      items = take (end - offset) (drop offset result);
      total_count = total;
      limit = limit;
      offset = offset;
    }

abbrev pub recordings_answer :
    TimelineInput
    → Option Index × Option (List RecordingEntry)
    → Option (List String)
    → State × Response (Page TimelineEntry)
recordings_answer input (idx, none) collector =
    (record { index = idx; collector = collector }, problem 500 internal)
recordings_answer input (idx, some es) collector = (
  record { index = idx; collector = record_query input.camera_id collector },
  Range.ok (recordings_page input.paginated (append_entries es [])),
)

abbrev pub recordings_in :
    Env → TimelineInput → Parsed (Time × Time) → State → State × Response (Page TimelineEntry)
recordings_in env input (refused c) st = (st, problem 400 c)
recordings_in env input (parsed range) st =
    recordings_answer input (timeline_on env input.camera_id range st.index) st.collector

unfoldable pub huma_recording_timeline :
    Env → Clock → TimelineInput → State → State × Response (Page TimelineEntry)
huma_recording_timeline env clock input st =
    recordings_in env input (parse_optional_time_range clock input.start input.end) st
