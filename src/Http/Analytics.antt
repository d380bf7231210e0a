-- ===== src/Http/Analytics.antt =====
-- pkg/edgeview/http_analytics.go: queries of the stored analytics.
use vrtc.Base.{ℕ, Bool, true, false, Option, none, some, List, String, ltb, if◌then◌else◌}
use vrtc.Base.Int.{ℤ, pos, negsuc}
use vrtc.Clock.{Time}
use vrtc.Http.Page.{PaginatedInput, Page, effective_limit}
use vrtc.Http.Range.{
  Response, problem, internal, Clock, Parsed, parsed, refused, parse_optional_time_range,
  parse_optional_int,
}
use vrtc.Http.Range
use vrtc.Http.Timelines.{TimelineInput}

-- The options of a query of the analytics.
pub record QueryOpts : Type 0 where
  pub limit : ℕ
  pub offset : ℕ
  pub class_id : Option ℤ
  pub min_confidence : Option ℤ
  pub events_only : Bool

-- The persistence reader of the SDK: the frames of a query with the number of all, the frames of a
-- track, and counts in buckets; none is an error. A frame and a bucket are what the SDK has.
pub record Reader (Frame Bucket : Type 0) : Type 0 where
  pub query_frames : String → Time → Time → QueryOpts → Option (List Frame × ℕ)
  pub search_by_track_id : String → ℤ → Time → Time → QueryOpts → Option (List Frame × ℕ)
  pub counts_by_interval : String → Time → Time → ℕ → Option (List Bucket)

pub record AnalyticsInput : Type 0 where
  pub query : TimelineInput
  pub class_id : String
  pub min_confidence : String

module _ {Frame Bucket : Type 0} (reader : Reader Frame Bucket) (clock : Clock) where
  abbrev pub frames_or_problem : PaginatedInput → Option (List Frame × ℕ) → Response (Page Frame)
  frames_or_problem p none = problem 500 internal
  frames_or_problem p (some (frames, total)) = Range.ok (record {
    items = frames;
    total_count = total;
    limit = effective_limit p.limit;
    offset = p.offset;
  })

  abbrev pub opts_of : PaginatedInput → Bool → Option ℤ → Option ℤ → QueryOpts
  opts_of p events class confidence = record {
    limit = effective_limit p.limit;
    offset = p.offset;
    class_id = class;
    min_confidence = confidence;
    events_only = events;
  }

  abbrev pub query_analytics :
      TimelineInput
      → Parsed (Time × Time)
      → Parsed (Option ℤ)
      → Parsed (Option ℤ)
      → Response (Page Frame)
  query_analytics input (refused c) class confidence = problem 400 c
  query_analytics input (parsed r) (refused c) confidence = problem 400 c
  query_analytics input (parsed r) (parsed class) (refused c) = problem 400 c
  query_analytics input (parsed (s, e)) (parsed class) (parsed confidence) =
      frames_or_problem input.paginated
        (reader.query_frames input.camera_id s e (opts_of input.paginated false class confidence))

  unfoldable pub huma_get_analytics : AnalyticsInput → Response (Page Frame)
  huma_get_analytics input =
      query_analytics input.query
        (parse_optional_time_range clock input.query.start input.query.end)
        (parse_optional_int clock input.class_id) (parse_optional_int clock input.min_confidence)

  abbrev pub counts_or_problem : Option (List Bucket) → Response (List Bucket)
  counts_or_problem none = problem 500 internal
  counts_or_problem (some buckets) = Range.ok buckets

  abbrev pub interval_of : ℤ → ℕ
  interval_of (negsuc n) = 60
  interval_of (pos n) = if ltb 0 n then n else 60

  abbrev pub count_range : TimelineInput → ℤ → Parsed (Time × Time) → Response (List Bucket)
  count_range input interval (refused c) = problem 400 c
  count_range input interval (parsed (s, e)) =
      counts_or_problem (reader.counts_by_interval input.camera_id s e (interval_of interval))

  unfoldable pub huma_get_analytics_counts : TimelineInput → ℤ → Response (List Bucket)
  huma_get_analytics_counts input interval =
      count_range input interval (parse_optional_time_range clock input.start input.end)

  abbrev pub track_range : TimelineInput → ℤ → Parsed (Time × Time) → Response (Page Frame)
  track_range input track (refused c) = problem 400 c
  track_range input track (parsed (s, e)) = frames_or_problem input.paginated (
      reader.search_by_track_id input.camera_id track s e (opts_of input.paginated false none none))

  unfoldable pub huma_get_analytics_track : TimelineInput → ℤ → Response (Page Frame)
  huma_get_analytics_track input track =
      track_range input track (parse_optional_time_range clock input.start input.end)

  abbrev pub events_range : TimelineInput → Parsed (Time × Time) → Response (Page Frame)
  events_range input (refused c) = problem 400 c
  events_range input (parsed (s, e)) =
      frames_or_problem input.paginated
        (reader.query_frames input.camera_id s e (opts_of input.paginated true none none))

  unfoldable pub huma_get_analytics_events : TimelineInput → Response (Page Frame)
  huma_get_analytics_events input =
      events_range input (parse_optional_time_range clock input.start input.end)
