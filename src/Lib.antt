-- ===== src/Lib.antt =====
-- A verification library of vrtc, a recorder and relay for cameras, written in Go.
--
-- The program in short: a recording manager (pkg/recorder/recorder.go) polls the schedules and
-- attaches consumers to a relay hub, which write segments to disk. A recording index
-- (pkg/recorder/index_sqlite.go) has a row for each segment in an SQLite database per channel. A
-- retention policy (pkg/recorder/retention.go) says which segments the manager deletes. The playback
-- service (pkg/edgeview/stream.go) reads the index and chains the segments of a channel into a
-- stream that goes over to live at its end. A bridge to a grabber library (internal/avgrabber)
-- makes packets of the frames that come in, and the channels are in a file (pkg/channel/file.go). The
-- HTTP handlers (pkg/edgeview/http_*.go) stand before the playback service and the channel file.
--
-- How the program is modelled:
-- - The Go standard library's instants, durations and float sizes are in Clock: a time.Time is the
--   number of nanoseconds since the zero time, t.Sub saturates, and a size in GB is a float64 that is
--   not negative, written as a fraction of a power of two. An int64 or int is a signed number whose
--   additions and products wrap around (Base/Int).
-- - A method that changes state takes the state and gives the new one beside its result. What the
--   system and the packages outside the repository answer during a call is a record: `Env` for the
--   databases, `World` for the relay hub, the providers, the disk and the files. Errors are values.
--   Log lines, metrics and the texts of errors are left out.
-- - A map is an association list (Base/Assoc), and a set of ids is a list of them.
-- - Every loop is a recursion on the list it goes through, so no fuel is needed. The polls of
--   `waitForNext`, which may go on without end, are given as a list, one element for each poll, and
--   the outcome `waiting` stands for a list that ran out. The loops of the demuxer are given their
--   rounds in the same way.
--
-- The files, and the code they are about:
-- - Base: lists over the native numbers, a stable insertion sort, text keys, maps, int64.
-- - Recorder/Entry: the types of index.go. Recorder/Retention: retention.go, function by function,
--   with proofs in Marks, Cap, Disk, Extends and Evaluate.
-- - Recorder/Stamp: the texts in the time columns (RFC 3339 with nanoseconds, trailing zeros cut) and
--   their order as text. A text is modelled by its whole second and its fraction digits: the dates of
--   years 1 to 9999 have one width, so their texts are in the order of their seconds.
-- - Recorder/Table: the rows of one database and the SQL statements on them. Recorder/Index: the
--   methods on one channel and the open databases, with the eviction of idle ones; Recorder/Sweep: the
--   methods on all channels, the key frame index and Close. A database on disk outlives its handle.
-- - Recorder/Manager: the state of recorder.go; Segment: a segment's start, rotation and end; Retain:
--   the retention passes and the disk checks; Tick: a tick of the poll loop, default schedules, start
--   and stop; Stats and Metrics: buildPerChannelStats and the snapshot with it; Owned: the invariant on
--   consumer handles. A goroutine that processes an active schedule looks at the map of recordings and
--   then acts on what it saw: two steps, between which the other goroutines may run (Owned/Turns).
-- - Channels: pkg/channel/file.go, the channels in a JSON file.
-- - Schedules: pkg/schedule/file.go, the listing of the schedules in a JSON file, and in Kept what the
--   retention of the recorder makes of them.
-- - Grabber/Payload: internal/avgrabber/convert.go, the split of Annex B payloads and their conversion.
--   Grabber/Frame: frames, status codes and codec types (types.go, constants.go, errors.go).
--   Grabber/Session: session.go over the C library. Grabber/Demuxer: the state of demuxer.go and its
--   streams; ParamSets and Audio: how codecs are learnt; Read: the frames as packets and the two
--   loops; proofs in Ticks, Told, Announced, First, Returns and Live. The parsers of the SDK are
--   parameters.
-- - View/Source: indexSource and the demuxer factories of pkg/edgeview/stream.go, with analytics in
--   Enriched; View/Resolve: ResolvePlaybackStart, the timeline and the viewer count; View/Session: the
--   session of a WebSocket client in pkg/edgeview/ws_stream.go, from its start through the command loop
--   to its stop. The index is shared with the recorder: what happens to it between two queries of a
--   source is an argument (`World.meanwhile`). View/Cameras: the list of cameras of stream.go, with
--   what the relay hub says of them.
-- - Http/Text: the text functions of the Go standard library that the handlers use. Http/Page,
--   Http/Range and Http/Auth: pages, parameters and the middleware of http_handler.go. Http/Cameras:
--   listing, upsert, reading and deletion of cameras over the channel file and the list; Http/Csv: the
--   import and export of http_cameras.go. Http/Timelines: the recordings of a time range;
--   Http/Analytics: http_analytics.go; Http/Stats: statistics, health, and the snapshot of
--   pkg/metrics/collector.go; Http/Streams: live and recorded streams over HTTP; Http/Feed: the
--   socket of ws_analytics.go. What the router, the CSV reader and the RFC 3339 parser make of a
--   request is an argument.
-- - Edge: internal/edge/app.go, the settings of the analytics, the cameras that it registers at the
--   start, and the channels that it gives to the recording manager (Known: their schedules).
-- - Tool: cmd/analytics-tool/main.go, the worker of a camera in the simulator of an analytics engine.
--
-- Not modelled: the registration of routes and their documentation, the SDK's hubs, muxers and
-- demuxers and its analytics merger, the C library of the grabber, the database providers of
-- channels and schedules, the metrics store and its histograms, sums of floating point numbers,
-- configuration, the wiring of services and servers in internal/edge, and internal/cloud. They are
-- descriptions without logic, drive streams of the SDK or call other packages. Sizes in GB are below
-- 2^33, so that their bytes fit in an int64, and dates are in the years 1 to 9999.
pub mod Base
pub mod Channels
pub mod Clock
pub mod Edge
pub mod Grabber
pub mod Http
pub mod Recorder
pub mod Schedules
pub mod Tool
pub mod View
