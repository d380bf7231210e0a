-- ===== src/Recorder/Table.antt =====
-- pkg/recorder/index_sqlite.go: the SQL statements, on the tables of one channel's database.
--
-- A table is the list of its rows in the order of insertion, and `ORDER BY` is a stable sort.
pub mod Listed
pub mod Newest
pub mod Seek
use mathlib.Core.List.{head?}
use vrtc.Base.{
  ℕ, ◌+◌, Bool, true, false, not, ◌&&◌, Option, none, some, List, [], ◌∷◌, ◌++◌, map, String,
  str_eq, ltb, if◌then◌else◌, select, sort_by, length,
}
use vrtc.Base.Int.{ℤ, leb_ℤ}
use vrtc.Clock.{Time, is_zero}
use vrtc.Recorder.Entry.{
  Status, recording, complete, interrupted, deleted, corrupted, RecordingEntry,
}
use vrtc.Recorder.Stamp.{Stamp, format, parse, stamp_le}

pub record Row : Type 0 where
  pub id : String
  pub start_time : Stamp
  pub end_time : Stamp
  pub file_path : String
  pub size_bytes : ℤ
  pub status : Status
  pub has_motion : ℕ
  pub has_objects : ℕ

pub record SeekRow : Type 0 where
  pub recording_id : String
  pub dts_ms : ℤ
  pub byte_offset : ℤ

pub record ChannelDb : Type 0 where
  pub recordings : List Row
  pub seek_index : List SeekRow

-- The tables of a new database.
abbrev pub init_schema : ChannelDb
init_schema = record { recordings = []; seek_index = [] }

abbrev pub bool_to_int : Bool → ℕ
bool_to_int true = 1
bool_to_int false = 0

abbrev pub row_of : RecordingEntry → Row
row_of e = record {
  id = e.id;
  start_time = format e.start_time;
  end_time = format e.end_time;
  file_path = e.file_path;
  size_bytes = e.size_bytes;
  status = e.status;
  has_motion = bool_to_int e.has_motion;
  has_objects = bool_to_int e.has_objects;
}

-- `scanRecordingRow`: the entry that a row is read back as.
unfoldable pub scan_row : String → Row → RecordingEntry
scan_row channel_id r = record {
  id = r.id;
  channel_id = channel_id;
  start_time = parse r.start_time;
  end_time = parse r.end_time;
  file_path = r.file_path;
  size_bytes = r.size_bytes;
  status = r.status;
  has_motion = ltb 0 r.has_motion;
  has_objects = ltb 0 r.has_objects;
  has_events = false;
}

-- INSERT OR REPLACE INTO recordings, whose primary key is `id`.
unfoldable pub insert_row : Row → List Row → List Row
insert_row r rows = select (λ x. not (str_eq x.id r.id)) rows ++ r ∷ []

-- status NOT IN ('recording', 'deleted', 'corrupted')
abbrev pub is_listed : Status → Bool
is_listed recording = false
is_listed complete = true
is_listed interrupted = true
is_listed deleted = false
is_listed corrupted = false

-- A zero bound adds no condition.
abbrev pub ends_from : Time → Row → Bool
ends_from from r = if is_zero from then true else stamp_le (format from) r.end_time

abbrev pub starts_to : Time → Row → Bool
starts_to to r = if is_zero to then true else stamp_le r.start_time (format to)

abbrev pub in_range : Time → Time → Row → Bool
in_range from to r = is_listed r.status && ends_from from r && starts_to to r

abbrev pub by_start : Row → Row → Bool
by_start a b = stamp_le a.start_time b.start_time

abbrev pub by_start_desc : Row → Row → Bool
by_start_desc a b = stamp_le b.start_time a.start_time

-- SELECT … WHERE … ORDER BY start_time ASC
unfoldable pub select_range : Time → Time → List Row → List Row
select_range from to rows = sort_by by_start (select (in_range from to) rows)

-- … ORDER BY start_time ASC LIMIT 1, and DESC
unfoldable pub first_row : List Row → Option Row
first_row rows = head? (sort_by by_start (select (λ r. is_listed r.status) rows))

unfoldable pub last_row : List Row → Option Row
last_row rows = head? (sort_by by_start_desc (select (λ r. is_listed r.status) rows))

-- SELECT COUNT(*) … WHERE status NOT IN ('deleted')
abbrev pub is_deleted : Status → Bool
is_deleted deleted = true
is_deleted _ = false

unfoldable pub count_present : List Row → ℕ
count_present rows = length (select (λ r. not (is_deleted r.status)) rows)

-- UPDATE recordings SET status = 'deleted' WHERE id = ?
abbrev pub delete_row : String → Row → Row
delete_row id r = if str_eq r.id id then record r { status = deleted } else r

unfoldable pub mark_deleted : String → List Row → List Row
mark_deleted id = map (delete_row id)

-- Its count of rows affected is positive.
unfoldable pub has_id : String → List Row → Bool
has_id id [] = false
has_id id (r ∷ rows) = if str_eq r.id id then true else has_id id rows

-- UPDATE recordings SET status = 'interrupted' WHERE status = 'recording'
abbrev pub sealed_status : Status → Status
sealed_status recording = interrupted
sealed_status complete = complete
sealed_status interrupted = interrupted
sealed_status deleted = deleted
sealed_status corrupted = corrupted

abbrev pub seal_row : Row → Row
seal_row r = record r { status = sealed_status r.status }

unfoldable pub seal_rows : List Row → List Row
seal_rows = map seal_row

-- INSERT OR REPLACE INTO seek_index, whose primary key is (recording_id, dts_ms).
abbrev pub same_position : SeekRow → SeekRow → Bool
same_position a b =
    str_eq a.recording_id b.recording_id && leb_ℤ a.dts_ms b.dts_ms && leb_ℤ b.dts_ms a.dts_ms

unfoldable pub insert_seek : SeekRow → List SeekRow → List SeekRow
insert_seek s rows = select (λ x. not (same_position x s)) rows ++ s ∷ []

-- SELECT byte_offset … WHERE recording_id = ? AND dts_ms <= ? ORDER BY dts_ms DESC LIMIT 1
unfoldable pub seek_row : String → ℤ → List SeekRow → Option SeekRow
seek_row recording_id dts_ms rows = head? (
    sort_by (λ a b. leb_ℤ b.dts_ms a.dts_ms)
      (select (λ s. str_eq s.recording_id recording_id && leb_ℤ s.dts_ms dts_ms) rows))
