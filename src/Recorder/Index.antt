-- ===== src/Recorder/Index.antt =====
-- pkg/recorder/index_sqlite.go: the index of all channels, one SQLite database for each, with the
-- open databases and the time of their last use.
--
-- The databases on disk outlive their handles. A method gives the new state beside its result. What
-- the system answers during a call is its `Env`: the clock, which databases can be opened and
-- answer, which close without an error, and the listing of the base directory.
pub mod Handles
pub mod Query
pub mod Stored
pub mod Ends
pub mod Lifecycle
use vrtc.Base.Assoc
use vrtc.Base.{
  ℕ, ◌-◌, ◌*◌, Bool, true, false, not, ◌&&◌, ◌||◌, Option, none, some, List, [], ◌∷◌, ◌++◌, map,
  String, str_eq, ltb, leb, if◌then◌else◌, select, length,
}
use vrtc.Base.Int.{ℤ}
use vrtc.Clock.{Time, before, minute, zero_time}
use vrtc.Recorder.Entry.{RecordingEntry}
use vrtc.Recorder.Table.{
  Row, SeekRow, ChannelDb, init_schema, row_of, scan_row, insert_row, select_range, first_row,
  last_row, count_present, mark_deleted, has_id, seal_rows, insert_seek, seek_row,
}

pub data Error : Type 0 where
  io_failure no_recordings all_corrupted no_rows : Error

pub data Result (A : Type 0) : Type 0 where
  ok : A → Result A
  err : Error → Result A

pub record DirEntry : Type 0 where
  pub name : String
  pub is_dir : Bool

pub record Env : Type 0 where
  pub now : Time
  pub answers : String → Bool
  pub closes : String → Bool
  pub listing : Option (List DirEntry)

pub record Index : Type 0 where
  pub files : List (String × ChannelDb)
  pub dbs : List String
  pub last_access : List (String × Time)

unfoldable pub new_index : List (String × ChannelDb) → Index
new_index files = record { files = files; dbs = []; last_access = [] }

abbrev pub max_idle_db_age : ℕ
max_idle_db_age = 10 * minute

abbrev pub eviction_threshold : ℕ
eviction_threshold = 100

unfoldable pub contains : String → List String → Bool
contains k [] = false
contains k (x ∷ xs) = if str_eq x k then true else contains k xs

abbrev pub without : String → List String → List String
without k = select λ x. not (str_eq x k)

-- The tables of a channel; a channel with no database has empty ones.
abbrev pub or_new : Option ChannelDb → ChannelDb
or_new none = init_schema
or_new (some db) = db

abbrev pub db_of : String → Index → ChannelDb
db_of ch idx = or_new (Assoc.get ch idx.files)

abbrev pub has_file : String → Index → Bool
has_file ch idx = elim (Assoc.get ch idx.files) [ none ↦ false | some _ ↦ true ]

unfoldable pub write_db : String → ChannelDb → Index → Index
write_db ch db idx = record idx { files = Assoc.put ch db idx.files }

unfoldable pub touch : Time → String → Index → Index
touch now ch idx = record idx { last_access = Assoc.put ch now idx.last_access }

unfoldable pub drop_handle : String → Index → Index
drop_handle ch idx = record idx {
  dbs = without ch idx.dbs;
  last_access = Assoc.remove ch idx.last_access;
}

unfoldable pub evict_one : Time → String → Time → Index → Index
evict_one cutoff ch last_at idx = if before last_at cutoff then drop_handle ch idx else idx

unfoldable pub evict_from : Time → List (String × Time) → Index → Index
evict_from cutoff [] idx = idx
evict_from cutoff ((ch, last_at) ∷ rest) idx =
    evict_from cutoff rest (evict_one cutoff ch last_at idx)

unfoldable pub evict_idle : Time → Index → Index
evict_idle now idx = evict_from (now - max_idle_db_age) idx.last_access idx

-- Evicts idle databases before a new one is opened.
unfoldable pub make_room : Env → Index → Index
make_room env idx = if leb eviction_threshold (length idx.dbs) then evict_idle env.now idx else idx

-- `sql.Open` with `initSchema`, which creates the tables of a new database.
unfoldable pub open_handle : Env → String → Index → Index
open_handle env ch idx =
    touch env.now ch (write_db ch (db_of ch idx) (record idx { dbs = ch ∷ idx.dbs }))

-- Opens the database of a channel unless it is open. The flag tells that there was no error.
unfoldable pub get_db : Env → String → Index → Index × Bool
get_db env ch idx =
    let kept = make_room env idx in
    if contains ch idx.dbs
    then (touch env.now ch idx, true)
    else if env.answers ch
    then (open_handle env ch kept, true)
    else (kept, false)

-- A statement on the database of a channel, once `get_db` has opened it.
abbrev pub with_db :
    {A : Type 0} → Env → String → Index × Bool → (Index → Index × Result A) → Index × Result A
with_db env ch (idx, true) k = if env.answers ch then k idx else (idx, err io_failure)
with_db env ch (idx, false) k = (idx, err io_failure)

unfoldable pub insert : Env → RecordingEntry → Index → Index × Result (Unit {0})
insert env e idx = with_db env e.channel_id (get_db env e.channel_id idx) λ i.
    let db = db_of e.channel_id i in
    (
      write_db e.channel_id (record db { recordings = insert_row (row_of e) db.recordings }) i,
      ok tt,
    )

unfoldable pub query_by_channel :
    Env → String → Time → Time → Index → Index × Result (List RecordingEntry)
query_by_channel env ch from to idx =
    with_db env ch (get_db env ch idx)
      λ i. (i, ok (map (scan_row ch) (select_range from to (db_of ch i).recordings)))

-- Which error stands for an empty answer.
unfoldable pub no_recordings_or_corrupted : List Row → Error
no_recordings_or_corrupted rows =
    if ltb 0 (count_present rows) then all_corrupted else no_recordings

abbrev pub or_none : String → List Row → Option Row → Result RecordingEntry
or_none ch rows none = err (no_recordings_or_corrupted rows)
or_none ch rows (some r) = ok (scan_row ch r)

unfoldable pub first_available : Env → String → Index → Index × Result RecordingEntry
first_available env ch idx =
    with_db env ch (get_db env ch idx)
      λ i. let rows = (db_of ch i).recordings in (i, or_none ch rows (first_row rows))

unfoldable pub last_available : Env → String → Index → Index × Result RecordingEntry
last_available env ch idx =
    with_db env ch (get_db env ch idx)
      λ i. let rows = (db_of ch i).recordings in (i, or_none ch rows (last_row rows))

-- The loop of `Delete` over the open databases, in any order.
unfoldable pub delete_in : Env → String → List String → Index → Index × Result (Unit {0})
delete_in env id [] idx = (idx, ok tt)
delete_in env id (ch ∷ rest) idx =
    let db = db_of ch idx in
    let next = delete_in env id rest idx in
    let done = write_db ch (record db { recordings = mark_deleted id db.recordings }) idx in
    if not (env.answers ch)
    then (idx, err io_failure)
    else if has_id id db.recordings
    then (done, ok tt)
    else next

unfoldable pub delete : Env → String → Index → Index × Result (Unit {0})
delete env id idx = delete_in env id idx.dbs idx
