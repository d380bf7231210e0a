-- ===== src/Recorder/Sweep.antt =====
-- pkg/recorder/index_sqlite.go: the operations on all channels, the key frame index and `Vacuum`.
pub mod Seal
pub mod Position
use vrtc.Base.{
  Bool, true, false, not, ◌||◌, Option, none, some, List, [], ◌∷◌, ◌++◌, String, if◌then◌else◌,
}
use vrtc.Base.Int.{ℤ}
use vrtc.Clock.{Time}
use vrtc.Recorder.Entry.{RecordingEntry, SeekEntry}
use vrtc.Recorder.Table.{SeekRow, seal_rows, insert_seek, seek_row}
use vrtc.Recorder.Index.{
  Index, Env, DirEntry, Result, ok, err, io_failure, no_rows, has_file, db_of, write_db, get_db,
  with_db, query_by_channel,
}

-- Goes on with the next channel unless there was an error.
abbrev pub and_then :
    {A B : Type 0} → Index × Result A → (Index → A → Index × Result B) → Index × Result B
and_then (idx, ok a) k = k idx a
and_then (idx, err e) k = (idx, err e)

unfoldable pub seal_channel : Env → String → Index → Index × Result (Unit {0})
seal_channel env ch idx = with_db env ch (get_db env ch idx) λ i.
    let db = db_of ch i in
    (write_db ch (record db { recordings = seal_rows db.recordings }) i, ok tt)

-- Whether the loops over the base directory pass over an entry.
abbrev pub is_skipped : DirEntry → Index → Bool
is_skipped d idx = not d.is_dir || not (has_file d.name idx)

unfoldable pub seal_from : Env → List DirEntry → Index → Index × Result (Unit {0})
seal_from env [] idx = (idx, ok tt)
seal_from env (d ∷ ds) idx =
    let skip = seal_from env ds idx in
    if is_skipped d idx
    then skip
    else and_then (seal_channel env d.name idx) (λ i _. seal_from env ds i)

-- `os.ReadDir` failed where the listing is `none`; a directory that does not exist is listed empty.
abbrev pub in_listing :
    {A : Type 0}
    → Option (List DirEntry)
    → (List DirEntry → Index → Index × Result A)
    → Index
    → Index × Result A
in_listing none scan idx = (idx, err io_failure)
in_listing (some ds) scan idx = scan ds idx

unfoldable pub seal_interrupted : Env → Index → Index × Result (Unit {0})
seal_interrupted env idx = in_listing env.listing (seal_from env) idx

unfoldable pub query_from :
    Env
    → Time
    → Time
    → List DirEntry
    → List RecordingEntry
    → Index
    → Index × Result (List RecordingEntry)
query_from env from to [] all idx = (idx, ok all)
query_from env from to (d ∷ ds) all idx =
    let skip = query_from env from to ds all idx in
    if is_skipped d idx
    then skip
    else and_then (query_by_channel env d.name from to idx)
        (λ i es. query_from env from to ds (all ++ es) i)

unfoldable pub query_all_channels : Env → Time → Time → Index → Index × Result (List RecordingEntry)
query_all_channels env from to idx = in_listing env.listing (λ ds. query_from env from to ds []) idx

-- Closes every database and keeps the first error. The times of last use stay.
unfoldable pub close_all : Env → List String → Result (Unit {0})
close_all env [] = ok tt
close_all env (ch ∷ chs) =
    let rest = close_all env chs in if env.closes ch then rest else err io_failure

unfoldable pub close : Env → Index → Index × Result (Unit {0})
close env idx = (record idx { dbs = [] }, close_all env idx.dbs)

-- One transaction: on an error nothing is written.
unfoldable pub insert_seeks : String → List SeekEntry → List SeekRow → List SeekRow
insert_seeks recording_id [] rows = rows
insert_seeks recording_id (s ∷ ss) rows = insert_seeks recording_id ss (
    insert_seek
      (record { recording_id = recording_id; dts_ms = s.dts_ms; byte_offset = s.byte_offset }) rows)

unfoldable pub insert_seek_entries :
    Env → String → String → List SeekEntry → Index → Index × Result (Unit {0})
insert_seek_entries env ch recording_id [] idx = (idx, ok tt)
insert_seek_entries env ch recording_id (s ∷ ss) idx = with_db env ch (get_db env ch idx) λ i.
    let db = db_of ch i in
    (
      write_db ch (record db { seek_index = insert_seeks recording_id (s ∷ ss) db.seek_index }) i,
      ok tt,
    )

abbrev pub or_no_rows : Option SeekRow → Result ℤ
or_no_rows none = err no_rows
or_no_rows (some s) = ok s.byte_offset

unfoldable pub seek_in_segment : Env → String → String → ℤ → Index → Index × Result ℤ
seek_in_segment env ch recording_id dts_ms idx =
    with_db env ch (get_db env ch idx)
      λ i. (i, or_no_rows (seek_row recording_id dts_ms (db_of ch i).seek_index))

-- VACUUM changes no row.
unfoldable pub vacuum : Env → String → Index → Index × Result (Unit {0})
vacuum env ch idx = with_db env ch (get_db env ch idx) λ i. (i, ok tt)
