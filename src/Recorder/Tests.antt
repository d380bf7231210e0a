-- ===== src/Recorder/Tests.antt =====
-- The index and the retention pass at concrete inputs.
use vrtc.Base.Assoc.{get, put}
use vrtc.Base.{Bool, ◌↔◌}
use vrtc.Base.{
  ◌+◌, ◌*◌, ◌≤◌, ◌≡◌, ◌≢◌, refl, true, false, some, List, [], ◌∷◌, String, String-cases, sym, arith,
  In, All, inl, inr, select, sort_by, insert_by,
}
use vrtc.Base.Int.{pos, negsuc, leb_ℤ}
use vrtc.Clock.{second, day, Gigabytes, whole_bytes}
use vrtc.Recorder.Entry.{recording, complete, interrupted, RecordingEntry}
use vrtc.Recorder.Stamp.{format, parse, fraction, parse_fraction, parse_suffix, stamp_le, text_le}
use vrtc.Recorder.Table.{
  SeekRow, row_of, scan_row, select_range, insert_row, seal_rows, insert_seek, seek_row, last_row,
}
use vrtc.Recorder.Index.{
  Index, Env, ok, err, no_rows, contains, new_index, write_db, touch, open_handle, make_room,
  get_db, insert, query_by_channel, last_available, delete,
}
use vrtc.Recorder.Index.Query.{rows_of, query-insert, query-loses_fraction}
use vrtc.Recorder.Index.Stored.{IsStored, Ordered, query-Ordered}
use vrtc.Recorder.Index.Lifecycle.{OnlyIn, query-delete, delete-keeps_unopened}
use vrtc.Recorder.Sweep.{
  seal_interrupted, seal_from, seal_channel, seek_in_segment, insert_seek_entries, insert_seeks,
  close,
}
use vrtc.Recorder.Sweep.Seal.{is_channel_dir, IsOutcome, seal_interrupted-rows}
use vrtc.Recorder.Sweep.Position.{seek_in_segment-latest, seeks_of}
use vrtc.Recorder.Retention.{
  RetentionPolicy, Mark, starts_before, tier_cutoff, evaluate_retention, apply_storage_cap,
  apply_disk_free_cap,
}
use vrtc.Recorder.Retention.Marks.{kept_bytes, freed_bytes}
use vrtc.Recorder.Retention.Cap.{TrimsTo, apply_storage_cap-TrimsTo}
use vrtc.Recorder.Retention.Disk.{Frees, apply_disk_free_cap-Frees}
use vrtc.Recorder.Retention.Evaluate.{IsOverAge, evaluate-eq-expired, evaluate-within_cap, size_sum}

-- Two segments of a camera, of a byte and of two bytes.
abbrev pub early : RecordingEntry
early = record {
  id = "early";
  channel_id = "cam-1";
  start_time = 30 * day;
  end_time = 30 * day + 5;
  file_path = "a.fmp4";
  size_bytes = pos 1;
  status = complete;
  has_motion = false;
  has_objects = false;
  has_events = false;
}

abbrev pub late : RecordingEntry
late = record early {
  id = "late";
  start_time = 40 * day;
  end_time = 40 * day + 5;
  size_bytes = pos 2;
}

-- 2 bytes, as a float64 number of GB, and no limit.
abbrev two_bytes : Gigabytes
two_bytes = record { mantissa = 2; shift = 30 }

abbrev pub no_limit : Gigabytes
no_limit = record { mantissa = 0; shift = 0 }

abbrev keep_all : RetentionPolicy
keep_all = record {
  continuous_days = pos 7;
  motion_days = pos 0;
  object_days = pos 0;
  max_storage_gb = no_limit;
  min_free_gb = no_limit;
  disk_free_bytes = pos 1;
}

abbrev marks : List Mark
marks = (early, false) ∷ (late, false) ∷ []

two_bytes-eq : whole_bytes two_bytes ≡ 2
unfolding whole_bytes
two_bytes-eq = refl

apply_storage_cap-TrimsTo_example :
    TrimsTo
      (whole_bytes two_bytes)
      marks
      (apply_storage_cap (record keep_all { max_storage_gb = two_bytes }) marks)
unfolding kept_bytes
apply_storage_cap-TrimsTo_example =
    apply_storage_cap-TrimsTo (record keep_all { max_storage_gb = two_bytes }) marks refl
      (omega arith) (omega arith)

apply_disk_free_cap-Frees_example :
    Frees
      (whole_bytes two_bytes)
      (1 + freed_bytes marks)
      marks
      (apply_disk_free_cap (record keep_all { min_free_gb = two_bytes }) marks)
unfolding kept_bytes freed_bytes
apply_disk_free_cap-Frees_example =
    apply_disk_free_cap-Frees (record keep_all { min_free_gb = two_bytes }) 1 marks refl refl
      (omega arith) (rw two_bytes-eq (omega arith)) (omega arith) (rw two_bytes-eq (omega arith))
      (omega arith)

early_expired : starts_before early (tier_cutoff early keep_all (41 * day)) ≡ true
unfolding tier_cutoff
early_expired = refl

evaluate-eq-expired_example :
    (f : RecordingEntry → Bool) × ((e : RecordingEntry)
      → (f e ≡ true) ↔ IsOverAge keep_all (41 * day) e)
    × (evaluate_retention (early ∷ late ∷ []) keep_all (41 * day) ≡ select f (early ∷ late ∷ []))
evaluate-eq-expired_example = evaluate-eq-expired (early ∷ late ∷ []) keep_all (41 * day) refl refl

-- The first segment is deleted, and the second is within the cap.
evaluate-within_cap_example :
    3
    ≤ whole_bytes two_bytes
      + size_sum (
          evaluate_retention
            (early ∷ late ∷ [])
            (record keep_all { max_storage_gb = two_bytes })
            (31 * day))
unfolding size_sum
evaluate-within_cap_example =
    evaluate-within_cap (early ∷ late ∷ []) (record keep_all { max_storage_gb = two_bytes })
      (31 * day) refl (omega arith) (omega arith)

-- A system in which every database answers, with one camera on disk.
abbrev pub fine : Env
fine = record {
  now = 41 * day;
  answers = λ ch. true;
  closes = λ ch. true;
  listing = some (record { name = "cam-1"; is_dir = true } ∷ []);
}

abbrev pub empty : Index
empty = new_index []

-- The index with both segments.
abbrev pub filled : Index
filled = (insert fine early (insert fine late empty).0).0

abbrev recorded : RecordingEntry
recorded = record early { id = "live"; status = recording }

abbrev crashed : Index
crashed = (insert fine recorded empty).0

-- Unfolds what a call of the index computes with.
unfoldable pub machinery : Unit {0}
unfolding new_index insert query_by_channel get_db open_handle make_room touch write_db contains get
    put insert_row select_range format fraction parse parse_fraction parse_suffix stamp_le text_le
    sort_by insert_by scan_row
machinery = tt

filled_query : (query_by_channel fine "cam-1" 0 0 filled).1 ≡ ok (early ∷ late ∷ [])
unfolding machinery
filled_query = refl

query-insert_example : In early (early ∷ late ∷ [])
query-insert_example =
    query-insert fine fine early (insert fine late empty).0 (early ∷ late ∷ []) refl refl refl
      filled_query

filled-IsStored : All IsStored (rows_of "cam-1" filled)
unfolding machinery
filled-IsStored = (refl, (refl, tt))

query-Ordered_example : Ordered (early ∷ late ∷ [])
query-Ordered_example =
    query-Ordered fine "cam-1" 0 0 filled (early ∷ late ∷ []) filled-IsStored filled_query

filled_last : (last_available fine "cam-1" filled).1 ≡ ok late
unfolding machinery last_available last_row
filled_last = refl

OnlyIn-early : OnlyIn "early" "cam-1" filled
unfolding machinery
OnlyIn-early j c n = elim (String-cases "cam-1" j) [
  | inl (s, q) ↦ absurd (n (sym q))
  | inr (s, q) ↦ ground (arith, c, s)
]

filled_open : contains "cam-1" filled.dbs ≡ true
unfolding machinery
filled_open = refl

query-delete_example :
    ((delete fine "early" filled).1 ≡ ok tt)
    × ((query_by_channel fine "cam-1" 0 0 (delete fine "early" filled).0).1 ≡ ok (late ∷ []))
    × ((j : String) → j ≢ "cam-1" → rows_of j (delete fine "early" filled).0 ≡ rows_of j filled)
query-delete_example =
    query-delete fine fine "early" "cam-1" 0 0 filled (early ∷ late ∷ []) (λ j. refl) filled_open
      OnlyIn-early filled_query

closed_query : (query_by_channel fine "cam-1" 0 0 (close fine filled).0).1 ≡ ok (early ∷ late ∷ [])
unfolding machinery close
closed_query = refl

delete-keeps_unopened_example :
    ((delete fine "early" (close fine filled).0).1 ≡ ok tt)
    × ((query_by_channel fine "cam-1" 0 0 (delete fine "early" (close fine filled).0).0).1
        ≡ (query_by_channel fine "cam-1" 0 0 (close fine filled).0).1)
unfolding close contains
delete-keeps_unopened_example =
    delete-keeps_unopened fine fine "early" "cam-1" 0 0 (close fine filled).0 (λ j. refl) refl refl

-- A segment that ends half a second past a whole second, which a query from that second loses.
abbrev half : RecordingEntry
half = record early { end_time = 3_000_000 * second + 500_000_000 }

half_query :
    (query_by_channel fine "cam-1" (3_000_000 * second) 0 (insert fine half empty).0).1 ≡ ok []
unfolding machinery
half_query = refl

query-loses_fraction_example : All (λ x. x.id ≢ "early") (let xs : List RecordingEntry = [] in xs)
query-loses_fraction_example =
    query-loses_fraction fine fine half 0 empty [] 3_000_000 500_000_000 refl (omega arith)
      (omega arith) (omega arith) refl half_query

seal_interrupted-rows_example :
    ((seal_interrupted fine crashed).1 ≡ ok tt)
    × ((j : String)
        → IsOutcome
            (is_channel_dir j (record { name = "cam-1"; is_dir = true } ∷ []))
            (rows_of j crashed)
            (rows_of j (seal_interrupted fine crashed).0))
seal_interrupted-rows_example =
    seal_interrupted-rows fine (record { name = "cam-1"; is_dir = true } ∷ []) crashed refl
      (λ j. refl)

crashed_row : In (row_of recorded) (rows_of "cam-1" crashed)
unfolding machinery
crashed_row = inl refl

sealed_query :
    (query_by_channel fine "cam-1" 0 0 (seal_interrupted fine crashed).0).1
    ≡ ok (record recorded { status = interrupted } ∷ [])
unfolding machinery seal_interrupted seal_from seal_channel seal_rows
sealed_query = refl

-- Two key frames of a segment: two seconds apart, a thousand bytes apart.
abbrev framed : Index
framed =
    (insert_seek_entries fine "cam-1" "early"
      (record { dts_ms = pos 0; byte_offset = pos 100 }
        ∷ record { dts_ms = pos 2000; byte_offset = pos 1100 }
        ∷ [])
      filled).0

framed_seek : (seek_in_segment fine "cam-1" "early" (pos 1999) framed).1 ≡ ok (pos 100)
unfolding machinery insert_seek_entries insert_seeks insert_seek seek_in_segment seek_row
framed_seek = refl

seek_in_segment-latest_example :
    (s : SeekRow) × In s (seeks_of "cam-1" framed)
    × (s.byte_offset ≡ pos 100)
    × (s.recording_id ≡ "early")
    × (leb_ℤ s.dts_ms (pos 1999) ≡ true)
    × ((x : SeekRow)
        → In x (seeks_of "cam-1" framed)
        → x.recording_id ≡ "early"
        → leb_ℤ x.dts_ms (pos 1999) ≡ true
        → leb_ℤ x.dts_ms s.dts_ms ≡ true)
seek_in_segment-latest_example =
    seek_in_segment-latest fine "cam-1" "early" (pos 1999) (pos 100) framed framed_seek

abbrev late_frame : SeekRow
late_frame = record { recording_id = "early"; dts_ms = pos 0; byte_offset = pos 100 }

framed_before : (seek_in_segment fine "cam-1" "early" (negsuc 0) framed).1 ≡ err no_rows
unfolding machinery insert_seek_entries insert_seeks insert_seek seek_in_segment seek_row
framed_before = refl

framed_row : In late_frame (seeks_of "cam-1" framed)
unfolding machinery insert_seek_entries insert_seeks insert_seek
framed_row = inl refl
