-- ===== src/Recorder/Index/Ends.antt =====
-- The first and the last playable segment against the answer of a query.
use mathlib.Core.List.{head?}
use vrtc.Base.{
  ◌≤◌, ◌/◌, ◌≡◌, refl, sym, ap, ◌∙◌, true, not, Option, none, some, List, [], ◌∷◌, map, arith, All,
  In, String, if◌then◌else◌, ltb, length, select, In-map, All-In, All-map, All-of_In,
}
use vrtc.Clock.{second}
use vrtc.Recorder.Entry.{RecordingEntry}
use vrtc.Recorder.Table.{
  Row, scan_row, select_range, is_deleted, first_row, last_row, count_present,
}
use vrtc.Recorder.Table.Listed.{In-select_range, In-select_range_of, is_listed_of_in_range}
use vrtc.Recorder.Table.Newest.{first_row-eq, last_row-some}
use vrtc.Recorder.Index.{
  Index, Env, Error, Result, ok, err, all_corrupted, no_recordings, get_db, query_by_channel,
  or_none, no_recordings_or_corrupted, first_available, last_available,
}
use vrtc.Recorder.Index.Handles.{db_of-get_db, get_db_ok}
use vrtc.Recorder.Index.Query.{rows_of, with_db_ok, with_db-answers, query_by_channel-ok}
use vrtc.Recorder.Index.Stored.{IsStored, by_start-seconds}

first_available-rows :
    (env : Env) (ch : String) (idx : Index)
    → env.answers ch ≡ true
    → (first_available env ch idx).1 ≡ or_none ch (rows_of ch idx) (first_row (rows_of ch idx))
unfolding first_available
first_available-rows env ch idx a =
    ap (λ r. r.1) (with_db_ok env ch (get_db env ch idx) _ (get_db_ok env ch idx a) a)
    ∙ ap (λ db. or_none ch db.recordings (first_row db.recordings)) (db_of-get_db env ch ch idx)

last_available-rows :
    (env : Env) (ch : String) (idx : Index)
    → env.answers ch ≡ true
    → (last_available env ch idx).1 ≡ or_none ch (rows_of ch idx) (last_row (rows_of ch idx))
unfolding last_available
last_available-rows env ch idx a =
    ap (λ r. r.1) (with_db_ok env ch (get_db env ch idx) _ (get_db_ok env ch idx a) a)
    ∙ ap (λ db. or_none ch db.recordings (last_row db.recordings)) (db_of-get_db env ch ch idx)

-- The first of a list of entries, or the error that the rows give an empty list.
abbrev pub first_or : Error → List RecordingEntry → Result RecordingEntry
first_or x [] = err x
first_or x (e ∷ es) = ok e

head-map :
    (ch : String) (rows : List Row) (xs : List Row)
    → or_none ch rows (head? xs) ≡ first_or (no_recordings_or_corrupted rows) (map (scan_row ch) xs)
head-map ch rows [] = refl
head-map ch rows (x ∷ xs) = refl

-- `FirstAvailable` answers with the first entry of the unbounded query, and fails where that is
-- empty: with "all corrupted" if any row of the channel is not deleted, else with "no recordings".
pub first_available-eq :
    (env env' : Env) (ch : String) (idx : Index) (es : List RecordingEntry)
    → env.answers ch ≡ true
    → (query_by_channel env' ch 0 0 idx).1 ≡ ok es
    → (first_available env ch idx).1
      ≡ first_or
          (if ltb 0 (length (select (λ r. not (is_deleted r.status)) (rows_of ch idx)))
            then all_corrupted
            else no_recordings)
          es
unfolding no_recordings_or_corrupted count_present
first_available-eq env env' ch idx es a q =
    first_available-rows env ch idx a
    ∙ ap (or_none ch (rows_of ch idx)) (first_row-eq (rows_of ch idx))
    ∙ head-map ch (rows_of ch idx) (select_range 0 0 (rows_of ch idx))
    ∙ ap (first_or (no_recordings_or_corrupted (rows_of ch idx)))
        (sym (query_by_channel-ok env' ch 0 0 idx es q))

or_none-some :
    (ch : String) (rows : List Row) (o : Option Row) (e : RecordingEntry)
    → or_none ch rows o ≡ ok e
    → (r : Row) × (o ≡ some r) × (e ≡ scan_row ch r)
or_none-some ch rows none e h = cc
or_none-some ch rows (some r) e h = (r, refl, ground arith)

-- `LastAvailable` answers with an entry of the unbounded query, and none of that query starts in a
-- later second.
pub last_available-latest :
    (env env' : Env) (ch : String) (idx : Index) (es : List RecordingEntry) (e : RecordingEntry)
    → All IsStored (rows_of ch idx)
    → (query_by_channel env' ch 0 0 idx).1 ≡ ok es
    → (last_available env ch idx).1 ≡ ok e
    → In e es × All (λ x. x.start_time / second ≤ e.start_time / second) es
unfolding scan_row
last_available-latest env env' ch idx es e s q l =
    let rows = rows_of ch idx in
    let a : env.answers ch ≡ true =
      unfold last_available in with_db-answers env ch (get_db env ch idx) _ e l in
    let (r, found, read) =
      or_none-some ch rows (last_row rows) e (sym (last_available-rows env ch idx a) ∙ l) in
    let (i, t, latest) = last_row-some r rows found in
    let listed : In r (select_range 0 0 rows) = In-select_range_of 0 0 r rows i (rw t) in
    rw (query_by_channel-ok env' ch 0 0 idx es q, read)
      (
        In-map (scan_row ch) r _ listed,
        All-map (scan_row ch) _ _ (
            All-of_In _ _ (λ x ix.
              let (ir, tr) = In-select_range 0 0 x rows ix in
              by_start-seconds x r (All-In IsStored rows x s ir) (All-In IsStored rows r s i)
                (latest x ir (is_listed_of_in_range 0 0 x tr)))),
      )
