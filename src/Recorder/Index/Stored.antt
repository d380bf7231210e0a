-- ===== src/Recorder/Index/Stored.antt =====
-- Rows that `Insert` wrote hold texts of instants; on those the order of the texts says something of
-- the order of time.
use vrtc.Base.{
  ◌≤◌, ◌/◌, ◌≡◌, sym, ap, subst, Bool, true, List, [], ◌∷◌, map, All, Sorted, select, All-append,
  All-of_In, All-In, String, str_eq, not, Bool-cases, inl, inr,
}
use vrtc.Clock.{Time, second}
use vrtc.Recorder.Entry.{RecordingEntry}
use vrtc.Recorder.Stamp.{format, parse, stamp_le}
use vrtc.Recorder.Stamp.Order.{stamp_le-seconds, parse-format}
use vrtc.Recorder.Table.{Row, row_of, scan_row, insert_row, mark_deleted, seal_rows, by_start}
use vrtc.Recorder.Table.Listed.{select_range-Sorted, In-select_range}
use vrtc.Recorder.Index.{Index, Env, ok, query_by_channel}
use vrtc.Recorder.Index.Query.{rows_of, query_by_channel-ok}

abbrev pub IsStored : Row → Type 0
IsStored r = r.start_time ≡ format (parse r.start_time)

row_of-IsStored : (e : RecordingEntry) → IsStored (row_of e)
row_of-IsStored e = ap format (sym (parse-format e.start_time))

All-select :
    (P : Row → Type 0) (p : Row → Bool) (rows : List Row) → All P rows → All P (select p rows)
All-select P p [] h = tt
All-select P p (r ∷ rows) h = elim (Bool-cases (p r)) [
  | inl e ↦ rw e (h.0, All-select P p rows h.1)
  | inr e ↦ rw e (All-select P p rows h.1)
]

pub insert_row-AllStored :
    (e : RecordingEntry) (rows : List Row)
    → All IsStored rows
    → All IsStored (insert_row (row_of e) rows)
unfolding insert_row
insert_row-AllStored e rows h =
    All-append IsStored (select (λ x. not (str_eq x.id e.id)) rows) (row_of e ∷ [])
      (All-select IsStored (λ x. not (str_eq x.id e.id)) rows h) (row_of-IsStored e, tt)

pub mark_deleted-AllStored :
    (id : String) (rows : List Row) → All IsStored rows → All IsStored (mark_deleted id rows)
unfolding mark_deleted
mark_deleted-AllStored id [] h = tt
mark_deleted-AllStored id (r ∷ rows) h = elim (Bool-cases (str_eq r.id id)) [
  | inl e ↦ rw e (h.0, mark_deleted-AllStored id rows h.1)
  | inr e ↦ rw e (h.0, mark_deleted-AllStored id rows h.1)
]

pub seal_rows-AllStored : (rows : List Row) → All IsStored rows → All IsStored (seal_rows rows)
unfolding seal_rows
seal_rows-AllStored [] h = tt
seal_rows-AllStored (r ∷ rows) h = (h.0, seal_rows-AllStored rows h.1)

-- Rows in the order of their texts start in seconds that are in order.
pub by_start-seconds :
    (a b : Row)
    → IsStored a
    → IsStored b
    → by_start a b ≡ true
    → parse a.start_time / second ≤ parse b.start_time / second
by_start-seconds a b sa sb h = stamp_le-seconds (parse a.start_time) (parse b.start_time) (
    subst (λ s. stamp_le s (format (parse b.start_time)) ≡ true) sa
      (subst (λ s. stamp_le a.start_time s ≡ true) sb h))

-- Entries whose start times are in order, up to the second.
abbrev pub Ordered : List RecordingEntry → Type 0
Ordered [] = Unit
Ordered (e ∷ es) = All (λ x. e.start_time / second ≤ x.start_time / second) es × Ordered es

below-All :
    (ch : String) (r : Row) (rows : List Row)
    → IsStored r
    → All IsStored rows
    → All (λ x. by_start r x ≡ true) rows
    → All
        (λ x. (scan_row ch r).start_time / second ≤ x.start_time / second)
        (map (scan_row ch) rows)
unfolding scan_row
below-All ch r [] s ss h = tt
below-All ch r (x ∷ rows) s ss h = (by_start-seconds r x s ss.0 h.0, below-All ch r rows s ss.1 h.1)

Sorted-Ordered :
    (ch : String) (rows : List Row)
    → All IsStored rows
    → Sorted by_start rows
    → Ordered (map (scan_row ch) rows)
Sorted-Ordered ch [] s h = tt
Sorted-Ordered ch (r ∷ rows) s h = (below-All ch r rows s.0 s.1 h.0, Sorted-Ordered ch rows s.1 h.1)

-- A query of stored rows answers in the order of the start times, up to the second.
pub query-Ordered :
    (env : Env) (ch : String) (from to : Time) (idx : Index) (es : List RecordingEntry)
    → All IsStored (rows_of ch idx)
    → (query_by_channel env ch from to idx).1 ≡ ok es
    → Ordered es
query-Ordered env ch from to idx es s q = rw (query_by_channel-ok env ch from to idx es q) (
    Sorted-Ordered ch _
      (All-of_In IsStored _
        (λ r i. All-In IsStored (rows_of ch idx) r s (In-select_range from to r _ i).0))
      (select_range-Sorted from to (rows_of ch idx)))
