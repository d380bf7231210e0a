-- ===== src/Recorder/Table/Listed.antt =====
-- What the SELECT statements answer, and how the writing statements change the answer.
use vrtc.Base.{
  ◌≡◌, refl, sym, ap, ◌∙◌, inl, inr, true, false, not, List, [], ◌∷◌, map, String, str_eq, arith,
  select, sort_by, Sorted, sort_by-Sorted, select-sort_by, In, Bool-cases, In-select, In-select_of,
  In-sort_by, In-of_sort_by, In-append_right,
}
use vrtc.Clock.{Time}
use vrtc.Recorder.Stamp.Order.{stamp_le_total, stamp_le_trans}
use vrtc.Recorder.Table.{
  Row, is_listed, in_range, by_start, select_range, delete_row, mark_deleted, insert_row,
}

by_start_total : (a b : Row) → by_start a b ≡ false → by_start b a ≡ true
by_start_total a b = stamp_le_total a.start_time b.start_time

by_start_trans : (a b c : Row) → by_start a b ≡ true → by_start b c ≡ true → by_start a c ≡ true
by_start_trans a b c = stamp_le_trans a.start_time b.start_time c.start_time

-- The rows of an answer stand in the order of their start texts.
pub select_range-Sorted :
    (from to : Time) (rows : List Row) → Sorted by_start (select_range from to rows)
unfolding select_range
select_range-Sorted from to rows = sort_by-Sorted by_start by_start_total by_start_trans _

-- An answer has the listed rows in the range, and no others.
pub In-select_range :
    (from to : Time) (r : Row) (rows : List Row)
    → In r (select_range from to rows)
    → In r rows × (in_range from to r ≡ true)
unfolding select_range
In-select_range from to r rows i =
    In-select (in_range from to) r rows (In-of_sort_by by_start r _ i)

pub In-select_range_of :
    (from to : Time) (r : Row) (rows : List Row)
    → In r rows
    → in_range from to r ≡ true
    → In r (select_range from to rows)
unfolding select_range
In-select_range_of from to r rows i t =
    In-sort_by by_start r _ (In-select_of (in_range from to) r rows i t)

pub In-insert_row : (r : Row) (rows : List Row) → In r (insert_row r rows)
unfolding insert_row
In-insert_row r rows =
    In-append_right r (select (λ x. not (str_eq x.id r.id)) rows) (r ∷ []) (inl refl)

-- A row is listed after the deletion of an id if it was listed and has another.
range-delete_row :
    (from to : Time) (id : String) (rows : List Row)
    → select (in_range from to) (map (delete_row id) rows)
      ≡ select (λ r. not (str_eq r.id id)) (select (in_range from to) rows)
range-delete_row from to id [] = refl
range-delete_row from to id (r ∷ rows) = elim (Bool-cases (str_eq r.id id)) [
  | inl e ↦ elim (Bool-cases (in_range from to r)) [
    | inl t ↦ rw (e, t) (rw e (range-delete_row from to id rows))
    | inr t ↦ rw (e, t) (range-delete_row from to id rows)
  ]
  | inr e ↦ elim (Bool-cases (in_range from to r)) [
    | inl t ↦ rw (e, t) (rw (e, range-delete_row from to id rows))
    | inr t ↦ rw (e, t) (range-delete_row from to id rows)
  ]
]

-- The answer after the deletion of an id is the answer before it, without the rows of that id.
pub select_range-mark_deleted :
    (from to : Time) (id : String) (rows : List Row)
    → select_range from to (mark_deleted id rows)
      ≡ select (λ r. not (str_eq r.id id)) (select_range from to rows)
unfolding select_range mark_deleted
select_range-mark_deleted from to id rows =
    ap (sort_by by_start) (range-delete_row from to id rows)
    ∙ sym (select-sort_by by_start by_start_total by_start_trans (λ r. not (str_eq r.id id)) _)

pub is_listed_of_in_range :
    (from to : Time) (r : Row) → in_range from to r ≡ true → is_listed r.status ≡ true
is_listed_of_in_range from to r h = ground arith
