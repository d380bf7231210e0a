-- ===== src/Recorder/Table/Newest.antt =====
-- The first and the last row of a table, and what an empty answer means.
use mathlib.Core.List.{head?}
use vrtc.Base.{
  ◌≡◌, ap, true, none, some, List, [], arith, select, sort_by, head-sort_by, head-sort_by-none,
  select-ext, In, In-select, In-select_of,
}
use vrtc.Recorder.Stamp.{stamp_le}
use vrtc.Recorder.Stamp.Order.{stamp_le_total, stamp_le_trans}
use vrtc.Recorder.Table.{
  Row, is_listed, in_range, by_start, by_start_desc, select_range, first_row, last_row,
}

-- The first row is the first of the whole answer.
pub first_row-eq : (rows : List Row) → first_row rows ≡ head? (select_range 0 0 rows)
unfolding first_row select_range
first_row-eq rows =
    ap (λ xs. head? (sort_by by_start xs))
      (select-ext (λ r. is_listed r.status) (in_range 0 0) (λ r. ground arith) rows)

-- The last row is listed, and no listed row starts after it.
pub last_row-some :
    (r : Row) (rows : List Row)
    → last_row rows ≡ some r
    → In r rows
      × (is_listed r.status ≡ true)
      × ((x : Row)
          → In x rows
          → is_listed x.status ≡ true
          → stamp_le x.start_time r.start_time ≡ true)
unfolding last_row
last_row-some r rows h =
    let newest =
      head-sort_by by_start_desc (λ a b. stamp_le_total b.start_time a.start_time)
        (λ a b c p q. stamp_le_trans c.start_time b.start_time a.start_time q p) r
        (select (λ x. is_listed x.status) rows) h in
    let (i, t) = In-select (λ x. is_listed x.status) r rows newest.0 in
    (i, t, λ x ix tx. newest.1 x (In-select_of (λ y. is_listed y.status) x rows ix tx))

-- There is no last row exactly when no row is listed.
pub last_row-none :
    (rows : List Row) → last_row rows ≡ none → select (λ r. is_listed r.status) rows ≡ []
unfolding last_row
last_row-none rows h =
    head-sort_by-none by_start_desc (λ a b. stamp_le_total b.start_time a.start_time)
      (λ a b c p q. stamp_le_trans c.start_time b.start_time a.start_time q p)
      (select (λ x. is_listed x.status) rows) h

pub first_row-none :
    (rows : List Row) → first_row rows ≡ none → select (λ r. is_listed r.status) rows ≡ []
unfolding first_row
first_row-none rows h =
    head-sort_by-none by_start (λ a b. stamp_le_total a.start_time b.start_time)
      (λ a b c. stamp_le_trans a.start_time b.start_time c.start_time)
      (select (λ x. is_listed x.status) rows) h

-- The two agree on whether there is a row.
pub first_row-last_row : (rows : List Row) → first_row rows ≡ none → last_row rows ≡ none
unfolding last_row sort_by
first_row-last_row rows h = rw (first_row-none rows h)
