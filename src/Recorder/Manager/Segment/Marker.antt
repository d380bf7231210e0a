-- ===== src/Recorder/Manager/Segment/Marker.antt =====
-- pkg/recorder/recorder.go: the rows of a segment, from the marker of its start to its end.
use vrtc.Base.{
  inl, inr, join, ◌≡◌, refl, ap, sym, ◌∙◌, Bool, true, not, ◌&&◌, Bool-cases, List, [], ◌∷◌, ◌++◌,
  ◌/◌, str_eq, str_eq_refl, select, select-ext, select-select,
}
use vrtc.Clock.{Time}
use vrtc.Recorder.Table.{Row, row_of, insert_row}
use vrtc.Recorder.Index.Query.{rows_of, insert-rows}
use vrtc.Recorder.Manager.{Schedule, Manager, SegmentCloseInfo, World}
use vrtc.Recorder.Manager.Segment.{entry_id, closed_entry, marker_entry, on_close, open_muxer}

select-append :
    {A : Type 0}
    → (p : A → Bool) (xs ys : List A) → select p (xs ++ ys) ≡ select p xs ++ select p ys
select-append p [] ys = refl
select-append p (x ∷ xs) ys = elim (Bool-cases (p x)) [
  | inl e ↦ rw (e, select-append p xs ys) refl
  | inr e ↦ rw (e, select-append p xs ys) refl
]

append-nil' : {A : Type 0} → (xs : List A) → xs ++ [] ≡ xs
append-nil' [] = refl
append-nil' (x ∷ xs) = ap (λ l. x ∷ l) (append-nil' xs)

-- Inserting twice under one id is inserting the second.
insert_row-twice :
    (r s : Row) (rows : List Row)
    → r.id ≡ s.id
    → insert_row s (insert_row r rows) ≡ insert_row s rows
unfolding insert_row
insert_row-twice r s rows e =
    let other : Row → Bool = λ x. not (str_eq x.id s.id) in
    let others : Row → Bool = λ x. not (str_eq x.id r.id) in
    let gone : select other (r ∷ []) ≡ [] = rw (e, str_eq_refl s.id) refl in
    ap (λ l. l ++ s ∷ [])
      (select-append other (select others rows) (r ∷ [])
        ∙ ap (λ l. select other (select others rows) ++ l) gone
        ∙ append-nil' (select other (select others rows))
        ∙ select-select other others rows
        ∙ select-ext (λ x. others x && other x) other
            (λ x. rw e (elim (Bool-cases (other x)) [ inl t ↦ rw t refl | inr t ↦ rw t refl ]))
            rows)

-- The end of a segment replaces its marker: after a muxer that started in the same millisecond was
-- opened, the callback leaves one row of the segment's id in the channel, that of the closed
-- segment, behind the rows of all other ids as they were before both.
pub on_close-replaces_marker :
    (w : World) (s : Schedule) (start : Time) (info : SegmentCloseInfo) (m : Manager)
    → w.db.answers s.channel_id ≡ true
    → start / 1_000_000 ≡ info.start / 1_000_000
    → rows_of s.channel_id (on_close w s info (open_muxer w s start m)).index
      ≡ select (λ r. not (str_eq r.id (entry_id w s start))) (rows_of s.channel_id m.index)
        ++ row_of (closed_entry w s info) ∷ []
unfolding on_close open_muxer insert_row
on_close-replaces_marker w s start info m a t =
    let ch = s.channel_id in
    let marker = marker_entry w s start in
    let entry = closed_entry w s info in
    let same : marker.id ≡ entry.id =
      ap (λ ms. join "recorder-" (join s.id (join "-" (w.stamp_ms ms)))) t in
    let marked : rows_of ch (open_muxer w s start m).index
        ≡ insert_row (row_of marker) (rows_of ch m.index) =
      (insert-rows w.db marker ch m.index a).1 ∙ rw (str_eq_refl ch) refl in
    let closed =
      (insert-rows w.db entry ch (open_muxer w s start m).index a).1 ∙ rw (str_eq_refl ch) refl in
    closed
    ∙ ap (insert_row (row_of entry)) marked
    ∙ insert_row-twice (row_of marker) (row_of entry) (rows_of ch m.index) same
    ∙ ap (λ i. select (λ r. not (str_eq r.id i)) (rows_of ch m.index) ++ row_of entry ∷ [])
        (sym same)
