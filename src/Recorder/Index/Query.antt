-- ===== src/Recorder/Index/Query.antt =====
-- What the reading methods answer, in terms of the rows of the channel alone.
use mathlib.Core.Bool.{false≢true}
use vrtc.Base.{
  ℕ, ◌≡◌, refl, sym, ap, subst, ◌∙◌, inl, inr, Bool, true, false, not, List, [], ◌∷◌, map, String,
  str_eq, arith, select, All, All-of_In, In, In-map, All-map, if◌then◌else◌, str_eq_refl,
  String-cases, Bool-cases, ◌≢◌, ◌<◌, ◌+◌, ◌*◌, In-select, In-append,
}
use vrtc.Clock.{Time, second}
use vrtc.Recorder.Entry.{RecordingEntry}
use vrtc.Recorder.Stamp.{format, stamp_le}
use vrtc.Recorder.Stamp.Order.{stamp_le-misorders, parse-format}
use vrtc.Recorder.Table.{Row, row_of, scan_row, insert_row, is_listed, in_range, select_range}
use vrtc.Recorder.Table.Listed.{
  In-select_range, In-select_range_of, In-insert_row, is_listed_of_in_range,
}
use vrtc.Recorder.Index.{
  Index, Env, Result, ok, err, io_failure, db_of, write_db, get_db, with_db, insert,
  query_by_channel,
}
use vrtc.Recorder.Index.Handles.{db_of-write_db, db_of-get_db, get_db_ok}

-- The rows of a channel.
abbrev pub rows_of : String → Index → List Row
rows_of ch idx = (db_of ch idx).recordings

pub with_db_ok :
    {A : Type 0} (env : Env) (ch : String) (r : Index × Bool) (k : Index → Index × Result A)
    → r.1 ≡ true
    → env.answers ch ≡ true
    → with_db env ch r k ≡ k r.0
with_db_ok env ch (i, true) k o a = rw a
with_db_ok env ch (i, false) k o a = cc

-- A query answers with the listed rows of the channel in the range, read back, by start text.
pub query_by_channel-eq :
    (env : Env) (ch : String) (from to : Time) (idx : Index)
    → env.answers ch ≡ true
    → (query_by_channel env ch from to idx).1
      ≡ ok (map (scan_row ch) (select_range from to (rows_of ch idx)))
unfolding query_by_channel
query_by_channel-eq env ch from to idx a =
    ap (λ r. r.1) (with_db_ok env ch (get_db env ch idx) _ (get_db_ok env ch idx a) a)
    ∙ ap (λ db. ok (map (scan_row ch) (select_range from to db.recordings)))
        (db_of-get_db env ch ch idx)

pub with_db-answers :
    {A : Type 0} (env : Env) (ch : String) (r : Index × Bool) (k : Index → Index × Result A) (x : A)
    → (with_db env ch r k).1 ≡ ok x
    → env.answers ch ≡ true
with_db-answers env ch (i, true) k x h = elim (Bool-cases (env.answers ch)) [
  | inl a ↦ a
  | inr a ↦
      let bad = subst (λ (b : Bool). (if b then k i else (i, err io_failure)).1 ≡ ok x) a h in cc
]
with_db-answers env ch (i, false) k x h = cc

pub query_by_channel-answers :
    (env : Env) (ch : String) (from to : Time) (idx : Index) (es : List RecordingEntry)
    → (query_by_channel env ch from to idx).1 ≡ ok es
    → env.answers ch ≡ true
unfolding query_by_channel
query_by_channel-answers env ch from to idx es h = with_db-answers env ch (get_db env ch idx) _ es h

-- A query that succeeds has that answer, so its database does.
pub query_by_channel-ok :
    (env : Env) (ch : String) (from to : Time) (idx : Index) (es : List RecordingEntry)
    → (query_by_channel env ch from to idx).1 ≡ ok es
    → es ≡ map (scan_row ch) (select_range from to (rows_of ch idx))
query_by_channel-ok env ch from to idx es h =
    let a = query_by_channel-answers env ch from to idx es h in
    let q = sym h ∙ query_by_channel-eq env ch from to idx a in ground (arith, q)

-- What `Insert` writes: the row of the entry, in the tables of its channel.
pub insert-rows :
    (env : Env) (e : RecordingEntry) (j : String) (idx : Index)
    → env.answers e.channel_id ≡ true
    → ((insert env e idx).1 ≡ ok tt)
      × (rows_of j (insert env e idx).0 ≡ (
          if str_eq e.channel_id j then insert_row (row_of e) (rows_of j idx) else rows_of j idx))
unfolding insert
insert-rows env e j idx a =
    let i = (get_db env e.channel_id idx).0 in
    let opened =
      with_db_ok env e.channel_id (get_db env e.channel_id idx)
        (λ i. (
          write_db e.channel_id
              (record (db_of e.channel_id i) {
                recordings = insert_row (row_of e) (rows_of e.channel_id i);
              })
              i,
          ok tt,
        ))
        (get_db_ok env e.channel_id idx a) a in
    (
      ap (λ r. r.1) opened,
      ap (λ r. rows_of j r.0) opened
          ∙ ap (λ db. db.recordings) (db_of-write_db e.channel_id j _ i)
          ∙ elim (String-cases e.channel_id j) [
            | inl (s, q) ↦ rw s (
                ap (insert_row (row_of e)) (
                  ap (λ db. db.recordings) (db_of-get_db env e.channel_id e.channel_id idx)
                  ∙ ap (λ k. rows_of k idx) q))
            | inr (s, q) ↦ rw s (ap (λ db. db.recordings) (db_of-get_db env e.channel_id j idx))
          ],
    )

-- The entry that the row of `e` is read back as.
scan-row_of :
    (e : RecordingEntry) → scan_row e.channel_id (row_of e) ≡ record e { has_events = false }
unfolding scan_row
scan-row_of e = ground (arith, parse-format e.start_time, parse-format e.end_time)

-- A playable entry that was inserted is answered by a query of its channel, with every field but
-- `has_events`, which the index does not store.
pub query-insert :
    (env env' : Env) (e : RecordingEntry) (idx : Index) (es : List RecordingEntry)
    → env.answers e.channel_id ≡ true
    → env'.answers e.channel_id ≡ true
    → is_listed e.status ≡ true
    → (query_by_channel env' e.channel_id 0 0 (insert env e idx).0).1 ≡ ok es
    → In (record e { has_events = false }) es
query-insert env env' e idx es a a' l q =
    let rows = rows_of e.channel_id (insert env e idx).0 in
    let stored : In (row_of e) rows =
      rw ((insert-rows env e e.channel_id idx a).1, str_eq_refl e.channel_id)
        (In-insert_row (row_of e) (rows_of e.channel_id idx)) in
    let listed : In (row_of e) (select_range 0 0 rows) =
      In-select_range_of 0 0 (row_of e) rows stored (rw l) in
    rw (query_by_channel-ok env' e.channel_id 0 0 _ es q)
      (rw (← scan-row_of e) (In-map (scan_row e.channel_id) (row_of e) _ listed))

-- Every entry that a query answers with has a playable status and is of the channel.
pub query-playable :
    (env : Env) (ch : String) (from to : Time) (idx : Index) (es : List RecordingEntry)
    → (query_by_channel env ch from to idx).1 ≡ ok es
    → All (λ e. (is_listed e.status ≡ true) × (e.channel_id ≡ ch)) es
unfolding scan_row
query-playable env ch from to idx es q = rw (query_by_channel-ok env ch from to idx es q) (
    All-map (scan_row ch) (λ e. (is_listed e.status ≡ true) × (e.channel_id ≡ ch)) _
      (All-of_In _ _
        (λ r i. (is_listed_of_in_range from to r (In-select_range from to r _ i).1, refl))))

-- The rows of an id are one after an insertion, and the texts decide whether it is in range.
insert_row-id : (r x : Row) (rows : List Row) → In x (insert_row r rows) → x.id ≡ r.id → x ≡ r
unfolding insert_row
insert_row-id r x rows i e =
    elim (In-append (select (λ y. not (str_eq y.id r.id)) rows) (r ∷ []) x i) [
      | inl old ↦
          let kept = (In-select (λ y. not (str_eq y.id r.id)) x rows old).1 in
          absurd (
            false≢true
              (sym (ap not (subst (λ k. str_eq k r.id ≡ true) (sym e) (str_eq_refl r.id))) ∙ kept))
      | inr new ↦ elim new [ inl q ↦ q | inr none_left ↦ absurd none_left ]
    ]

-- A bound that is a whole second loses a segment that ends later in the same second: right after
-- the insertion of an entry that ends `f` nanoseconds past second `s`, a query from second `s` on
-- answers without it.
pub query-loses_fraction :
    (env env' : Env) (e : RecordingEntry) (to : Time) (idx : Index) (es : List RecordingEntry)
    (s f : ℕ)
    → env.answers e.channel_id ≡ true
    → 0 < s
    → 0 < f
    → f < second
    → e.end_time ≡ s * second + f
    → (query_by_channel env' e.channel_id (s * second) to (insert env e idx).0).1 ≡ ok es
    → All (λ x. x.id ≢ e.id) es
unfolding scan_row
query-loses_fraction env env' e to idx es s f a sp fp fs end q =
    let rows = rows_of e.channel_id (insert env e idx).0 in
    let stored : rows ≡ insert_row (row_of e) (rows_of e.channel_id idx) =
      (insert-rows env e e.channel_id idx a).1 ∙ (rw (str_eq_refl e.channel_id) refl) in
    let late : stamp_le (format (s * second)) (format e.end_time) ≡ false =
      subst (λ t. stamp_le (format (s * second)) (format t) ≡ false) (sym end)
        (stamp_le-misorders s f fp fs) in
    rw (query_by_channel-ok env' e.channel_id (s * second) to _ es q) (
      All-map (scan_row e.channel_id) (λ x. x.id ≢ e.id) _
        (All-of_In _ _ (λ r i same.
          let (ir, tr) = In-select_range (s * second) to r rows i in
          let own : r ≡ row_of e =
            insert_row-id (row_of e) r (rows_of e.channel_id idx) (subst (In r) stored ir) same in
          let inside = subst (λ x. in_range (s * second) to x ≡ true) own tr in
          ground (arith, inside, late))))
