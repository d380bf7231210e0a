-- ===== src/Recorder/Index/Lifecycle.antt =====
-- `Delete`: what it hides, and what it leaves.
use vrtc.Base.{
  ◌≡◌, ◌≢◌, refl, sym, ap, subst, ◌∙◌, true, false, not, ◌⊎◌, inl, inr, List, [], ◌∷◌, map, String,
  str_eq, arith, if◌then◌else◌, select, Bool-cases, String-cases, str_eq_refl,
}
use mathlib.Core.Bool.{true≢false}
use vrtc.Clock.{Time}
use vrtc.Recorder.Entry.{RecordingEntry}
use vrtc.Recorder.Table.{Row, scan_row, select_range, mark_deleted, has_id}
use vrtc.Recorder.Table.Listed.{select_range-mark_deleted}
use vrtc.Recorder.Index.{
  Index, Env, ok, db_of, write_db, contains, query_by_channel, delete_in, delete,
}
use vrtc.Recorder.Index.Handles.{db_of-write_db}
use vrtc.Recorder.Index.Query.{
  rows_of, query_by_channel-eq, query_by_channel-ok, query_by_channel-answers,
}

-- No open database but the channel's own has a row of the id.
abbrev pub OnlyIn : String → String → Index → Type 0
OnlyIn id ch idx =
    (j : String) → contains j idx.dbs ≡ true → j ≢ ch → has_id id (rows_of j idx) ≡ false

mark_deleted_absent :
    (id : String) (rows : List Row) → has_id id rows ≡ false → mark_deleted id rows ≡ rows
unfolding has_id mark_deleted
mark_deleted_absent id [] h = refl
mark_deleted_absent id (r ∷ rows) h = ground (arith, mark_deleted_absent id rows)

-- What the rows of every channel are after the id was deleted from those of `ch`.
abbrev pub DeletedFrom : String → String → Index → Index → Type 0
DeletedFrom id ch idx out =
    (j : String)
    → rows_of j out ≡ (if str_eq ch j then mark_deleted id (rows_of j idx) else rows_of j idx)

write-DeletedFrom :
    (id ch : String) (idx : Index)
    → DeletedFrom id ch idx
        (write_db ch (record (db_of ch idx) { recordings = mark_deleted id (rows_of ch idx) }) idx)
write-DeletedFrom id ch idx j =
    ap (λ db. db.recordings) (db_of-write_db ch j _ idx) ∙ elim (String-cases ch j) [
      | inl (s, q) ↦ rw s (ap (λ k. mark_deleted id (rows_of k idx)) q)
      | inr (s, q) ↦ rw s refl
    ]

none-DeletedFrom :
    (id ch : String) (idx : Index) → has_id id (rows_of ch idx) ≡ false → DeletedFrom id ch idx idx
none-DeletedFrom id ch idx h j = elim (String-cases ch j) [
  | inl (s, q) ↦ rw s (
      sym (
        mark_deleted_absent id (rows_of j idx)
          (subst (λ k. has_id id (rows_of k idx) ≡ false) q h)))
  | inr (s, q) ↦ rw s refl
]

-- The loop over the open databases, of which only the channel's may have the id.
delete_in-rows :
    (env : Env) (id ch : String) (chs : List String) (idx : Index)
    → ((j : String) → env.answers j ≡ true)
    → ((j : String) → contains j chs ≡ true → j ≢ ch → has_id id (rows_of j idx) ≡ false)
    → ((contains ch chs ≡ true) ⊎ (has_id id (rows_of ch idx) ≡ false))
    → ((delete_in env id chs idx).1 ≡ ok tt) × DeletedFrom id ch idx (delete_in env id chs idx).0
unfolding delete_in contains
delete_in-rows env id ch [] idx a only c =
    (refl, none-DeletedFrom id ch idx (elim c [ inl f ↦ absurd (cc) | inr n ↦ n ]))
delete_in-rows env id ch (k ∷ chs) idx a only c = elim (Bool-cases (has_id id (rows_of k idx))) [
  | inl found ↦ elim (String-cases k ch) [
    | inl (s, q) ↦
        rw (a k, found)
          (
            refl,
            subst
                (λ x. DeletedFrom id x idx (
                  write_db k (record (db_of k idx) { recordings = mark_deleted id (rows_of k idx) })
                    idx))
                q (write-DeletedFrom id k idx),
          )
    | inr (s, q) ↦ absurd (true≢false (sym found ∙ only k (rw (str_eq_refl k)) q))
  ]
  | inr missing ↦
      rw (a k, missing)
        (delete_in-rows env id ch chs idx a (λ j cj. only j (ground (arith, cj)))
          (elim (String-cases k ch) [
            | inl (s, q) ↦ inr (subst (λ x. has_id id (rows_of x idx) ≡ false) q missing)
            | inr (s, q) ↦ elim c [ inl f ↦ inl (ground (arith, f, s)) | inr n ↦ inr n ]
          ]))
]

select-scan :
    (ch id : String) (rows : List Row)
    → map (scan_row ch) (select (λ r. not (str_eq r.id id)) rows)
      ≡ select (λ e. not (str_eq e.id id)) (map (scan_row ch) rows)
unfolding scan_row
select-scan ch id [] = refl
select-scan ch id (r ∷ rows) = elim (Bool-cases (str_eq r.id id)) [
  | inl e ↦ rw e (select-scan ch id rows)
  | inr e ↦ rw (e, select-scan ch id rows)
]

-- Deleting an id from an open channel makes its queries answer as before without the entries of
-- that id, in the same order, and leaves the rows of the other channels alone. The id is in no other
-- open database, and every database answers.
pub query-delete :
    (env env' : Env) (id ch : String) (from to : Time) (idx : Index) (es : List RecordingEntry)
    → ((j : String) → env.answers j ≡ true)
    → contains ch idx.dbs ≡ true
    → OnlyIn id ch idx
    → (query_by_channel env' ch from to idx).1 ≡ ok es
    → ((delete env id idx).1 ≡ ok tt)
      × ((query_by_channel env' ch from to (delete env id idx).0).1
          ≡ ok (select (λ e. not (str_eq e.id id)) es))
      × ((j : String) → j ≢ ch → rows_of j (delete env id idx).0 ≡ rows_of j idx)
unfolding delete
query-delete env env' id ch from to idx es a o only q =
    let (fine, rows) = delete_in-rows env id ch idx.dbs idx a only (inl o) in
    let a' : env'.answers ch ≡ true = query_by_channel-answers env' ch from to idx es q in
    (
      fine,
      query_by_channel-eq env' ch from to _ a'
          ∙ ap (λ rs. ok (map (scan_row ch) (select_range from to rs)))
              (rows ch ∙ (rw (str_eq_refl ch) refl))
          ∙ ap (λ rs. ok (map (scan_row ch) rs))
              (select_range-mark_deleted from to id (rows_of ch idx))
          ∙ ap ok (select-scan ch id (select_range from to (rows_of ch idx)))
          ∙ ap (λ l. ok (select (λ e. not (str_eq e.id id)) l))
              (sym (query_by_channel-ok env' ch from to idx es q)),
      λ j n.
          rows j
          ∙ (elim (String-cases ch j) [ inl (s, q) ↦ absurd (n (sym q)) | inr (s, q) ↦ rw s refl ]),
    )

delete_in-unopened :
    (env : Env) (id ch : String) (chs : List String) (idx : Index)
    → ((j : String) → env.answers j ≡ true)
    → contains ch chs ≡ false
    → ((delete_in env id chs idx).1 ≡ ok tt)
      × (rows_of ch (delete_in env id chs idx).0 ≡ rows_of ch idx)
unfolding delete_in contains
delete_in-unopened env id ch [] idx a c = (refl, refl)
delete_in-unopened env id ch (k ∷ chs) idx a c = elim (Bool-cases (has_id id (rows_of k idx))) [
  | inl found ↦
      rw (a k, found)
        (refl, ap (λ db. db.recordings) (db_of-write_db k ch _ idx) ∙ ground (arith, c))
  | inr missing ↦ rw (a k, missing) (delete_in-unopened env id ch chs idx a (ground (arith, c)))
]

-- Where every database answers, `Delete` reports no error, and the queries of a channel whose database
-- is not open answer as before: a segment of that channel survives.
pub delete-keeps_unopened :
    (env env' : Env) (id ch : String) (from to : Time) (idx : Index)
    → ((j : String) → env.answers j ≡ true)
    → env'.answers ch ≡ true
    → contains ch idx.dbs ≡ false
    → ((delete env id idx).1 ≡ ok tt)
      × ((query_by_channel env' ch from to (delete env id idx).0).1
          ≡ (query_by_channel env' ch from to idx).1)
unfolding delete
delete-keeps_unopened env env' id ch from to idx a a' c =
    let (fine, same) = delete_in-unopened env id ch idx.dbs idx a c in
    (
      fine,
      query_by_channel-eq env' ch from to _ a'
          ∙ ap (λ rs. ok (map (scan_row ch) (select_range from to rs))) same
          ∙ sym (query_by_channel-eq env' ch from to idx a'),
    )
