-- ===== src/Recorder/Sweep/Seal.antt =====
-- `SealInterrupted`: after a restart no segment of a listed channel is still marked as recording.

use vrtc.Base.{
  ◌≡◌, ◌≢◌, refl, sym, ap, subst, ◌∙◌, Bool, true, false, ◌||◌, ◌&&◌, ◌⊎◌, inl, inr, some, List, [],
  ◌∷◌, map, String, str_eq, str_eq→eq, String-cases, Bool-cases, arith, if◌then◌else◌, All, In,
  In-map,
}
use vrtc.Recorder.Entry.{
  RecordingEntry, Status, recording, complete, interrupted, deleted, corrupted,
}
use vrtc.Recorder.Table.{Row, scan_row, sealed_status, seal_row, seal_rows, select_range}
use vrtc.Recorder.Table.Listed.{In-select_range_of}
use vrtc.Recorder.Index.{
  Index, Env, DirEntry, Result, ok, err, db_of, has_file, write_db, get_db, query_by_channel,
}
use vrtc.Recorder.Index.Handles.{db_of-write_db, db_of-get_db, get_db_ok}
use vrtc.Recorder.Index.Query.{rows_of, with_db_ok, query_by_channel-ok}
use vrtc.Recorder.Sweep.{
  and_then, seal_channel, is_skipped, seal_from, seal_interrupted, in_listing,
}

cons_path : {a b : Row} {xs ys : List Row} → a ≡ b → xs ≡ ys → a ∷ xs ≡ b ∷ ys
cons_path p q = cc

seal_twice : (r : Row) → seal_row (seal_row r) ≡ seal_row r
seal_twice r = ground arith

seal_rows-idempotent : (rows : List Row) → seal_rows (seal_rows rows) ≡ seal_rows rows
unfolding seal_rows
seal_rows-idempotent [] = refl
seal_rows-idempotent (r ∷ rows) = cons_path (seal_twice r) (seal_rows-idempotent rows)

-- Whether the base directory has a directory of this name.
abbrev pub is_channel_dir : String → List DirEntry → Bool
is_channel_dir ch [] = false
is_channel_dir ch (d ∷ ds) = d.is_dir && str_eq d.name ch || is_channel_dir ch ds

-- What the rows of each channel are once those of the chosen channels are sealed.
abbrev pub SealedAt : (String → Bool) → Index → Index → Type 0
SealedAt chosen idx out =
    (j : String) → rows_of j out ≡ (if chosen j then seal_rows (rows_of j idx) else rows_of j idx)

seal_channel-rows :
    (env : Env) (ch : String) (idx : Index)
    → env.answers ch ≡ true
    → ((seal_channel env ch idx).1 ≡ ok tt) × SealedAt (str_eq ch) idx (seal_channel env ch idx).0
unfolding seal_channel
seal_channel-rows env ch idx a =
    let i = (get_db env ch idx).0 in
    let opened =
      with_db_ok env ch (get_db env ch idx)
        (λ i.
          (write_db ch (record (db_of ch i) { recordings = seal_rows (rows_of ch i) }) i, ok tt))
        (get_db_ok env ch idx a) a in
    (
      ap (λ r. r.1) opened,
      λ j.
          ap (λ r. rows_of j r.0) opened
          ∙ ap (λ db. db.recordings) (db_of-write_db ch j _ i)
          ∙ elim (String-cases ch j) [
            | inl (s, q) ↦ rw s (
                ap seal_rows (
                  ap (λ db. db.recordings) (db_of-get_db env ch ch idx)
                  ∙ ap (λ k. rows_of k idx) q))
            | inr (s, q) ↦ rw s (ap (λ db. db.recordings) (db_of-get_db env ch j idx))
          ],
    )

no_file : (ch : String) (idx : Index) → has_file ch idx ≡ false → rows_of ch idx ≡ []
no_file ch idx h = ground arith

-- A directory without a database has no rows to seal.
skip_rows :
    (d : DirEntry) (idx : Index) (j : String) (b : Bool)
    → is_skipped d idx ≡ true
    → (if b then seal_rows (rows_of j idx) else rows_of j idx)
      ≡ (if d.is_dir && str_eq d.name j || b then seal_rows (rows_of j idx) else rows_of j idx)
unfolding seal_rows
skip_rows d idx j b skip = elim (Bool-cases (d.is_dir && str_eq d.name j)) [
  | inr e ↦ rw e refl
  | inl e ↦
      let q : d.name ≡ j = str_eq→eq d.name j (ground (arith, e)) in
      let gone : has_file d.name idx ≡ false = ground (arith, e, skip) in
      let empty : rows_of j idx ≡ [] =
        subst (λ k. rows_of k idx ≡ []) q (no_file d.name idx gone) in
      rw (e, empty) (same b)
]
  where
    same : (c : Bool) → (if c then seal_rows [] else []) ≡ (if true || b then seal_rows [] else [])
    same true = refl
    same false = refl

-- To seal one channel and then those of a list.
seal_both :
    (x b : Bool) (rows : List Row)
    → (let once = if x then seal_rows rows else rows in if b then seal_rows once else once)
      ≡ (if x || b then seal_rows rows else rows)
seal_both true true rows = seal_rows-idempotent rows
seal_both true false rows = refl
seal_both false true rows = refl
seal_both false false rows = refl

ok-injective : {A : Type 0} {x y : A} → ok x ≡ ok y → x ≡ y
ok-injective h = cc

and_then-ok :
    {A B : Type 0} (r : Index × Result A) (k : Index → A → Index × Result B) (x : A)
    → r.1 ≡ ok x
    → and_then r k ≡ k r.0 x
and_then-ok (idx, ok y) k x h = ap (k idx) (ok-injective h)
and_then-ok (idx, err e) k x h = cc

seal_from-rows :
    (env : Env) (ds : List DirEntry) (idx : Index)
    → ((j : String) → env.answers j ≡ true)
    → ((seal_from env ds idx).1 ≡ ok tt)
      × SealedAt (λ j. is_channel_dir j ds) idx (seal_from env ds idx).0
unfolding seal_from
seal_from-rows env [] idx a = (refl, λ j. refl)
seal_from-rows env (d ∷ ds) idx a = elim (Bool-cases (is_skipped d idx)) [
  | inl skip ↦
      let (fine, rows) = seal_from-rows env ds idx a in
      rw skip (fine, λ j. rows j ∙ skip_rows d idx j (is_channel_dir j ds) skip)
  | inr opens ↦
      let (once, first) = seal_channel-rows env d.name idx (a d.name) in
      let i = (seal_channel env d.name idx).0 in
      let (fine, rows) = seal_from-rows env ds i a in
      let go = and_then-ok (seal_channel env d.name idx) (λ i _. seal_from env ds i) tt once in
      let dir : d.is_dir ≡ true = ground (arith, opens) in
      rw opens (
        ap (λ r. r.1) go ∙ fine,
        λ j.
            ap (λ r. rows_of j r.0) go
            ∙ rows j
            ∙ ap (λ rs. if is_channel_dir j ds then seal_rows rs else rs) (first j)
            ∙ seal_both (str_eq d.name j) (is_channel_dir j ds) (rows_of j idx)
            ∙ (rw dir refl),
      )
]

seal_row-status : (r : Row) → (seal_row r).status ≢ recording
seal_row-status r h = ground arith

sealed-none_recording : (rows : List Row) → All (λ r. r.status ≢ recording) (seal_rows rows)
unfolding seal_rows
sealed-none_recording [] = tt
sealed-none_recording (r ∷ rows) = (seal_row-status r, sealed-none_recording rows)

-- Sealing an index whose databases all answer succeeds, and seals the rows of every channel with a
-- directory.
pub seal_interrupted-seal_rows :
    (env : Env) (ds : List DirEntry) (idx : Index)
    → env.listing ≡ some ds
    → ((j : String) → env.answers j ≡ true)
    → ((seal_interrupted env idx).1 ≡ ok tt)
      × ((j : String)
          → rows_of j (seal_interrupted env idx).0
            ≡ (if is_channel_dir j ds then seal_rows (rows_of j idx) else rows_of j idx))
      × ((j : String)
          → is_channel_dir j ds ≡ true
          → All (λ r. r.status ≢ recording) (rows_of j (seal_interrupted env idx).0))
unfolding seal_interrupted
seal_interrupted-seal_rows env ds idx l a =
    let (fine, rows) = seal_from-rows env ds idx a in
    let scan = ap (λ o. in_listing o (seal_from env) idx) l in
    let after = λ (j : String). ap (λ r. rows_of j r.0) scan ∙ rows j in
    (
      ap (λ r. r.1) scan ∙ fine,
      after,
      λ j dir.
          subst (All (λ r. r.status ≢ recording)) (sym (after j ∙ (rw dir refl)))
            (sealed-none_recording (rows_of j idx)),
    )

-- What becomes of one row, and of the rows of a channel one by one.
abbrev pub IsSealed : Row → Row → Type 0
IsSealed r x =
    (r.status ≡ recording) × (x ≡ record r { status = interrupted })
    ⊎ (r.status ≢ recording) × (x ≡ r)

abbrev pub AreSealed : List Row → List Row → Type 0
AreSealed [] [] = Unit
AreSealed [] (x ∷ xs) = ⊥
AreSealed (r ∷ rows) [] = ⊥
AreSealed (r ∷ rows) (x ∷ xs) = IsSealed r x × AreSealed rows xs

-- The rows of a channel with a directory, and those of one without.
abbrev pub IsOutcome : Bool → List Row → List Row → Type 0
IsOutcome true rows out = AreSealed rows out
IsOutcome false rows out = out ≡ rows

-- A row with a status that sealing leaves alone.
unchanged-IsSealed :
    (r : Row) (st : Status)
    → sealed_status st ≡ st
    → st ≢ recording
    → r.status ≡ st
    → IsSealed r (seal_row r)
unchanged-IsSealed r st same other e = inr (
  λ h. other (sym e ∙ h),
  ap (λ (t : Status). record r { status = t }) (ap sealed_status e ∙ same ∙ sym e),
)

seal_row-IsSealed : (r : Row) → IsSealed r (seal_row r)
seal_row-IsSealed r = at r.status refl
  where
    at : (st : Status) → r.status ≡ st → IsSealed r (seal_row r)
    at recording e = inl (e, ap (λ (t : Status). record r { status = sealed_status t }) e)
    at complete e = unchanged-IsSealed r complete refl (λ h. cc) e
    at interrupted e = unchanged-IsSealed r interrupted refl (λ h. cc) e
    at deleted e = unchanged-IsSealed r deleted refl (λ h. cc) e
    at corrupted e = unchanged-IsSealed r corrupted refl (λ h. cc) e

seal_rows-AreSealed : (rows : List Row) → AreSealed rows (seal_rows rows)
unfolding seal_rows
seal_rows-AreSealed [] = tt
seal_rows-AreSealed (r ∷ rows) = (seal_row-IsSealed r, seal_rows-AreSealed rows)

seal_if-IsOutcome :
    (dir : Bool) (rows : List Row) → IsOutcome dir rows (if dir then seal_rows rows else rows)
seal_if-IsOutcome true rows = seal_rows-AreSealed rows
seal_if-IsOutcome false rows = refl

-- Sealing an index whose databases all answer succeeds. In every channel with a directory each row
-- whose status is recording is there with the status interrupted, and each other row as it was, in
-- the same places; the rows of every other channel are as they were.
pub seal_interrupted-rows :
    (env : Env) (ds : List DirEntry) (idx : Index)
    → env.listing ≡ some ds
    → ((j : String) → env.answers j ≡ true)
    → ((seal_interrupted env idx).1 ≡ ok tt)
      × ((j : String)
          → IsOutcome
              (is_channel_dir j ds)
              (rows_of j idx)
              (rows_of j (seal_interrupted env idx).0))
seal_interrupted-rows env ds idx l a =
    let sealed = seal_interrupted-seal_rows env ds idx l a in
    (
      sealed.0,
      λ j.
          subst (IsOutcome (is_channel_dir j ds) (rows_of j idx)) (sym (sealed.1 j))
            (seal_if-IsOutcome (is_channel_dir j ds) (rows_of j idx)),
    )

In-seal_rows : (r : Row) (rows : List Row) → In r rows → In (seal_row r) (seal_rows rows)
unfolding seal_rows
In-seal_rows r rows i = In-map seal_row r rows i

-- A segment that a crash left recording is playable after the restart: sealed, it is in the answer
-- of a query over its channel as interrupted.
pub query-seal_interrupted :
    (env env' : Env) (ds : List DirEntry) (ch : String) (idx : Index) (r : Row)
    (es : List RecordingEntry)
    → env.listing ≡ some ds
    → ((j : String) → env.answers j ≡ true)
    → is_channel_dir ch ds ≡ true
    → In r (rows_of ch idx)
    → r.status ≡ recording
    → (query_by_channel env' ch 0 0 (seal_interrupted env idx).0).1 ≡ ok es
    → In (scan_row ch (record r { status = interrupted })) es
query-seal_interrupted env env' ds ch idx r es l a dir i rec q =
    let out = (seal_interrupted env idx).0 in
    let (fine, rows, clean) = seal_interrupted-seal_rows env ds idx l a in
    let becomes : seal_row r ≡ record r { status = interrupted } = ground (arith, rec) in
    let there : In (seal_row r) (rows_of ch out) =
      rw (rows ch, dir) (In-seal_rows r (rows_of ch idx) i) in
    let listed : In (seal_row r) (select_range 0 0 (rows_of ch out)) =
      In-select_range_of 0 0 (seal_row r) (rows_of ch out) there (rw rec refl) in
    rw (query_by_channel-ok env' ch 0 0 out es q) (
      subst (λ x. In (scan_row ch x) (map (scan_row ch) (select_range 0 0 (rows_of ch out))))
        becomes (In-map (scan_row ch) (seal_row r) _ listed))
