-- ===== src/Recorder/Sweep/Position.antt =====
-- `SeekInSegment`: where a seek inside a segment lands.
use vrtc.Base.{◌≡◌, refl, sym, ap, ◌∙◌, true, false, Option, none, some, List, String, arith, In}
use vrtc.Base.Int.{ℤ, leb_ℤ}
use vrtc.Recorder.Table.{SeekRow, seek_row}
use vrtc.Recorder.Table.Seek.{seek_row-some, seek_row-none}
use vrtc.Recorder.Index.{Index, Env, ok, err, no_rows, db_of, get_db}
use vrtc.Recorder.Index.Handles.{db_of-get_db, get_db_ok}
use vrtc.Recorder.Index.Query.{with_db_ok, with_db-answers}
use vrtc.Recorder.Sweep.{or_no_rows, seek_in_segment}

abbrev pub seeks_of : String → Index → List SeekRow
seeks_of ch idx = (db_of ch idx).seek_index

seek_in_segment-rows :
    (env : Env) (ch id : String) (dts : ℤ) (idx : Index)
    → env.answers ch ≡ true
    → (seek_in_segment env ch id dts idx).1 ≡ or_no_rows (seek_row id dts (seeks_of ch idx))
unfolding seek_in_segment
seek_in_segment-rows env ch id dts idx a =
    ap (λ r. r.1) (with_db_ok env ch (get_db env ch idx) _ (get_db_ok env ch idx a) a)
    ∙ ap (λ db. or_no_rows (seek_row id dts db.seek_index)) (db_of-get_db env ch ch idx)

or_no_rows-ok :
    (o : Option SeekRow) (off : ℤ)
    → or_no_rows o ≡ ok off
    → (s : SeekRow) × (o ≡ some s) × (s.byte_offset ≡ off)
or_no_rows-ok none off h = cc
or_no_rows-ok (some s) off h = (s, refl, ground arith)

or_no_rows-err : (o : Option SeekRow) → or_no_rows o ≡ err no_rows → o ≡ none
or_no_rows-err none h = refl
or_no_rows-err (some s) h = cc

-- A seek that succeeds answers with the offset of a key frame of the recording that stands at or
-- before the position, and no other such key frame is later.
pub seek_in_segment-latest :
    (env : Env) (ch id : String) (dts off : ℤ) (idx : Index)
    → (seek_in_segment env ch id dts idx).1 ≡ ok off
    → (s : SeekRow) × In s (seeks_of ch idx)
      × (s.byte_offset ≡ off)
      × (s.recording_id ≡ id)
      × (leb_ℤ s.dts_ms dts ≡ true)
      × ((x : SeekRow)
          → In x (seeks_of ch idx)
          → x.recording_id ≡ id
          → leb_ℤ x.dts_ms dts ≡ true
          → leb_ℤ x.dts_ms s.dts_ms ≡ true)
seek_in_segment-latest env ch id dts off idx h =
    let a : env.answers ch ≡ true =
      unfold seek_in_segment in with_db-answers env ch (get_db env ch idx) _ off h in
    let (s, found, o) = or_no_rows-ok _ off (sym (seek_in_segment-rows env ch id dts idx a) ∙ h) in
    let (i, e, l, latest) = seek_row-some id dts (seeks_of ch idx) s found in
    (s, i, o, e, l, latest)

-- With the database answering, a seek fails for want of rows only where the recording has no key
-- frame at or before the position.
pub seek_in_segment-none :
    (env : Env) (ch id : String) (dts : ℤ) (idx : Index)
    → env.answers ch ≡ true
    → (seek_in_segment env ch id dts idx).1 ≡ err no_rows
    → (x : SeekRow) → In x (seeks_of ch idx)
    → x.recording_id ≡ id
    → leb_ℤ x.dts_ms dts ≡ false
seek_in_segment-none env ch id dts idx a h =
    seek_row-none id dts (seeks_of ch idx)
      (or_no_rows-err _ (sym (seek_in_segment-rows env ch id dts idx a) ∙ h))
