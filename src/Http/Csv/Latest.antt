-- ===== src/Http/Csv/Latest.antt =====
-- pkg/edgeview/http_cameras.go: what an import leaves in the channel file.
use vrtc.Base.{
  ℕ, ◌+◌, ◌≡◌, refl, subst, ap, ◌∙◌, Bool, true, false, Option, List, [], ◌∷◌, String, arith,
  if◌then◌else◌,
}
use vrtc.Channels.{Channel, Result, ok, err, File, Env, save_channel, get_channel}
use vrtc.Channels.Changes.{saved_or, save_channel-get}
use vrtc.View.Cameras.{register_camera}
use vrtc.Http.Cameras.{State, camera_of}
use vrtc.Http.Csv.{
  Read, cells, broken, Import, imported, read_failed, save_failed, is_blank, record_to_channel,
  or_failed, save_csv_records,
}

abbrev pub finished : State → ℕ → State × Import
finished st m = (st, imported m)

module _ (column : String → Option ℕ) where
  -- The channel that a file is to have under an id after an import: that of the last record of the id
  -- that is not blank, or the one it had.
  unfoldable pub latest : String → List (Env × Read) → Result Channel → Result Channel
  latest id [] before = before
  latest id ((env, broken) ∷ rest) before = before
  latest id ((env, cells row) ∷ rest) before =
      let ch = record_to_channel row column in
      latest id rest (if is_blank ch then before else saved_or ch id before)

  -- How many records are not blank.
  unfoldable pub count_kept : List (Env × Read) → ℕ
  count_kept [] = 0
  count_kept ((env, broken) ∷ rest) = 0
  count_kept ((env, cells row) ∷ rest) =
      (if is_blank (record_to_channel row column) then 0 else 1) + count_kept rest

  -- What an import from a count on has done, if it ends well.
  abbrev IsImported : String → ℕ → List (Env × Read) → Result Channel → ℕ → State × Import → Type 0
  IsImported id n rows before kept (st, imported m) =
      (get_channel id st.file ≡ latest id rows before) × (m ≡ n + kept)
  IsImported id n rows before kept (st, read_failed m) = Unit
  IsImported id n rows before kept (st, save_failed m) = Unit

  module _ (id : String) (n k : ℕ) (rest : List (Env × Read)) where
    IsImported-skip :
        (before : Result Channel) (x : State × Import)
        → IsImported id n rest before k x
        → IsImported id n rest before (0 + k) x
    IsImported-skip before (st, imported m) (e, q) = (e, omega arith)
    IsImported-skip before (st, read_failed m) h = tt
    IsImported-skip before (st, save_failed m) h = tt

    IsImported-save :
        (st : State) (before after : Result Channel) (r : File × Result (Unit {0}))
        → (r.1 ≡ ok tt → after ≡ before)
        → (x : State × Import) → IsImported id (n + 1) rest after k x
        → IsImported id n rest before (1 + k) (or_failed n st r x)
    IsImported-save st before after (file, err e) same x h = tt
    IsImported-save st before after (file, ok u) same (st', imported m) (e, q) =
        (e ∙ ap (latest id rest) (same refl), omega arith)
    IsImported-save st before after (file, ok u) same (st', read_failed m) h = tt
    IsImported-save st before after (file, ok u) same (st', save_failed m) h = tt

    IsImported-if :
        (b : Bool) (before saved : Result Channel) (x y : State × Import)
        → IsImported id n rest before (0 + k) x
        → IsImported id n rest saved (1 + k) y
        → IsImported id n rest
            (if b then before else saved)
            ((if b then 0 else 1) + k)
            (if b then x else y)
    IsImported-if true before saved x y p q = p
    IsImported-if false before saved x y p q = q

  save_csv_records-IsImported :
      (id : String) (rows : List (Env × Read)) (n : ℕ) (st : State)
      → IsImported id n rows
          (get_channel id st.file)
          (count_kept rows)
          (save_csv_records column rows n st)
  unfolding save_csv_records latest count_kept
  save_csv_records-IsImported id [] n st = (refl, omega arith)
  save_csv_records-IsImported id ((env, broken) ∷ rest) n st = tt
  save_csv_records-IsImported id ((env, cells row) ∷ rest) n st =
      let ch = record_to_channel row column in
      let r = save_channel env ch st.file in
      let next : State = record {
        file = r.0;
        cameras = register_camera (camera_of ch) st.cameras;
      } in
      let before = get_channel id st.file in
      let k = count_kept rest in
      let skipped = save_csv_records column rest n st in
      let saved = save_csv_records column rest (n + 1) next in
      IsImported-if id n k rest (is_blank ch) before (saved_or ch id before) skipped
        (or_failed n st r saved)
        (IsImported-skip id n k rest before skipped (save_csv_records-IsImported id rest n st))
        (IsImported-save id n k rest st (saved_or ch id before) (get_channel id r.0) r
          (λ e. (save_channel-get env ch id st.file e).1) saved
          (save_csv_records-IsImported id rest (n + 1) next))

  -- An import that ends well counts the records that are not blank, and after it the file has under
  -- every id the channel of the last record of that id that is not blank, or, where there is none,
  -- the one it had before.
  pub save_csv_records-latest :
      (id : String) (rows : List (Env × Read)) (st : State) (st' : State) (m : ℕ)
      → save_csv_records column rows 0 st ≡ finished st' m
      → (get_channel id st'.file ≡ latest id rows (get_channel id st.file)) × (m ≡ count_kept rows)
  save_csv_records-latest id rows st st' m e =
      let (a, b) =
        subst (IsImported id 0 rows (get_channel id st.file) (count_kept rows)) e
          (save_csv_records-IsImported id rows 0 st) in
      (a, omega arith)
