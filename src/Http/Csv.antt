-- ===== src/Http/Csv.antt =====
-- pkg/edgeview/http_cameras.go: channels as CSV.
--
-- A CSV is what encoding/csv reads of it: its records, each a list of cells or an error. A reader
-- that failed once ends the import, and so does the end of the records.
pub mod Latest
pub mod RoundTrip
use vrtc.Base.Assoc
use vrtc.Base.{
  ℕ, suc, ◌+◌, ◌≡◌, refl, Bool, true, false, ◌||◌, Option, none, some, List, [], ◌∷◌, map, String,
  str_eq, get_elem?, arith, if◌then◌else◌,
}
use vrtc.Base.Int.{ℤ, pos}
use vrtc.Channels.{Channel, Error, Result, ok, err, File, Env, save_channel, list_channels}
use vrtc.View.Cameras.{Cameras, register_camera}
use vrtc.Http.Text.{trim_space, lower_is}
use vrtc.Http.Range.{Response, problem, unreadable_body, empty_csv, missing_columns, internal}
use vrtc.Http.Range
use vrtc.Http.Cameras.{State, camera_of}

unfoldable pub csv_header : List String
csv_header =
    "id" ∷ "name" ∷ "ip_address" ∷ "manufacturer" ∷ "model" ∷ "username" ∷ "password" ∷ "rtsp_main"
    ∷ "rtsp_sub" ∷ []

abbrev pub text_or_empty : Option String → String
text_or_empty none = ""
text_or_empty (some s) = s

abbrev pub extra_of : String → Channel → String
extra_of key ch = text_or_empty (Assoc.get key ch.extra)

unfoldable pub channel_to_record : Channel → List String
channel_to_record ch =
    ch.id
    ∷ ch.name
    ∷ extra_of "ip_address" ch
    ∷ extra_of "manufacturer" ch
    ∷ extra_of "model" ch
    ∷ ch.username
    ∷ ch.password
    ∷ ch.stream_url
    ∷ extra_of "rtsp_sub" ch
    ∷ []

-- The last column whose name is the key up to case and blanks around it; none stands for -1. The keys
-- of the map that is filled are those of `csv_header`.
unfoldable pub column_from : String → ℕ → List String → Option ℕ
column_from key i [] = none
column_from key i (col ∷ cols) =
    later_or (lower_is (trim_space col) key) i (column_from key (suc i) cols)
  where
    later_or : Bool → ℕ → Option ℕ → Option ℕ
    later_or true i (some j) = some j
    later_or false i (some j) = some j
    later_or true i none = some i
    later_or false i none = none

unfoldable pub build_column_index : List String → String → Option ℕ
build_column_index header key = column_from key 0 header

abbrev pub cell_at : List String → Option ℕ → String
cell_at cells none = ""
cell_at cells (some i) = trim_space (text_or_empty (get_elem? cells i))

abbrev pub add_extra : String → String → List (String × String) → List (String × String)
add_extra key value extra = if str_eq value "" then extra else Assoc.put key value extra

-- `recordToChannel`, by the column of each key.
unfoldable pub record_to_channel : List String → (String → Option ℕ) → Channel
record_to_channel cells column =
    let cell : String → String = λ key. cell_at cells (column key) in
    record {
      id = cell "id";
      name = cell "name";
      stream_url = cell "rtsp_main";
      username = cell "username";
      password = cell "password";
      site_id = pos 1;
      extra = add_extra "rtsp_sub" (cell "rtsp_sub") (
          add_extra "model" (cell "model") (
            add_extra "manufacturer" (cell "manufacturer")
              (add_extra "ip_address" (cell "ip_address") [])));
    }

pub data Read : Type 0 where
  cells : List String → Read
  broken : Read

-- How an import ended, with the number of channels it saved.
pub data Import : Type 0 where
  imported : ℕ → Import
  read_failed save_failed : ℕ → Import

abbrev pub is_blank : Channel → Bool
is_blank ch = str_eq ch.id "" || str_eq ch.stream_url ""

abbrev pub or_failed : ℕ → State → File × Result (Unit {0}) → State × Import → State × Import
or_failed n st (file, err e) go = (record st { file = file }, save_failed n)
or_failed n st (file, ok u) go = go

-- The loop of `saveCSVRecords`: each record comes with what the system answers to its write.
unfoldable pub save_csv_records :
    (String → Option ℕ) → List (Env × Read) → ℕ → State → State × Import
save_csv_records column [] n st = (st, imported n)
save_csv_records column ((env, broken) ∷ rest) n st = (st, read_failed n)
save_csv_records column ((env, cells row) ∷ rest) n st =
    let ch = record_to_channel row column in
    let r = save_channel env ch st.file in
    let next : State = record { file = r.0; cameras = register_camera (camera_of ch) st.cameras } in
    let skipped = save_csv_records column rest n st in
    let saved = save_csv_records column rest (n + 1) next in
    if is_blank ch then skipped else or_failed n st r saved

-- The body of an import: not read at all, without a first record, or with one.
pub data Body : Type 0 where
  unread headless : Body
  table : List String → List (Env × Read) → Body

abbrev pub imported_or_problem : Import → Response ℕ
imported_or_problem (imported n) = Range.ok n
imported_or_problem (read_failed n) = problem 500 internal
imported_or_problem (save_failed n) = problem 500 internal

abbrev pub import_table :
    (String → Option ℕ) → Option ℕ → Option ℕ → List (Env × Read) → State → State × Response ℕ
import_table column none main rows st = (st, problem 400 missing_columns)
import_table column (some i) none rows st = (st, problem 400 missing_columns)
import_table column (some i) (some j) rows st =
    let r = save_csv_records column rows 0 st in (r.0, imported_or_problem r.1)

unfoldable pub import_csv : Body → State → State × Response ℕ
import_csv unread st = (st, problem 400 unreadable_body)
import_csv headless st = (st, problem 400 empty_csv)
import_csv (table header rows) st =
    let column = build_column_index header in
    import_table column (column "id") (column "rtsp_main") rows st

abbrev pub export_or_problem : Result (List Channel) → Response (List (List String))
export_or_problem (err e) = problem 500 internal
export_or_problem (ok chs) = Range.ok (csv_header ∷ map channel_to_record chs)

unfoldable pub export_csv : File → Response (List (List String))
export_csv file = export_or_problem (list_channels file)
