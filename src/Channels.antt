-- ===== src/Channels.antt =====
-- pkg/channel/file.go: the channels in a JSON file.
--
-- The file is read and written as a list of channels: that encoding/json reads back what it wrote is
-- taken for granted. An error that `fmt.Errorf` wraps by %w is told apart from the error itself,
-- since `os.IsNotExist` does not look into wrapped errors.
pub mod Changes
mod Tests
use vrtc.Base.Int.{ℤ}
use vrtc.Base.{Bool, true, false, List, [], ◌∷◌, ◌++◌, String, str_eq, if◌then◌else◌}

-- A channel of the SDK: the fields that the providers keep. `extra` stands for a map.
pub record Channel : Type 0 where
  pub id : String
  pub name : String
  pub stream_url : String
  pub username : String
  pub password : String
  pub site_id : ℤ
  pub extra : List (String × String)

pub data Error : Type 0 where
  file_missing file_error parse_error write_error channel_not_found : Error
  wrapped : Error → Error

pub data Result (A : Type 0) : Type 0 where
  ok : A → Result A
  err : Error → Result A

-- What stands at the path of the provider.
pub data File : Type 0 where
  absent unreadable malformed : File
  holds : List Channel → File

-- A write that fails may leave anything behind.
pub record Env : Type 0 where
  pub can_write : Bool
  pub left_behind : File

-- `os.IsNotExist`
abbrev pub is_not_exist : Error → Bool
is_not_exist file_missing = true
is_not_exist file_error = false
is_not_exist parse_error = false
is_not_exist write_error = false
is_not_exist channel_not_found = false
is_not_exist (wrapped e) = false

unfoldable pub load : File → Result (List Channel)
load absent = err (wrapped file_missing)
load unreadable = err (wrapped file_error)
load malformed = err (wrapped parse_error)
load (holds chs) = ok chs

unfoldable pub save : Env → List Channel → File × Result (Unit {0})
save env chs =
    if env.can_write then (holds chs, ok tt) else (env.left_behind, err (wrapped write_error))

unfoldable pub find : String → List Channel → Result Channel
find id [] = err (wrapped channel_not_found)
find id (ch ∷ chs) = if str_eq ch.id id then ok ch else find id chs

abbrev pub get_in : String → Result (List Channel) → Result Channel
get_in id (ok chs) = find id chs
get_in id (err e) = err e

unfoldable pub get_channel : String → File → Result Channel
get_channel id file = get_in id (load file)

unfoldable pub list_channels : File → Result (List Channel)
list_channels file = load file

-- The loop of `SaveChannel`, with the append where it finds nothing.
unfoldable pub replace : Channel → List Channel → List Channel
replace ch [] = ch ∷ []
replace ch (c ∷ chs) = if str_eq c.id ch.id then ch ∷ chs else c ∷ replace ch chs

abbrev pub save_on : Env → Channel → File → Result (List Channel) → File × Result (Unit {0})
save_on env ch file (ok chs) = save env (replace ch chs)
save_on env ch file (err e) = if is_not_exist e then save env (replace ch []) else (file, err e)

unfoldable pub save_channel : Env → Channel → File → File × Result (Unit {0})
save_channel env ch file = save_on env ch file (load file)

unfoldable pub has_channel : String → List Channel → Bool
has_channel id [] = false
has_channel id (c ∷ chs) = if str_eq c.id id then true else has_channel id chs

-- The loop of `DeleteChannel`: the first channel of the id is left out.
unfoldable pub without_first : String → List Channel → List Channel
without_first id [] = []
without_first id (c ∷ chs) = if str_eq c.id id then chs else c ∷ without_first id chs

abbrev pub delete_on : Env → String → File → Result (List Channel) → File × Result (Unit {0})
delete_on env id file (err e) = (file, err e)
delete_on env id file (ok chs) =
    if has_channel id chs
    then save env (without_first id chs)
    else (file, err (wrapped channel_not_found))

unfoldable pub delete_channel : Env → String → File → File × Result (Unit {0})
delete_channel env id file = delete_on env id file (load file)
