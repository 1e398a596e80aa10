-- ===== src/Daemon/Server.antt =====
-- src/daemon/mfserver.cpp, and `mfTempDir` of src/lib/mfutil.cpp. What the system answers is an
-- argument: whether a call succeeds.
use touch_feedback.Base.{Bool, true, false, not, List, [], ◌∷◌, ◌++◌, if◌then◌else◌, is_empty}
use touch_feedback.Base.Text.{Text, codes}

abbrev pub temp_dir_path : Text
temp_dir_path = codes "/tmp/mfeedbackd"

-- `mfTempDir`, with `createTempDir`, from whether the directory is there and whether `mkdir` works.
unfoldable pub create_temp_dir : Bool → Bool → Bool
create_temp_dir exists mkdir_works = if exists then true else mkdir_works

unfoldable pub temp_dir : Bool → Bool → Text
unfolding create_temp_dir
temp_dir exists mkdir_works = if not (create_temp_dir exists mkdir_works) then [] else temp_dir_path

abbrev pub socket_file : Text → Text
socket_file dir = dir ++ codes "/player.sock"

-- What `init` asks of the system, in order.
pub data ServerCall : Type 0 where
  connects listens removes chmods : ServerCall

-- The answers: to `connect`, to the first `listen`, to `remove`, to the second `listen`, to `chmod`.
pub record Answers : Type 0 where
  pub connected : Bool
  pub first_listen : Bool
  pub removed : Bool
  pub second_listen : Bool
  pub permitted : Bool

-- `init` for the directory that `mfTempDir` returns: whether it succeeds, and what it asked.
unfoldable pub init_server : Text → Answers → Bool × List ServerCall
init_server dir a =
    if is_empty dir
    then (false, [])
    else if not a.connected
    then (false, connects ∷ [])
    else if a.first_listen
    then (a.permitted, connects ∷ listens ∷ chmods ∷ [])
    else if not a.removed
    then (false, connects ∷ listens ∷ removes ∷ [])
    else if a.second_listen
    then (a.permitted, connects ∷ listens ∷ removes ∷ listens ∷ chmods ∷ [])
    else (false, connects ∷ listens ∷ removes ∷ listens ∷ [])
