-- ===== src/Tests/Sessions.antt =====
-- The theorems on sessions at concrete inputs.
use touch_feedback.Base.{if◌then◌else◌, ◌≡◌, refl, true, false, List, [], ◌∷◌, arith, length}
use touch_feedback.Base.Text.{Text, codes, text_eq, last_section}
use touch_feedback.World.{Platform, World}
use touch_feedback.Theme.{
  done, fatal, dir_lists, get_feedback_dirs_of_a_theme, default_theme, theme_root,
  get_theme_inheritance_chain, get_feedback_dir_lists,
}
use touch_feedback.Theme.Default.{get_feedback_dir_lists-default_theme}
use touch_feedback.Theme.Names.{feedback_names}
use touch_feedback.Session.{Session, map_feedbacks, reload_feedbacks, setup, theme_changed}
use touch_feedback.Session.Ends.{setup-mapped, theme_changed-reload_feedbacks}
use touch_feedback.Tests.Data.{demo, two_backends}
use touch_feedback.Tests.Feedbacks.{blue-IsChain}

abbrev pub phone : Session
phone = record { app_name = codes "app"; setup_finished = false; feedback_hash = []; orphans = [] }

abbrev pub blue_lists : List (List Text)
blue_lists = dir_lists demo (codes "app") (codes "/t/base") (codes "/t/blue" ∷ [])

abbrev pub ready_phone : Session
ready_phone = record (map_feedbacks demo blue_lists phone two_backends).0 { setup_finished = true }

abbrev pub ready_world : World
ready_world = (map_feedbacks demo blue_lists phone two_backends).1

pub two_names : length (feedback_names demo (codes "app") (codes "/t/base")) ≡ 2
unfolding get_feedback_dirs_of_a_theme text_eq last_section
two_names = refl

pub phone-mapped :
    setup demo 2 false phone two_backends ≡ done (false, true, ready_phone, ready_world)
phone-mapped =
    setup-mapped demo phone two_backends (codes "/t/base") (codes "/t/blue" ∷ []) blue-IsChain
      (omega (arith, two_names)) 0

setup-mapped_example :
    setup demo 2 false phone two_backends ≡ done (false, true, ready_phone, ready_world)
setup-mapped_example =
    setup-mapped demo phone two_backends (codes "/t/base") (codes "/t/blue" ∷ []) blue-IsChain
      (omega (arith, two_names)) 0

abbrev pub reloaded : Session × World
reloaded =
    reload_feedbacks demo
      (dir_lists demo ready_phone.app_name (codes "/t/base") (codes "/t/blue" ∷ [])) ready_phone
      ready_world

pub same_app : theme_changed demo 2 (codes "blue") ready_phone ready_world ≡ done reloaded
same_app =
    theme_changed-reload_feedbacks demo ready_phone ready_world (codes "blue") (codes "/t/base")
      (codes "/t/blue" ∷ []) blue-IsChain 0

-- Only the default theme is installed.
abbrev bare : Platform
bare = record demo { dir_exists = λ dir. text_eq dir (codes "/t/base") }

blue-missing : get_theme_inheritance_chain bare 3 (codes "blue") ≡ done []
unfolding get_theme_inheritance_chain text_eq
blue-missing = refl

get_feedback_dir_lists-default_theme_example :
    get_feedback_dir_lists bare 3 (codes "blue") (codes "app") ≡ (
      if bare.dir_exists (theme_root bare default_theme)
      then done (dir_lists bare (codes "app") (theme_root bare default_theme) [])
      else fatal)
get_feedback_dir_lists-default_theme_example =
    get_feedback_dir_lists-default_theme bare 2 (codes "blue") (codes "app") blue-missing
