-- ===== src/World.antt =====
-- The state that the objects of src/lib share: the fields of the one MfManager, the MfFeedbackHandle
-- objects by address, the connection states of the backends, and the calls made to their plugins.
-- A QPointer is an address that reads as null once its object is deleted; no address is used twice.
-- What the program asks of its surroundings is a parameter (`Platform`).
use touch_feedback.Base.{ℕ, Bool, true, false, Option, none, some, List, ◌==◌, if◌then◌else◌}
use touch_feedback.Base.Text.{Text, Qt}
use touch_feedback.Base.Dict.{Dict}
use touch_feedback.Backend.{State, Connector, PlaybackVolume, Call, Plugin}

-- Qt's conversions, the plugins, the install prefix of the themes, and the file system:
-- `sub_dirs` is `QDir(path).entryList(QDir::AllDirs | QDir::NoDotAndDotDot)`, and `inherits` the
-- value of X-MeeGoTouch-Metatheme/X-Inherits in a theme's index file, if it has one.
pub record Platform : Type 0 where
  pub qt : Qt
  pub open qt use *
  pub plugin : Plugin
  pub open plugin use *
  pub theme_dir_prefix : Text
  pub dir_exists : Text → Bool
  pub file_exists : Text → Bool
  pub sub_dirs : Text → List Text
  pub inherits : Text → Option Text

pub data HandleState : Type 0 where
  empty ready ignored : HandleState

abbrev pub is_ready : HandleState → Bool
is_ready empty = false
is_ready ready = true
is_ready ignored = false

abbrev pub is_empty_state : HandleState → Bool
is_empty_state empty = true
is_empty_state ready = false
is_empty_state ignored = false

-- MfFeedbackHandle. `handle` is what the plugin left in the `void *`, `none` for NULL.
pub record Handle : Type 0 where
  pub backend_if : Option ℕ
  pub handle : Option ℕ
  pub feedback_dir_path : Text
  pub ref_cnt : ℕ
  pub current_state : HandleState

pub record World : Type 0 where
  pub backend_list : List ℕ
  pub non_threaded_backend_count : ℕ
  pub backend_volumes : List (Dict PlaybackVolume)
  pub current_theme_name : Text
  pub feedback_handle_hash : Dict ℕ
  pub connector : ℕ → Connector
  pub object : ℕ → Option Handle
  pub next_object : ℕ
  pub calls : List Call

abbrev pub backend_state : World → ℕ → State
backend_state w b = (w.connector b).current_state

-- The object that a QPointer points to.
abbrev pub deref : World → Option ℕ → Option Handle
deref w none = none
deref w (some o) = w.object o

abbrev pub update : (ℕ → Option Handle) → ℕ → Option Handle → ℕ → Option Handle
update f o v q = if o == q then v else f q
