-- ===== src/Dummies/Plain.antt =====
-- meegofeedback-dummy/mfbackenddummy.cpp
use touch_feedback.Base.{ℕ, Bool, true, false, Option, none, some}
use touch_feedback.Base.Text.{Text, codes}
use touch_feedback.Backend.{PlaybackVolume}
use touch_feedback.Dummies.{Directories, Strings, allocate, unload_string}

abbrev pub name : Text
name = codes "dummy"

abbrev pub detect_hardware : Bool
detect_hardware = true

-- The duration limit is not used.
abbrev pub init : ℕ → Bool
init duration_limit = true

abbrev pub is_ready : Bool
is_ready = true

-- The text that is printed, if there is a handle; `none` for a dangling one.
unfoldable pub play : Option ℕ → PlaybackVolume → Strings → Option (Option Text)
play none volume m = some none
play (some a) volume m = elim (m.content a) [ none ↦ none | some text ↦ some (some text) ]

-- A null pointer to a handle is refused; `none` stands for it.
unfoldable pub load_handle :
    Directories → Text → Option (Option ℕ) → Strings → Bool × Option (Option ℕ) × Strings
unfolding allocate
load_handle dirs dir none m = (false, none, m)
load_handle dirs dir (some old) m =
    let (a, m') = allocate (dirs.dir_name dir) m in (true, some (some a), m')

unfoldable pub unload_handle : Option (Option ℕ) → Strings → Option Strings
unfolding unload_string
unload_handle handle m = unload_string handle m
