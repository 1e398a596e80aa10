-- ===== src/Dummies.antt =====
-- The three dummy backends, src of meegofeedback-dummy, meegofeedback-dummy-vibra and
-- meegofeedback-dummy-audio, built without the test macros. Each hands out pointers to QStrings that
-- it allocates; `none` is a read or a delete through a pointer that is dangling.
pub mod Plain
pub mod Vibra
pub mod Audio
pub mod Replay
pub mod Memory
pub mod Safety
use touch_feedback.Base.{ℕ, zero, suc, Bool, true, false, Option, none, some, ◌==◌, if◌then◌else◌}
use touch_feedback.Base.Text.{Text}
use touch_feedback.Backend.{State, disconnected}

-- What QDir and QFileInfo tell: the name and the absolute path of a directory, and the size of a file
-- in it, if it is there.
pub record Directories : Type 0 where
  pub dir_name : Text → Text
  pub absolute_path : Text → Text
  pub size : Text → Text → Option ℕ

-- The QStrings at their addresses. No address is used twice.
pub record Strings : Type 0 where
  pub content : ℕ → Option Text
  pub next : ℕ

abbrev pub no_strings : Strings
no_strings = record { content = λ a. none; next = 0 }

-- `new QString(text)`
unfoldable pub allocate : Text → Strings → ℕ × Strings
allocate text m = (
  m.next,
  record { content = λ a. if m.next == a then some text else m.content a; next = suc m.next },
)

-- `delete str`
unfoldable pub free : ℕ → Strings → Option Strings
free a m = elim (m.content a) [
  | none ↦ none
  | some text ↦ some (record m { content = λ c. if a == c then none else m.content c })
]

-- `unloadHandle`, which is the same in all three: the handle, which keeps its value, and the strings.
-- `none` for the first argument is a null pointer to a handle.
unfoldable pub unload_string : Option (Option ℕ) → Strings → Option Strings
unfolding free
unload_string none m = some m
unload_string (some none) m = some m
unload_string (some (some a)) m = free a m

-- `loadHandle` of the backends that look for a file, `file`: its result, the handle, and the strings.
unfoldable pub load_file :
    Directories → Text → Text → Option (Option ℕ) → Strings → Bool × Option (Option ℕ) × Strings
unfolding allocate
load_file dirs file dir none m = (false, none, m)
load_file dirs file dir (some old) m = elim (dirs.size dir file) [
  | none ↦ (false, some none, m)
  | some zero ↦ (true, some none, m)
  | some (suc n) ↦ let (a, m') = allocate (dirs.absolute_path dir) m in (true, some (some a), m')
]

-- `play` of these: the text that is printed, the state, and whether `lostConnection` is emitted.
unfoldable pub play_string : Option ℕ → State → Strings → Option (Option Text × State × Bool)
play_string none state m = some (none, disconnected, true)
play_string (some a) state m = elim (m.content a) [
  | none ↦ none
  | some text ↦ some (some text, state, false)
]
