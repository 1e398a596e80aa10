-- ===== src/Probes.antt =====
-- The parts of src/lib/mfutil.cpp that look at the system: whether times are logged (`timeStamping`),
-- and whether a process runs (`checkProcess`).
pub mod Answers
use touch_feedback.Base.{
  ℕ, zero, suc, Bool, true, false, ◌&&◌, Option, none, some, List, [], ◌∷◌, ◌++◌, any,
  if◌then◌else◌,
}
use touch_feedback.Base.Text.{Text, codes, text_eq, last_section}

-- `timeStamping`, from whether the file can be opened and `timeStampingEnabled`, which is `none` while
-- the file has not been looked for: the answer, and the variable after it.
unfoldable pub time_stamping : Bool → Option Bool → Bool × Option Bool
time_stamping file_opens (some enabled) = (enabled, some enabled)
time_stamping file_opens none = if file_opens then (true, some true) else (false, some false)

-- What /proc holds: its directories, the content of a file that can be opened, and what `\d` matches.
pub record Processes : Type 0 where
  pub dirs : List Text
  pub read : Text → Option Text
  pub is_digit : ℕ → Bool

-- At most as many bytes as there is room for.
unfoldable pub read_raw : ℕ → Text → Text
read_raw zero s = []
read_raw (suc n) [] = []
read_raw (suc n) (c ∷ s) = c ∷ read_raw n s

-- The string up to the first zero byte.
unfoldable pub to_zero : Text → Text
to_zero [] = []
to_zero (zero ∷ s) = []
to_zero (suc c ∷ s) = suc c ∷ to_zero s

-- `dirs.filter(QRegExp("\\d+"))` keeps the names with a digit in them.
unfoldable pub with_digits : (ℕ → Bool) → List Text → List Text
with_digits is_digit [] = []
with_digits is_digit (dir ∷ dirs) =
    let rest = with_digits is_digit dirs in if any is_digit dir then dir ∷ rest else rest

abbrev pub command_file : Text → Text
command_file dir = codes "/proc/" ++ dir ++ codes "/cmdline"

-- The name of the process of a command line.
unfoldable pub process_of : Text → Text
unfolding read_raw to_zero last_section
process_of bytes = last_section b'/' (to_zero (read_raw 1024 bytes))

-- The loop of `checkProcess`.
unfoldable pub check_dirs : (Text → Option Text) → Text → List Text → Bool
unfolding process_of text_eq
check_dirs read process_name [] = false
check_dirs read process_name (dir ∷ dirs) =
    let rest = check_dirs read process_name dirs in
    elim (read (command_file dir)) [
      | none ↦ rest
      | some bytes ↦ if text_eq process_name (process_of bytes) then true else rest
    ]

-- `checkProcess`
unfoldable pub check_process : Processes → Text → Bool
unfolding with_digits check_dirs
check_process p process_name = check_dirs p.read process_name (with_digits p.is_digit p.dirs)
