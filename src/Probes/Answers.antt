-- ===== src/Probes/Answers.antt =====
-- What the answers say of the system.
use touch_feedback.Base.{
  ◌≡◌, refl, ap, arith, Bool, true, false, ◌&&◌, Option, none, some, List, [], ◌∷◌, any,
  Option-cases, Bool-cases, inl, inr,
}
use touch_feedback.Base.Text.{Text, text_eq}
use touch_feedback.Probes.{
  Processes, time_stamping, with_digits, command_file, process_of, check_dirs, check_process,
}

-- The answers of `timeStamping` to calls, each with whether the file can be opened at the time.
abbrev pub stamping_answers : List Bool → Option Bool → List Bool
stamping_answers [] enabled = []
stamping_answers (opens ∷ calls) enabled =
    let (answer, after) = time_stamping opens enabled in answer ∷ stamping_answers calls after

abbrev pub all_alike : Bool → List Bool → List Bool
all_alike b [] = []
all_alike b (c ∷ calls) = b ∷ all_alike b calls

stamping_answers_alike :
    (b : Bool) (calls : List Bool) → stamping_answers calls (some b) ≡ all_alike b calls
unfolding time_stamping
stamping_answers_alike b [] = refl
stamping_answers_alike b (c ∷ calls) =
    ap (λ (l : List Bool). b ∷ l) (stamping_answers_alike b calls)

-- Whether times are logged is settled by the first call, for all later ones.
stamping_answers_first :
    (opens : Bool) (calls : List Bool)
    → stamping_answers (opens ∷ calls) none ≡ all_alike opens (opens ∷ calls)
unfolding time_stamping
stamping_answers_first true calls =
    ap (λ (l : List Bool). true ∷ l) (stamping_answers_alike true calls)
stamping_answers_first false calls =
    ap (λ (l : List Bool). false ∷ l) (stamping_answers_alike false calls)

-- Is this the directory of a process of this name?
abbrev pub runs_in : Processes → Text → Text → Bool
runs_in p name dir = any p.is_digit dir && (elim (p.read (command_file dir)) [
  | none ↦ false
  | some bytes ↦ text_eq name (process_of bytes)
])

-- `checkProcess` tells whether some directory of /proc with a digit in its name is of a process of
-- this name.
check_process_lem :
    (p : Processes) (name : Text) → check_process p name ≡ any (runs_in p name) p.dirs
unfolding check_process check_dirs with_digits
check_process_lem p name = from p.dirs
  where
    from :
        (dirs : List Text)
        → check_dirs p.read name (with_digits p.is_digit dirs) ≡ any (runs_in p name) dirs
    from [] = refl
    from (dir ∷ dirs) = elim (Bool-cases (any p.is_digit dir)) [
      | inl digit ↦ elim (Option-cases (p.read (command_file dir))) [
        | inl closed ↦ ground (arith, digit, closed, from dirs)
        | inr (bytes, opened) ↦ ground (arith, digit, opened, from dirs)
      ]
      | inr other ↦ ground (arith, other, from dirs)
    ]
