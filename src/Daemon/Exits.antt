-- ===== src/Daemon/Exits.antt =====
-- How `main` ends.
use touch_feedback.Base.{
  ◌≡◌, refl, ap, Bool, true, false, not, ◌&&◌, some, List, [], ◌∷◌, ◌++◌, arith, if◌then◌else◌,
  Bool-cases, inl, inr,
}
use touch_feedback.Base.Text.{Text}
use touch_feedback.Daemon.CmdLine.{Flags, all_off, process_cmd_line_arguments}
use touch_feedback.Daemon.Main.{MainStep, main_steps, run_steps, main}

-- Do all steps of a list succeed?
abbrev pub all_work : (MainStep → Bool) → List MainStep → Bool
all_work works [] = true
all_work works (s ∷ steps) = works s && all_work works steps

-- The steps that are made are all of a list, which all work, or those up to one that fails.
pub data EndsAt (works : MainStep → Bool) (steps made : List MainStep) : Type 0 where
  at_end : made ≡ steps → all_work works steps ≡ true → EndsAt works steps made
  at_failed :
      (good rest : List MainStep) (bad : MainStep)
      → steps ≡ good ++ bad ∷ rest
      → made ≡ good ++ bad ∷ []
      → all_work works good ≡ true
      → works bad ≡ false
      → EndsAt works steps made

module _ (works : MainStep → Bool) where
  EndsAt-cons :
      (s : MainStep) (steps made : List MainStep)
      → works s ≡ true
      → EndsAt works steps made
      → EndsAt works (s ∷ steps) (s ∷ made)
  EndsAt-cons s steps made w (at_end e f) = at_end (ap (λ (l : List MainStep). s ∷ l) e) (rw w f)
  EndsAt-cons s steps made w (at_failed good rest bad e f all fails) =
      at_failed (s ∷ good) rest bad (ap (λ (l : List MainStep). s ∷ l) e)
        (ap (λ (l : List MainStep). s ∷ l) f) (rw w all) fails

  run_steps-ok : (steps : List MainStep) → (run_steps works steps).1 ≡ all_work works steps
  unfolding run_steps
  run_steps-ok [] = refl
  run_steps-ok (s ∷ steps) = ground (arith, run_steps-ok steps)

  run_steps-EndsAt : (steps : List MainStep) → EndsAt works steps (run_steps works steps).0
  unfolding run_steps
  run_steps-EndsAt [] = at_end refl refl
  run_steps-EndsAt (s ∷ steps) = elim (Bool-cases (works s)) [
    | inl good ↦
        rw good (EndsAt-cons s steps (run_steps works steps).0 good (run_steps-EndsAt steps))
    | inr bad ↦ rw bad (at_failed [] steps s refl refl refl bad)
  ]

-- With arguments that do not ask for the help: the steps are made in their order, up to the first
-- that fails or all of them. The event loop runs exactly if all steps succeed and the daemon need not fork or can; the
-- status is then 0, and otherwise 1. The server and the manager are deleted in the end, unless it
-- is only the fork that failed.
pub main_lem :
    (works : MainStep → Bool) (can_fork dir_is_empty : Bool) (arguments : List Text) (flags : Flags)
    → process_cmd_line_arguments all_off arguments ≡ some flags
    → EndsAt works main_steps (main works can_fork dir_is_empty arguments).steps
      × ((main works can_fork dir_is_empty arguments).looped
          ≡ all_work works main_steps && not (flags.daemon_mode && not can_fork))
      × ((main works can_fork dir_is_empty arguments).status
          ≡ (if (main works can_fork dir_is_empty arguments).looped then 0 else 1))
      × ((main works can_fork dir_is_empty arguments).cleaned_up
          ≡ not (all_work works main_steps && flags.daemon_mode && not can_fork))
unfolding main
main_lem works can_fork dir_is_empty arguments flags h =
    let ok = run_steps-ok works main_steps in
    let made : (main works can_fork dir_is_empty arguments).steps ≡ (run_steps works main_steps).0 =
      ground (arith, h) in
    (
      rw made (run_steps-EndsAt works main_steps),
      ground (arith, h, ok),
      ground (arith, h, ok),
      ground (arith, h, ok),
    )
