-- ===== src/Daemon/Main.antt =====
-- src/daemon/main.cpp: the order of the steps that set the daemon up, and the way out.
use touch_feedback.Base.{ℕ, Bool, true, false, not, ◌&&◌, none, some, List, [], ◌∷◌, if◌then◌else◌}
use touch_feedback.Base.Text.{Text}
use touch_feedback.Daemon.CmdLine.{all_off, process_cmd_line_arguments}

-- The steps of `main`, by the call that each makes; one that cannot fail (`deviceStateListener.init`)
-- is left out.
pub data MainStep : Type 0 where
  sig_term_init sig_term_connect sig_int_init sig_int_connect configuration_init : MainStep
  theme_connect volume_connect device_state_connect manager_init server_init : MainStep

abbrev pub main_steps : List MainStep
main_steps =
    sig_term_init ∷ sig_term_connect ∷ sig_int_init ∷ sig_int_connect ∷ configuration_init
    ∷ theme_connect ∷ volume_connect ∷ device_state_connect ∷ manager_init ∷ server_init ∷ []

-- The steps that are made, up to and with the first that fails, and whether all succeed.
unfoldable pub run_steps : (MainStep → Bool) → List MainStep → List MainStep × Bool
run_steps works [] = ([], true)
run_steps works (s ∷ steps) =
    let rest = run_steps works steps in if works s then (s ∷ rest.0, rest.1) else (s ∷ [], false)

-- What the process does: the steps made, whether the event loop ran, whether server and manager are
-- deleted, whether the temporary directory is removed, and the exit status.
pub record Exit : Type 0 where
  pub steps : List MainStep
  pub looped : Bool
  pub cleaned_up : Bool
  pub dir_removed : Bool
  pub status : ℕ

-- `main`. A daemon that cannot fork returns at once. `dir_is_empty` tells whether the temporary
-- directory is there and empty at the end.
unfoldable pub main : (MainStep → Bool) → Bool → Bool → List Text → Exit
unfolding run_steps process_cmd_line_arguments
main works can_fork dir_is_empty arguments = elim (process_cmd_line_arguments all_off arguments) [
  | none ↦ record {
    steps = [];
    looped = false;
    cleaned_up = false;
    dir_removed = false;
    status = 0;
  }
  | some flags ↦
      let (made, ok) = run_steps works main_steps in
      if not ok
      then record {
        steps = made;
        looped = false;
        cleaned_up = true;
        dir_removed = dir_is_empty;
        status = 1;
      }
      else if flags.daemon_mode && not can_fork
      then record {
        steps = made;
        looped = false;
        cleaned_up = false;
        dir_removed = false;
        status = 1;
      }
      else record {
        steps = made;
        looped = true;
        cleaned_up = true;
        dir_removed = dir_is_empty;
        status = 0;
      }
]
