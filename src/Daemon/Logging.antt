-- ===== src/Daemon/Logging.antt =====
-- src/daemon/main.cpp: the log that the arguments ask for.
use touch_feedback.Base.{
  ◌≡◌, ◌∙◌, refl, arith, Bool, true, false, Option, none, some, List, if◌then◌else◌,
}
use touch_feedback.Base.Text.{Text, codes}
use touch_feedback.Theme.{has_text}
use touch_feedback.Daemon.CmdLine.{Flags, all_off, process_cmd_line_arguments}
use touch_feedback.Log.{MsgType, Log, initial_log, mf_log_init, message}
use touch_feedback.Log.Filter.{filtered, mf_log_init-message}

-- The start of `main`: the flags and the log; `none` if the help was asked for.
unfoldable pub start_log : List Text → Option (Flags × Log)
unfolding process_cmd_line_arguments mf_log_init
start_log arguments = elim (process_cmd_line_arguments all_off arguments) [
  | none ↦ none
  | some flags ↦ some (flags, mf_log_init flags.log flags.verbose flags.syslog initial_log)
]

given_lem : (b : Bool) → (if b then true else false) ≡ b
given_lem b = ground arith

-- With arguments that do not ask for the help, and once `main` has set the log up: a message is
-- written if `--log` is among them and either it is no debug message or `--verbose` is among them. It
-- goes to the system's log if `--syslog` is among them, and to the output otherwise.
pub start_log-message :
    (arguments : List Text) (type : MsgType) (msg : Text)
    → has_text (codes "--help") arguments ≡ false
    → (flags : Flags) × (l : Log) × (start_log arguments ≡ some (flags, l))
      × (message l type msg
          ≡ some (
              filtered
                (has_text (codes "--log") arguments)
                (has_text (codes "--verbose") arguments)
                (has_text (codes "--syslog") arguments)
                type
                msg))
unfolding start_log process_cmd_line_arguments
start_log-message arguments type msg no_help =
    let given : List Text → Text → Bool = λ a t. if has_text t a then true else false in
    let flags : Flags = record {
      daemon_mode = given arguments (codes "--daemon");
      log = given arguments (codes "--log");
      syslog = given arguments (codes "--syslog");
      verbose = given arguments (codes "--verbose");
    } in
    (
      flags,
      mf_log_init flags.log flags.verbose flags.syslog initial_log,
      rw (no_help, start_log) refl,
      mf_log_init-message flags.log flags.verbose flags.syslog initial_log type msg
          ∙ rw
              (
                given_lem (has_text (codes "--log") arguments),
                given_lem (has_text (codes "--verbose") arguments),
                given_lem (has_text (codes "--syslog") arguments),
              )
              refl,
    )
