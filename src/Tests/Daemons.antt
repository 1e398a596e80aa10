-- ===== src/Tests/Daemons.antt =====
-- The theorems on signals, the log, the limits and the end of `main` at concrete inputs.
use touch_feedback.Base.{
  ℕ, ◌≢◌, ◌≡◌, refl, arith, Bool, true, false, not, ◌&&◌, none, some, List, [], ◌∷◌, if◌then◌else◌,
  contains,
}
use touch_feedback.Base.Text.{Text, codes, text_eq}
use touch_feedback.Daemon.CmdLine.{Flags, all_off, process_cmd_line_arguments}
use touch_feedback.Daemon.Main.{main_steps, main}
use touch_feedback.Daemon.Exits.{all_work, EndsAt, main_lem}
use touch_feedback.Daemon.Signals.{
  SignalHandler, new_signal_handler, Signals, sig_dfl, to_on_signal, set_action, deliver,
  by_default, written_to, init_handler, on_signal, uninstall, install, catch_signal, find_fd,
}
use touch_feedback.Daemon.Catching.{watched, init_handler-uninstall}
use touch_feedback.Daemon.Sockets.{
  Event, caught, activated, caught_of, passed, relay, relay-caught_of,
}
use touch_feedback.Daemon.Logging.{start_log, start_log-message}
use touch_feedback.Log.{Log, debug_msg, message, nothing}
use touch_feedback.Log.Filter.{filtered}
use touch_feedback.Theme.{has_text}
use touch_feedback.Config.{Settings, initial_config}
use touch_feedback.Config.Reads.{asks_latency, asks_duration, answers, answers_of, answers_first}
use touch_feedback.Tests.Data.{digits_qt}

-- Signal 2 is written to another handler's socket; the others have the default action.
abbrev signals_before : Signals
signals_before = record {
  signal2fd = (2, 6) ∷ [];
  action = set_action 2 to_on_signal (λ s. sig_dfl);
}

abbrev watching : Bool × SignalHandler × Signals
watching = init_handler (λ s. false) (some (8, 9)) 15 new_signal_handler signals_before

watching-ok : watching.0 ≡ true
unfolding init_handler install catch_signal new_signal_handler
watching-ok = refl

init_handler-uninstall_example :
    (watching.1 ≡ record { watch_over = watched 15 new_signal_handler; fd0 = 8; fd1 = 9 })
    × (deliver 15 watching.2 ≡ (
        if contains 15 (watched 15 new_signal_handler)
        then written_to 8
        else deliver 15 signals_before))
    × (deliver 15 (uninstall (λ s. false) watching.1.watch_over watching.2) ≡ (
        if contains 15 (watched 15 new_signal_handler)
        then by_default
        else deliver 15 signals_before))
init_handler-uninstall_example =
    init_handler-uninstall (λ s. false) 8 9 15 15 new_signal_handler signals_before watching-ok

abbrev daemon_flags : Flags
daemon_flags = record { daemon_mode = true; log = false; syslog = false; verbose = false }

daemon-flags : process_cmd_line_arguments all_off (codes "--daemon" ∷ []) ≡ some daemon_flags
unfolding process_cmd_line_arguments text_eq
daemon-flags = refl

main_lem_example :
    EndsAt (λ s. true) main_steps (main (λ s. true) true true (codes "--daemon" ∷ [])).steps
    × ((main (λ s. true) true true (codes "--daemon" ∷ [])).looped
        ≡ all_work (λ s. true) main_steps && not (true && not true))
    × ((main (λ s. true) true true (codes "--daemon" ∷ [])).status
        ≡ (if (main (λ s. true) true true (codes "--daemon" ∷ [])).looped then 0 else 1))
    × ((main (λ s. true) true true (codes "--daemon" ∷ [])).cleaned_up
        ≡ not (all_work (λ s. true) main_steps && true && not true))
main_lem_example = main_lem (λ s. true) true true (codes "--daemon" ∷ []) daemon_flags daemon-flags

abbrev events : List Event
events = caught 15 true ∷ caught 2 true ∷ activated 0 ∷ caught 15 false ∷ caught 15 true ∷ []

not_yet_used : (q : ℕ) → deliver q signals_before ≢ written_to 8
unfolding deliver on_signal find_fd
not_yet_used q h = ground arith

relay-caught_of_example :
    passed watching.1
      (relay watching.2 watching.1 events (record { sockets = λ fd. []; emitted = [] }))
    ≡ caught_of (watched 15 new_signal_handler) events
unfolding new_signal_handler
relay-caught_of_example =
    relay-caught_of (λ s. false) 8 9 15 new_signal_handler signals_before events (λ fd. [])
      watching-ok not_yet_used refl refl

abbrev log_arguments : List Text
log_arguments = codes "meegofeedbackd" ∷ codes "--log" ∷ codes "--syslog" ∷ []

start_log-message_example :
    (flags : Flags) × (l : Log) × (start_log log_arguments ≡ some (flags, l))
    × (message l debug_msg (codes "x")
        ≡ some (
            filtered
              (has_text (codes "--log") log_arguments)
              (has_text (codes "--verbose") log_arguments)
              (has_text (codes "--syslog") log_arguments)
              debug_msg
              (codes "x")))
unfolding text_eq
start_log-message_example = start_log-message log_arguments debug_msg (codes "x") refl

-- A debug message is dropped.
dropped_run :
    filtered
      (has_text (codes "--log") log_arguments)
      (has_text (codes "--verbose") log_arguments)
      (has_text (codes "--syslog") log_arguments)
      debug_msg
      (codes "x")
    ≡ nothing
unfolding text_eq
dropped_run = refl

abbrev five : Settings
five key = if text_eq key (codes "feedback-latency-limit") then some (codes "5") else none

abbrev nine : Settings
nine key = some (codes "9")

answers_first_example :
    answers digits_qt ((asks_latency, five) ∷ (asks_duration, nine) ∷ []) initial_config
    ≡ answers_of digits_qt five ((asks_latency, five) ∷ (asks_duration, nine) ∷ [])
answers_first_example = answers_first digits_qt asks_latency five ((asks_duration, nine) ∷ [])
