-- ===== src/Log/Filter.antt =====
-- Which messages are written, where to, and at which priority.
use touch_feedback.Base.{
  ◌≡◌, refl, arith, Bool, true, false, not, ◌&&◌, ◌||◌, some, [], ◌∷◌, if◌then◌else◌,
}
use touch_feedback.Base.Text.{Text}
use touch_feedback.Log.{
  MsgType, debug_msg, warning_msg, critical_msg, fatal_msg, log_msg, Priority, log_warning, log_err,
  log_crit, log_info, to_syslog, printed, Handled, Log, mf_log_init, message,
  disabled_message_handler, syslog_message_handler, normal_message_handler,
}

abbrev pub is_debug : MsgType → Bool
is_debug debug_msg = true
is_debug warning_msg = false
is_debug critical_msg = false
is_debug fatal_msg = false
is_debug log_msg = false

abbrev pub is_fatal : MsgType → Bool
is_fatal debug_msg = false
is_fatal warning_msg = false
is_fatal critical_msg = false
is_fatal fatal_msg = true
is_fatal log_msg = false

-- The priority of a message of a type.
abbrev pub priority_of : MsgType → Priority
priority_of debug_msg = log_warning
priority_of warning_msg = log_warning
priority_of critical_msg = log_err
priority_of fatal_msg = log_crit
priority_of log_msg = log_info

-- One entry if the log is on and the message is not a debug message, or the log is verbose.
abbrev pub filtered : Bool → Bool → Bool → MsgType → Text → Handled
filtered enable verbose syslog type msg = record {
  entries =
      if enable && (verbose || not (is_debug type))
      then (if syslog then to_syslog (priority_of type) msg else printed msg) ∷ []
      else [];
  aborts = enable && (syslog && is_fatal type);
}

-- After `mfLogInit` a message of any type is handled as the three arguments say, whatever was logged
-- before.
pub mf_log_init-message :
    (enable verbose syslog : Bool) (l : Log) (type : MsgType) (msg : Text)
    → message (mf_log_init enable verbose syslog l) type msg
      ≡ some (filtered enable verbose syslog type msg)
unfolding mf_log_init message disabled_message_handler syslog_message_handler normal_message_handler
mf_log_init-message false verbose syslog l type msg = refl
mf_log_init-message true verbose true l type msg = to_log verbose type
  where
    to_log :
        (verbose : Bool) (type : MsgType)
        → message (mf_log_init true verbose true l) type msg
          ≡ some (filtered true verbose true type msg)
    to_log verbose type = ground arith
mf_log_init-message true verbose false l type msg = ground arith
