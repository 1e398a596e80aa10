-- ===== src/Log.antt =====
-- src/lib/mflog.cpp: the three message handlers, which of them `mfLogInit` installs, and the type of
-- the messages of `mfLog`. The mutexes only keep the messages of two threads apart.
pub mod Filter
use touch_feedback.Base.{Bool, true, false, not, Option, none, some, List, [], ◌∷◌, if◌then◌else◌}
use touch_feedback.Base.Text.{Text}

-- The values of QtMsgType, and the value `MfLogMsg`, which is cast to it.
pub data MsgType : Type 0 where
  debug_msg warning_msg critical_msg fatal_msg log_msg : MsgType

-- The priorities of syslog that are used.
pub data Priority : Type 0 where
  log_warning log_err log_crit log_info : Priority

pub data Entry : Type 0 where
  to_syslog : Priority → Text → Entry
  printed : Text → Entry

-- What a handler does with a message: what it writes, and whether it aborts the process.
pub record Handled : Type 0 where
  pub entries : List Entry
  pub aborts : Bool

abbrev pub nothing : Handled
nothing = record { entries = []; aborts = false }

abbrev pub writes : Entry → Handled
writes e = record { entries = e ∷ []; aborts = false }

-- The handlers, `verbose` being `MfLogVerbose`.
unfoldable pub disabled_message_handler : MsgType → Text → Handled
disabled_message_handler type msg = nothing

unfoldable pub syslog_message_handler : Bool → MsgType → Text → Handled
syslog_message_handler verbose debug_msg msg =
    if verbose then writes (to_syslog log_warning msg) else nothing
syslog_message_handler verbose warning_msg msg = writes (to_syslog log_warning msg)
syslog_message_handler verbose critical_msg msg = writes (to_syslog log_err msg)
syslog_message_handler verbose fatal_msg msg = record {
  entries = to_syslog log_crit msg ∷ [];
  aborts = true;
}
syslog_message_handler verbose log_msg msg = writes (to_syslog log_info msg)

unfoldable pub normal_message_handler : Bool → MsgType → Text → Handled
normal_message_handler verbose debug_msg msg = if verbose then writes (printed msg) else nothing
normal_message_handler verbose warning_msg msg = writes (printed msg)
normal_message_handler verbose critical_msg msg = writes (printed msg)
normal_message_handler verbose fatal_msg msg = writes (printed msg)
normal_message_handler verbose log_msg msg = writes (printed msg)

pub data Handler : Type 0 where
  disabled_handler syslog_handler normal_handler : Handler

-- The variables of the file, and the handler that is installed; `none` is Qt's own.
pub record Log : Type 0 where
  pub verbose : Bool
  pub log_msg_type : MsgType
  pub handler : Option Handler
  pub log_open : Bool

abbrev pub initial_log : Log
initial_log = record { verbose = false; log_msg_type = debug_msg; handler = none; log_open = false }

-- `mfLogInit`
unfoldable pub mf_log_init : Bool → Bool → Bool → Log → Log
mf_log_init enable verbose syslog l =
    let l' : Log = record l { verbose = verbose; log_msg_type = log_msg } in
    if not enable
    then record l' { handler = some disabled_handler }
    else if syslog
    then record l' { handler = some syslog_handler; log_open = true }
    else record l' { handler = some normal_handler }

-- The type of a message of `mfLog()`.
unfoldable pub mf_log : Log → MsgType
mf_log l = l.log_msg_type

-- A message, where a handler is installed.
unfoldable pub message : Log → MsgType → Text → Option Handled
unfolding disabled_message_handler syslog_message_handler normal_message_handler
message l type msg = elim l.handler [
  | none ↦ none
  | some disabled_handler ↦ some (disabled_message_handler type msg)
  | some syslog_handler ↦ some (syslog_message_handler l.verbose type msg)
  | some normal_handler ↦ some (normal_message_handler l.verbose type msg)
]
