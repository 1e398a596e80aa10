-- ===== src/Tests/Connections.antt =====
-- The theorems on a client's connection at concrete inputs. A socket is the list of the messages
-- that are still to be read.
use touch_feedback.Base.{
  ◌⊎◌, some, ◌≡◌, refl, Bool, true, false, none, List, [], ◌∷◌, ◌++◌, arith, length,
}
use touch_feedback.Base.Text.{Text, codes}
use touch_feedback.Connection.{
  client_setup, doomed, playback, version_1, unknown, SocketApi, Connection,
  protocol_version_prefix, setup,
}
use touch_feedback.Connection.States.{Consumes, Closes, read_all_data}
use touch_feedback.Connection.Handshake.{Greets, StaysFailed, accepted, setup-Answers}
use touch_feedback.Connection.Requests.{known, read_all_data-known}
use touch_feedback.Base.Int.{pos}
use touch_feedback.Session.{Session}
use touch_feedback.Tests.Data.{digits_qt}

abbrev read_message : Bool → List Text → Text × Bool × List Text
read_message ok [] = ([], false, [])
read_message ok (m ∷ ms) = (m, ok, ms)

abbrev pub messages : SocketApi
messages = record {
  Socket = List Text;
  bytes_available = length;
  read_string = read_message;
  read_all = λ s. [];
  disconnect_from_server = λ s. s;
}

pub messages-Consumes : Consumes messages
messages-Consumes ok [] h = absurd (omega arith)
messages-Consumes ok (m ∷ ms) h = omega arith

pub messages-Closes : Closes messages
messages-Closes s = omega arith

abbrev pub greeting : List Text
greeting = (protocol_version_prefix ++ codes "1") ∷ codes "phone" ∷ []

abbrev waiting_for : List Text → Connection messages
waiting_for s = record {
  state = client_setup;
  socket = s;
  session = none;
  client_name = [];
  client_feedback_protocol_version = unknown;
  delete_later = false;
  kill_timer = false;
}

messages-StaysFailed : StaysFailed digits_qt messages
messages-StaysFailed [] = refl
messages-StaysFailed (m ∷ ms) = refl

setup-Answers_example :
    ((name : Text) × (s : List Text) × Greets digits_qt messages (waiting_for greeting) name s
      × (setup digits_qt messages (waiting_for greeting)
          ≡ accepted digits_qt messages (waiting_for greeting) name s))
    ⊎ (((name : Text) (s : List Text) → ¬ Greets digits_qt messages (waiting_for greeting) name s)
        × ((setup digits_qt messages (waiting_for greeting)).state ≡ doomed)
        × ((setup digits_qt messages (waiting_for greeting)).session ≡ none))
setup-Answers_example =
    setup-Answers digits_qt messages (waiting_for greeting) messages-StaysFailed refl

abbrev pressing : Session
pressing = record {
  app_name = codes "app";
  setup_finished = true;
  feedback_hash =
      (
        codes "press",
        record {
          feedback_name = codes "press";
          feedback_volume_priority = pos 0;
          feedback_handles = [];
          concurrent_players = 0;
        },
      )
      ∷ [];
  orphans = [];
}

abbrev playing : List Text → Connection messages
playing s = record {
  state = playback;
  socket = s;
  session = some pressing;
  client_name = codes "app";
  client_feedback_protocol_version = version_1;
  delete_later = false;
  kill_timer = false;
}

abbrev requests : List Text
requests = codes "press" ∷ codes "slide" ∷ codes "press" ∷ []

read_all_data-known_example :
    read_all_data digits_qt messages (playing requests)
    ≡ some (some (playing [], known pressing.feedback_hash requests))
read_all_data-known_example =
    read_all_data-known digits_qt messages (playing requests) pressing [] requests messages-Consumes
      refl refl
      (omega arith, (_, refl, (omega arith, (_, refl, (omega arith, (_, refl, (refl, refl)))))))
