-- ===== src/Tests/Clients.antt =====
-- The theorems on the clients of the daemon at concrete inputs.
use touch_feedback.Base.{ℕ, ◌≡◌, refl, none, some, List, [], ◌∷◌, arith, All, if◌then◌else◌}
use touch_feedback.Base.Int.{pos}
use touch_feedback.Base.Text.{
  Text, codes, text_eq, last_section, first_section, first_section_skip_empty,
}
use touch_feedback.Base.Dict.{Dict, lookup, insert}
use touch_feedback.Backend.Ledger.{held}
use touch_feedback.World.{World, backend_state}
use touch_feedback.Feedback.{
  Feedback, too_late, new_feedback, load_feedback, load_slots, load_slot, load_first, load_handle,
  release, volume_priority,
}
use touch_feedback.Feedback.Playing.{played, volume_of}
use touch_feedback.Session.{new_session, map_feedbacks, add_feedback}
use touch_feedback.Theme.{
  override_first, override_dirs, initial_lists, default_names, prepend_dir, prepend_dirs,
  add_themes, fallback_index, fallback_loop, find_feedback_fallback_paths, is_name_char,
  is_valid_name, get_feedback_dirs_from_path, get_feedback_dirs_of_a_theme, dir_lists,
}
use touch_feedback.Connection.{Connection, new_connection, kill_me, setup, read_client}
use touch_feedback.System.Ending.{end_sessions}
use touch_feedback.Connection.States.{read_all_data}
use touch_feedback.Connection.Requests.{known}
use touch_feedback.System
use touch_feedback.Clients.{
  Clients, Client, Step, connection_changes, killed, deleted, Reach, start, next, arrives, current,
  names_of, get_timestamp, on_new_connection,
}
use touch_feedback.Clients.Moves.{system}
use touch_feedback.Clients.Refines.{Reach-system, Reach-no_client}
use touch_feedback.Clients.Reading.{ReadEnds}
use touch_feedback.Clients.Requests.{NonNegative, Reach-reads, Reach-plays}
use touch_feedback.Clients.Leaving.{CanSetup, timer_or_deletion, Run, Run-Reach, Reach-leaves}
use touch_feedback.Clients.Serving.{served, set_up, Run-serves}
use touch_feedback.Tests.Data.{demo, two_backends, digits_qt}
use touch_feedback.Tests.Feedbacks.{blue-IsChain}
use touch_feedback.Tests.Sessions.{two_names, ready_phone, ready_world}
use touch_feedback.Tests.Systems.{demo-IsTidy, two_backends-IsStart}
use touch_feedback.Tests.Connections.{messages, messages-Consumes, messages-Closes}

abbrev nobody_there : Clients messages
nobody_there = record { world = two_backends; clients = [] }

abbrev requests : List Text
requests = codes "press" ∷ codes "nothing" ∷ []

abbrev hello : List Text
hello = codes "FeedbackProtocolVersion#1" ∷ codes "app" ∷ []

-- One request waits.
abbrev app : Client messages
app = record {
  connection = served digits_qt messages demo [] (codes "app") ready_phone;
  requests = (codes "press", pos 1000002) ∷ [];
  left = [];
}

abbrev app_ready : Clients messages
app_ready = record { world = ready_world; clients = app ∷ [] }

abbrev asked : List (Text × ℕ × ℕ)
asked = (codes "press", 1, 2000) ∷ []

press-asked :
    names_of messages asked
    ≡ known
        (set_up digits_qt messages demo two_backends
          (codes "app")
          (codes "/t/base")
          (codes "/t/blue" ∷ [])).feedback_hash
        requests
unfolding lookup map_feedbacks add_feedback new_feedback load_feedback load_slots load_slot
    load_first load_handle release volume_priority insert override_first override_dirs initial_lists
    default_names prepend_dir prepend_dirs add_themes fallback_index fallback_loop
    find_feedback_fallback_paths is_name_char is_valid_name get_feedback_dirs_from_path
    get_feedback_dirs_of_a_theme dir_lists text_eq last_section first_section
    first_section_skip_empty new_session
press-asked = refl

Run-serves_example : Run digits_qt messages demo nobody_there app_ready
unfolding new_session get_timestamp
Run-serves_example =
    Run-serves digits_qt messages demo messages-Consumes nobody_there hello (codes "app" ∷ []) []
      requests [] (codes "1") (codes "app") (codes "/t/base") (codes "/t/blue" ∷ []) requests asked
      (omega arith) refl refl refl blue-IsChain (omega (arith, two_names))
      (omega arith, (_, refl, (omega arith, (_, refl, (refl, refl))))) press-asked

app-served : Run digits_qt messages demo nobody_there app_ready
unfolding new_session get_timestamp
app-served =
    Run-serves digits_qt messages demo messages-Consumes nobody_there hello (codes "app" ∷ []) []
      requests [] (codes "1") (codes "app") (codes "/t/base") (codes "/t/blue" ∷ []) requests asked
      (omega arith) refl refl refl blue-IsChain (omega (arith, two_names))
      (omega arith, (_, refl, (omega arith, (_, refl, (refl, refl))))) press-asked

app_ready-Reach : Reach digits_qt messages demo app_ready
app_ready-Reach =
    Run-Reach digits_qt messages demo nobody_there app_ready
      (start two_backends two_backends-IsStart) app-served

Reach-system_example : System.Reach demo (system messages app_ready)
Reach-system_example = Reach-system digits_qt messages demo app_ready app_ready-Reach

Reach-reads_example :
    (d : Connection messages) × (names : List Text) × (read_all_data digits_qt messages
        app.connection
      ≡ some (some (d, names)))
    × ReadEnds digits_qt messages app.connection d names
Reach-reads_example =
    Reach-reads digits_qt messages demo messages-Consumes messages-Closes app_ready [] [] app
      app_ready-Reach refl

-- A client that has sent its name, before its session is set up.
abbrev arriving : Client messages
arriving = record { connection = new_connection digits_qt messages hello; requests = []; left = [] }

abbrev app_arrived : Clients messages
app_arrived = record { world = two_backends; clients = arriving ∷ [] }

app_arrived-Reach : Reach digits_qt messages demo app_arrived
unfolding on_new_connection
app_arrived-Reach =
    next nobody_there app_arrived (start two_backends two_backends-IsStart) (arrives hello refl)

arriving-CanSetup : CanSetup digits_qt messages demo app_arrived arriving.connection
unfolding new_connection setup read_client new_session
arriving-CanSetup = (codes "/t/base", codes "/t/blue" ∷ [], blue-IsChain, omega (arith, two_names))

Reach-leaves_example :
    ((t : Clients messages) × Run digits_qt messages demo app_arrived t × (t.clients ≡ []))
    × (kill_me digits_qt messages arriving.connection
        ≡ timer_or_deletion digits_qt messages demo arriving.connection.state arriving.connection)
Reach-leaves_example =
    Reach-leaves digits_qt messages demo app_arrived [] [] arriving app_arrived-Reach refl
      arriving-CanSetup

abbrev app_killed : Clients messages
app_killed = record {
  world = ready_world;
  clients = record app { connection = kill_me digits_qt messages app.connection } ∷ [];
}

abbrev app_gone : Clients messages
app_gone = record { world = end_sessions demo (ready_phone ∷ []) ready_world; clients = [] }

app_gone-Reach : Reach digits_qt messages demo app_gone
unfolding kill_me
app_gone-Reach =
    next app_killed app_gone
      (next app_ready app_killed app_ready-Reach (
        connection_changes [] [] app (kill_me digits_qt messages app.connection) refl (killed refl)
          refl))
      (deleted [] [] (record app { connection = kill_me digits_qt messages app.connection }) refl
        refl refl)

Reach-no_client_example :
    ((o : ℕ) → app_gone.world.object o ≡ none)
    × ((k : Text) → lookup k app_gone.world.feedback_handle_hash ≡ none)
    × ((b v : ℕ) → held demo.plugin app_gone.world.calls b v ≡ 0)
Reach-no_client_example =
    Reach-no_client digits_qt messages demo demo-IsTidy app_gone app_gone-Reach refl

not_negative :
    (d : Dict Feedback) (name : Text) (f : Feedback)
    → All (λ (e : Text × Feedback). e.1.feedback_volume_priority ≡ pos 0) d
    → lookup name d ≡ some f
    → f.feedback_volume_priority ≡ pos 0
unfolding lookup
not_negative [] name f v h = cc
not_negative ((key, g) ∷ d) name f v h = ground (arith, v, h, not_negative d name f v.1)

ready_phone-priorities :
    All (λ (e : Text × Feedback). e.1.feedback_volume_priority ≡ pos 0) ready_phone.feedback_hash
unfolding lookup map_feedbacks add_feedback new_feedback load_feedback load_slots load_slot
    load_first load_handle release volume_priority insert override_first override_dirs initial_lists
    default_names prepend_dir prepend_dirs add_themes fallback_index fallback_loop
    find_feedback_fallback_paths is_name_char is_valid_name get_feedback_dirs_from_path
    get_feedback_dirs_of_a_theme dir_lists text_eq last_section first_section
    first_section_skip_empty
ready_phone-priorities = (refl, (refl, tt))

ready_phone-NonNegative : NonNegative ready_phone
ready_phone-NonNegative name f at =
    (0, not_negative ready_phone.feedback_hash name f ready_phone-priorities at)

abbrev app_answered : Client messages
app_answered = record app { requests = [] }

Reach-plays_example :
    (f : Feedback) × (n : ℕ) × (w : World) × (lookup (codes "press") ready_phone.feedback_hash
      ≡ some f)
    × (f.feedback_volume_priority ≡ pos n)
    × (w ≡ (
        if too_late (pos 100) (pos 1000005) (pos 1000002) then ready_world else record ready_world {
          calls =
              played ready_world.object
                (backend_state ready_world)
                (volume_of demo n ready_world)
                0
                f.feedback_handles
                ready_world.calls;
        }))
    × Step digits_qt messages demo app_ready (record { world = w; clients = app_answered ∷ [] })
Reach-plays_example =
    Reach-plays digits_qt messages demo demo-IsTidy app_ready [] [] app app_answered ready_phone
      (codes "press") (pos 1000002) (pos 100) (pos 1000005) app_ready-Reach refl
      (current [] refl refl refl) ready_phone-NonNegative
