-- ===== src/Tests/Starts.antt =====
-- The start of the manager, and the daemon with the dummy backends, at concrete inputs.
use touch_feedback.Base.{
  ℕ, ◌≡◌, refl, true, false, none, some, [], ◌∷◌, ◌==◌, if◌then◌else◌, arith, length,
}
use touch_feedback.Base.Text.{codes, text_eq, contains_text, last_section}
use touch_feedback.Backend.{loads, unloads, plays, volume_low}
use touch_feedback.Backend.Ledger.{held}
use touch_feedback.World.{Platform, World}
use touch_feedback.Theme.{dir_lists, get_feedback_dirs_of_a_theme}
use touch_feedback.Theme.Chain.{IsChain, base, derived}
use touch_feedback.Theme.Names.{feedback_names}
use touch_feedback.Session.{Session, new_session, map_feedbacks}
use touch_feedback.Session.Ends.{setup-mapped}
use touch_feedback.System.{System, connects, sets_up, Reach, start, next}
use touch_feedback.System.Memory.{with_dummies, Reach-replay}
use touch_feedback.Dummies.{Directories, Strings, allocate, free, unload_string}
use touch_feedback.Dummies.Plain
use touch_feedback.Dummies.Replay.{Kind, plain, vibra, replay, dummies}
use touch_feedback.Dummies.Memory.{Owned}
use touch_feedback.Tests.Data.{demo, two_backends}
use touch_feedback.Tests.Sessions.{phone}
use touch_feedback.Tests.Systems.{two_backends-IsStart}

-- Every file is there, with one byte.
abbrev directories : Directories
directories = record {
  dir_name = λ dir. dir;
  absolute_path = λ dir. dir;
  size = λ dir file. some 1;
}

abbrev kinds : ℕ → Kind
kinds b = if b == 3 then plain else vibra

abbrev dummy_demo : Platform
dummy_demo = with_dummies directories kinds demo

dummy_demo-IsChain : IsChain dummy_demo (codes "blue") (codes "/t/base" ∷ codes "/t/blue" ∷ [])
unfolding text_eq contains_text
dummy_demo-IsChain =
    derived (codes "blue") b'b' (codes "ase") (codes "/t/base") [] _ refl refl refl refl
      (base (codes "base") _ refl refl refl) refl

dummy_demo_names : length (feedback_names dummy_demo (codes "app") (codes "/t/base")) ≡ 2
unfolding get_feedback_dirs_of_a_theme text_eq last_section
dummy_demo_names = refl

abbrev mapped : Session × World
mapped =
    map_feedbacks dummy_demo
      (dir_lists dummy_demo (codes "app") (codes "/t/base") (codes "/t/blue" ∷ [])) phone
      two_backends

abbrev daemon_ready : System
daemon_ready = record {
  world = mapped.1;
  sessions = record mapped.0 { setup_finished = true } ∷ [];
}

daemon_ready-Reach : Reach dummy_demo daemon_ready
unfolding new_session
daemon_ready-Reach =
    next (record { world = two_backends; sessions = phone ∷ [] }) daemon_ready
      (next (record { world = two_backends; sessions = [] })
        (record { world = two_backends; sessions = phone ∷ [] })
        (start two_backends two_backends-IsStart) (connects [] [] (codes "app") refl refl))
      (sets_up [] [] phone (record mapped.0 { setup_finished = true }) mapped.1 2 false false true
        refl
        (setup-mapped dummy_demo phone two_backends (codes "/t/base") (codes "/t/blue" ∷ [])
          dummy_demo-IsChain (omega (arith, dummy_demo_names)) 0)
        refl)

Reach-replay_example :
    (m : Strings) × (replay directories kinds daemon_ready.world.calls ≡ some m)
    × Owned (held (dummies directories kinds) daemon_ready.world.calls) m
    × (daemon_ready.sessions ≡ [] → (a : ℕ) → m.content a ≡ none)
Reach-replay_example = Reach-replay directories kinds demo daemon_ready daemon_ready-Reach

-- A daemon that played a handle that it has given back would use a dangling pointer.
dangling_run :
    replay directories kinds (plays 3 0 volume_low ∷ unloads 3 0 ∷ loads 3 [] ∷ []) ≡ none
unfolding replay Plain.play Plain.load_handle Plain.unload_handle unload_string free allocate
dangling_run = refl
