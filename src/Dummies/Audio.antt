-- ===== src/Dummies/Audio.antt =====
-- meegofeedback-dummy-audio/mfbackenddummyaudio.cpp
use touch_feedback.Base.{ℕ, Bool, true, Option}
use touch_feedback.Base.Text.{Text, codes}
use touch_feedback.Backend.{State, connected, PlaybackVolume}
use touch_feedback.Dummies.{Directories, Strings, unload_string, load_file, play_string}

-- The state that the constructor sets.
abbrev pub initial_state : State
initial_state = connected

abbrev pub name : Text
name = codes "dummy_audio"

abbrev pub detect_hardware : Bool
detect_hardware = true

-- The duration limit is not used.
abbrev pub init : ℕ → Bool
init duration_limit = true

abbrev pub is_ready : Bool
is_ready = true

unfoldable pub play :
    Option ℕ → PlaybackVolume → State → Strings → Option (Option Text × State × Bool)
unfolding play_string
play handle volume state m = play_string handle state m

unfoldable pub load_handle :
    Directories → Text → Option (Option ℕ) → Strings → Bool × Option (Option ℕ) × Strings
unfolding load_file
load_handle dirs dir handle m = load_file dirs (codes "audio.wav") dir handle m

unfoldable pub unload_handle : Option (Option ℕ) → Strings → Option Strings
unfolding unload_string
unload_handle handle m = unload_string handle m
