-- ===== src/Dummies/Replay.antt =====
-- The dummy backends as plugins of one daemon: a run of the calls that it makes, over one memory.
use touch_feedback.Base.{ℕ, Bool, false, Option, none, some, List, [], ◌∷◌}
use touch_feedback.Base.Text.{Text}
use touch_feedback.Backend.{connected, Call, loads, unloads, plays, Plugin, PlaybackVolume}
use touch_feedback.Dummies.{Directories, Strings, no_strings}
use touch_feedback.Dummies.Plain
use touch_feedback.Dummies.Vibra
use touch_feedback.Dummies.Audio

pub data Kind : Type 0 where
  plain vibra audio : Kind

abbrev pub name_of_kind : Kind → Text
name_of_kind plain = Plain.name
name_of_kind vibra = Vibra.name
name_of_kind audio = Audio.name

abbrev pub detect : Kind → Bool
detect plain = Plain.detect_hardware
detect vibra = Vibra.detect_hardware
detect audio = Audio.detect_hardware

module _ (dirs : Directories) where
  -- A load into a handle that is null.
  abbrev pub load_of_kind : Kind → Text → Strings → Bool × Option (Option ℕ) × Strings
  load_of_kind plain dir m = Plain.load_handle dirs dir (some none) m
  load_of_kind vibra dir m = Vibra.load_handle dirs dir (some none) m
  load_of_kind audio dir m = Audio.load_handle dirs dir (some none) m

abbrev pub unload_of_kind : Kind → ℕ → Strings → Option Strings
unload_of_kind plain a m = Plain.unload_handle (some (some a)) m
unload_of_kind vibra a m = Vibra.unload_handle (some (some a)) m
unload_of_kind audio a m = Audio.unload_handle (some (some a)) m

abbrev unless_fault {ℓ} : {A : Type ℓ} → Option A → Strings → Option Strings
unless_fault none m = none
unless_fault (some r) m = some m

abbrev pub play_of_kind : Kind → ℕ → PlaybackVolume → Strings → Option Strings
play_of_kind plain a volume m = unless_fault (Plain.play (some a) volume m) m
play_of_kind vibra a volume m = unless_fault (Vibra.play (some a) volume connected m) m
play_of_kind audio a volume m = unless_fault (Audio.play (some a) volume connected m) m

abbrev pub handle_left : Option (Option ℕ) → Option ℕ
handle_left none = none
handle_left (some handle) = handle

-- `kind` tells which backend is at an address.
module _ (dirs : Directories) (kind : ℕ → Kind) where
  abbrev pub call : Call → Strings → Option Strings
  call (loads b dir) m = some (load_of_kind dirs (kind b) dir m).2
  call (unloads b a) m = unload_of_kind (kind b) a m
  call (plays b a volume) m = play_of_kind (kind b) a volume m

  -- The memory after the calls, newest first; `none` if one of them used a dangling pointer.
  unfoldable pub replay : List Call → Option Strings
  replay [] = some no_strings
  replay (c ∷ calls) = elim (replay calls) [ none ↦ none | some m ↦ call c m ]

  abbrev pub dummies : Plugin
  dummies = record {
    name = λ b. name_of_kind (kind b);
    detect_hardware = λ b. detect (kind b);
    load_handle = λ calls b dir. elim (replay calls) [
      | none ↦ (false, none)
      | some m ↦ let r = load_of_kind dirs (kind b) dir m in (r.0, handle_left r.1)
    ];
  }
