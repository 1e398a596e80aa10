-- ===== src/Tests/Volumes.antt =====
-- A change of a volume in GConf, while the daemon runs and before it starts.
use touch_feedback.Base.{
  ℕ, zero, suc, ◌≤◌, ◌≡◌, refl, arith, none, some, [], ◌∷◌, if◌then◌else◌, get_or,
}
use touch_feedback.Base.Int.{pos}
use touch_feedback.Base.Text.{Text, codes, text_eq, last_section}
use touch_feedback.Base.Dict.{lookup}
use touch_feedback.Backend.{PlaybackVolume}
use touch_feedback.World.{World}
use touch_feedback.Configuration.{
  GConf, GConfEntry, string_value, failed, max_volume_priority, emit_volume_changed, get_volumes,
  set_volume,
}
use touch_feedback.Configuration.Restart.{key_of, Changed, set_volume-get_volumes}
use touch_feedback.Tests.Data.{demo, two_backends}

-- Nothing is set.
abbrev empty_conf : GConf
empty_conf = record { get_string = λ key. failed; all_entries = λ dir. none }

-- The volume of the backend "audio" for the priority 1 is set.
abbrev low_entry : GConfEntry
low_entry = record {
  key = key_of demo 1 (codes "audio");
  value = some (string_value (codes "low"));
}

abbrev low_conf : GConf
low_conf = record empty_conf {
  all_entries = λ dir.
      if text_eq dir (codes "/meegotouch/input_feedback/volume/priority1")
      then some (none ∷ some low_entry ∷ [])
      else none;
}

abbrev running : World
running = record two_backends { backend_volumes = get_volumes demo (some empty_conf) }

low_conf-Changed : Changed demo empty_conf low_conf 1 (codes "audio") (codes "low")
unfolding text_eq last_section
low_conf-Changed zero c below = refl
low_conf-Changed (suc zero) c below = ground arith
low_conf-Changed (suc (suc zero)) c below = refl
low_conf-Changed (suc (suc (suc n))) c below = absurd (omega arith)

set_volume-get_volumes_example :
    (v : PlaybackVolume) × (w : World) × (emit_volume_changed demo
        (key_of demo 1 (codes "audio"))
        (codes "low")
      ≡ some (1, codes "audio", v))
    × (set_volume (pos 1) (codes "audio") v running ≡ some w)
    × ((m : ℕ) (c : Text)
        → m ≤ max_volume_priority
        → lookup c (get_or w.backend_volumes m [])
          ≡ lookup c (get_or (get_volumes demo (some low_conf)) m []))
set_volume-get_volumes_example =
    set_volume-get_volumes demo empty_conf low_conf 1 (codes "audio") (codes "low") running
      (omega arith) refl refl refl low_conf-Changed refl
