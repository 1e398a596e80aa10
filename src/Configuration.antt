-- ===== src/Configuration.antt =====
-- src/daemon/mfconfiguration_p.cpp and mfconfiguration.cpp: the theme and the volumes that GConf
-- holds, and `setVolume` of src/lib/mfmanager.cpp, which receives the changes. GConf itself is a
-- parameter (`GConf`); a signal that is emitted is a returned value.
pub mod Volumes
pub mod Restart
use touch_feedback.Base.{
  ℕ, zero, suc, ◌+◌, Bool, true, false, not, ◌&&◌, Option, none, some, List, [], ◌∷◌, ◌++◌, ltb,
  if◌then◌else◌, length, replicate, get_or, set, drop,
}
use touch_feedback.Base.Int.{ℤ, pos, negsuc, ltb_ℤ}
use touch_feedback.Base.Text.{Text, codes, starts_with, last_section, split}
use touch_feedback.Base.Dict.{Dict, insert}
use touch_feedback.Backend.{
  PlaybackVolume, volume_high, volume_medium, volume_low, volume_off, volume_high_id,
  volume_medium_id, volume_low_id, volume_off_id,
}
use touch_feedback.World.{Platform, World}
use touch_feedback.Feedback.{volume_priority_prefix}
use touch_feedback.Theme.{default_theme}

abbrev pub max_volume_priority : ℕ
max_volume_priority = 2

pub data GConfValue : Type 0 where
  string_value : Text → GConfValue
  other_value : GConfValue

pub record GConfEntry : Type 0 where
  pub key : Text
  pub value : Option GConfValue

-- The answer of `gconf_client_get_string`.
pub data Reply : Type 0 where
  failed null : Reply
  text : Text → Reply

-- `all_entries` is `none` for an error or a null list; an entry of the list may be null.
pub record GConf : Type 0 where
  pub get_string : Text → Reply
  pub all_entries : Text → Option (List (Option GConfEntry))

abbrev pub configuration_dir : Text
configuration_dir = codes "/meegotouch"

abbrev pub theme_key : Text
theme_key = configuration_dir ++ codes "/theme/name"

abbrev pub feedback_volume_dir : Text
feedback_volume_dir = configuration_dir ++ codes "/input_feedback/volume"

abbrev pub key_path_start : Text
key_path_start = configuration_dir ++ codes "/input_feedback/volume/"

-- `init` of the private class: whether a client is kept, from whether GConf gives one and whether
-- each of the three calls on it fails. A client that is not kept is given back.
unfoldable pub init_client : Bool → Bool → Bool → Bool → Bool
init_client has_default add_dir_fails theme_notify_fails volume_notify_fails =
    if not has_default
    then false
    else if add_dir_fails
    then false
    else if theme_notify_fails
    then false
    else not volume_notify_fails

-- `init` of the public class: whether it succeeds, from whether each of its two `connect` calls
-- does. A missing GConf is no failure.
unfoldable pub init_configuration : Bool → Bool → Bool
init_configuration theme_connected volume_connected =
    if not theme_connected then false else if not volume_connected then false else true

-- `getTheme`. The client is `none` where GConf is not available.
unfoldable pub get_theme : Option GConf → Text
get_theme none = default_theme
get_theme (some g) = elim (g.get_string theme_key) [
  | failed ↦ default_theme
  | text t ↦ t
  | null ↦ default_theme
]

-- `themeChangedCallback`: the theme of the signal `themeChanged`, if it is emitted.
unfoldable pub theme_changed_callback : GConfEntry → Option Text
theme_changed_callback entry = elim entry.value [
  | none ↦ none
  | some (string_value t) ↦ some t
  | some other_value ↦ none
]

module _ (p : Platform) where
  -- The volume, and whether the text is one of the four.
  unfoldable pub to_volume : Text → PlaybackVolume × Bool
  to_volume volume =
      if p.equal_any_case volume volume_off_id
      then (volume_off, true)
      else if p.equal_any_case volume volume_low_id
      then (volume_low, true)
      else if p.equal_any_case volume volume_medium_id
      then (volume_medium, true)
      else if p.equal_any_case volume volume_high_id
      then (volume_high, true)
      else (volume_medium, false)

  -- The number behind "priority", -1 where there is none or it is above the largest.
  unfoldable pub priority_number : Text → ℤ
  priority_number part =
      if starts_with part volume_priority_prefix
      then (elim (p.to_int (drop (length volume_priority_prefix) part)) [
        | none ↦ negsuc 0
        | some n ↦ if ltb_ℤ (pos max_volume_priority) n then negsuc 0 else n
      ])
      else negsuc 0

  -- The volume id and the backend of the parts of a key.
  unfoldable pub volume_target : List Text → ℤ × Text
  unfolding priority_number
  volume_target [] = (negsuc 0, [])
  volume_target (backend ∷ []) = (pos 0, backend)
  volume_target (part ∷ backend ∷ []) = (priority_number part, backend)
  volume_target (a ∷ b ∷ c ∷ parts) = (negsuc 0, [])

  abbrev pub volume_signal : ℤ → Text → PlaybackVolume × Bool → Option (ℕ × Text × PlaybackVolume)
  volume_signal (negsuc n) backend volume = none
  volume_signal (pos id) backend (volume, ok) =
      some (id, backend, if ok then volume else volume_medium)

  -- The arguments of the signal `volumeChanged`, if it is emitted.
  unfoldable pub emit_volume_changed : Text → Text → Option (ℕ × Text × PlaybackVolume)
  emit_volume_changed key_path new_volume =
      if not (starts_with key_path key_path_start)
      then none
      else (let (id, backend) =
            volume_target (split b'/' (drop (length key_path_start) key_path)) in
          volume_signal id backend (to_volume new_volume))

  -- `volumeChangedCallback`
  unfoldable pub volume_changed_callback : GConfEntry → Option (ℕ × Text × PlaybackVolume)
  unfolding emit_volume_changed
  volume_changed_callback entry = elim entry.value [
    | none ↦ none
    | some (string_value t) ↦ emit_volume_changed entry.key t
    | some other_value ↦ none
  ]

  -- The loop of `getVolumesOfDir` over the entries.
  unfoldable pub read_entries : List (Option GConfEntry) → Dict PlaybackVolume → Dict PlaybackVolume
  unfolding to_volume
  read_entries [] volumes = volumes
  read_entries (none ∷ entries) volumes = read_entries entries volumes
  read_entries (some entry ∷ entries) volumes = read_entries entries (elim entry.value [
    | none ↦ volumes
    | some (string_value t) ↦ insert (last_section b'/' entry.key) (to_volume t).0 volumes
    | some other_value ↦ volumes
  ])

  unfoldable pub get_volumes_of_dir : GConf → Text → Dict PlaybackVolume
  unfolding read_entries
  get_volumes_of_dir g dir = elim (g.all_entries dir) [
    | none ↦ []
    | some entries ↦ read_entries entries []
  ]

  -- "<volume dir>/priority<i>"
  abbrev pub volume_id_dir : ℕ → Text
  volume_id_dir i = feedback_volume_dir ++ codes "/" ++ volume_priority_prefix ++ p.number i

  -- `getVolumes`: the loop over the ids is written out, from 1 to `maxVolumePriority`.
  unfoldable pub get_volumes : Option GConf → List (Dict PlaybackVolume)
  unfolding get_volumes_of_dir
  get_volumes none = replicate (suc max_volume_priority) []
  get_volumes (some g) =
      get_volumes_of_dir g feedback_volume_dir
      ∷ get_volumes_of_dir g (volume_id_dir 1)
      ∷ get_volumes_of_dir g (volume_id_dir 2)
      ∷ []

-- `setVolume` of the manager. `none` is an access out of the list's range.
unfoldable pub set_volume : ℤ → Text → PlaybackVolume → World → Option World
set_volume (negsuc n) backend_name volume w = none
set_volume (pos n) backend_name volume w =
    if ltb n (length w.backend_volumes)
    then some (record w {
      backend_volumes =
          set w.backend_volumes n (insert backend_name volume (get_or w.backend_volumes n []));
    })
    else some w
