-- ===== src/Daemon/DeviceState.antt =====
-- src/daemon/mfdevicestatelistener.cpp: the display's state from the property Session.State.
use touch_feedback.Base.{
  Bool, true, false, Option, none, some, List, [], ◌∷◌, ◌≡◌, refl, map, Bool-cases, inl, inr,
  if◌then◌else◌,
}
use touch_feedback.Base.Text.{Text, codes, text_eq}
use touch_feedback.Base.Dict.{Dict, insert}

-- `deviceState` for the property's value: `isDisplayActive` after it, and the map.
unfoldable pub device_state : Text → Bool × Dict Text
unfolding insert text_eq
device_state session_state =
    let is_display_active = if text_eq session_state (codes "blanked") then false else true in
    (
      is_display_active,
      if is_display_active
          then insert (codes "display") (codes "on") []
          else insert (codes "display") (codes "off") [],
    )

-- The listener. The property is a parameter: `value` is what it holds, if `init` has created it.
pub record Listener : Type 0 where
  pub is_display_active : Bool
  pub session_state_property : Option Text

unfoldable pub new_listener : Listener
new_listener = record { is_display_active = true; session_state_property = none }

unfoldable pub init_listener : Text → Listener → Listener
init_listener value l = record l { session_state_property = some value }

-- `sessionStateChanged`: the listener and the map that is emitted. `none` is the use of a property
-- that is not there.
unfoldable pub session_state_changed : Listener → Option (Listener × Dict Text)
unfolding device_state
session_state_changed l = elim l.session_state_property [
  | none ↦ none
  | some value ↦
      let (active, status) = device_state value in
      some (record l { is_display_active = active }, status)
]

-- The property changes, and the slot that `init` has connected is called: the maps that are emitted,
-- oldest first.
unfoldable pub changes : Listener → List Text → Option (Listener × List (Dict Text))
unfolding session_state_changed
changes l [] = some (l, [])
changes l (value ∷ values) =
    elim (session_state_changed (record l { session_state_property = some value })) [
      | none ↦ none
      | some (l', status) ↦ elim (changes l' values) [
        | none ↦ none
        | some (l'', statuses) ↦ some (l'', status ∷ statuses)
      ]
    ]

abbrev display : Text → Dict Text
display value =
    (codes "display", if text_eq value (codes "blanked") then codes "off" else codes "on") ∷ []

device_state_lem : (value : Text) → (device_state value).1 ≡ display value
unfolding device_state insert
device_state_lem value = elim (Bool-cases (text_eq value (codes "blanked"))) [
  | inl blanked ↦ rw (blanked, device_state) refl
  | inr other ↦ rw (other, device_state) refl
]

-- Each change of the property is reported, in order: the display is off exactly when it is blanked.
changes_lem :
    (l : Listener) (values : List Text)
    → (m : Listener) × (changes l values ≡ some (m, map display values))
unfolding changes session_state_changed
changes_lem l [] = (l, refl)
changes_lem l (value ∷ values) =
    let l' : Listener = record l {
      session_state_property = some value;
      is_display_active = (device_state value).0;
    } in
    let (m, rest) = changes_lem l' values in (m, rw (changes, rest, device_state_lem value) refl)
