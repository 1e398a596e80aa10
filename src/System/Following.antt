-- ===== src/System/Following.antt =====
-- What themes the feedbacks of the sessions are of.
use touch_feedback.Base.{◌≡◌, ◌⊎◌, false, Option, none, some, List, [], ◌∷◌, All}
use touch_feedback.Base.Text.{Text}
use touch_feedback.World.{Platform, World}
use touch_feedback.Session.{Session}
use touch_feedback.System.Themes.{Follower, Followers, LoadedFrom}

-- The last signal that waits.
abbrev pub last_signal : List Text → Option Text
last_signal [] = none
last_signal (t ∷ []) = some t
last_signal (t ∷ u ∷ signals) = last_signal (u ∷ signals)

module _ (p : Platform) where
  -- Either a signal for the theme is the last that waits, or none waits and the feedbacks are of the
  -- theme, if they are loaded at all.
  abbrev Follows : Text → Follower → Type 0
  Follows theme f =
      (last_signal f.signals ≡ some theme)
      ⊎ ((f.signals ≡ []) × ((f.session.setup_finished ≡ false) ⊎ LoadedFrom p theme f))

  abbrev AllFollow : Followers → Type 0
  AllFollow s = All (Follows s.world.current_theme_name) s.followers
