-- ===== src/Session/Reloading.antt =====
-- What `themeChanged` does to each feedback of a session.
use touch_feedback.Base.{◌≡◌, Option, none, some, List, [], ◌∷◌, if◌then◌else◌}
use touch_feedback.Base.Text.{Text, last_section, text_eq}
use touch_feedback.Base.Dict.{lookup}
use touch_feedback.World.{Platform, World}
use touch_feedback.Feedback.{Feedback, load_feedback}
use touch_feedback.Session.{Session}

-- The last of the lists of directories that is for a name: its first directory ends with it.
abbrev pub last_for : Text → List (List Text) → Option (List Text)
last_for name [] = none
last_for name ([] ∷ lists) = last_for name lists
last_for name ((dir ∷ dirs) ∷ lists) = elim (last_for name lists) [
  | some later ↦ some later
  | none ↦ if text_eq (last_section b'/' dir) name then some (dir ∷ dirs) else none
]

module _ (p : Platform) where
  -- What becomes of the feedback of a name: it is loaded from the last list that is for its name, and
  -- without such a list it stays. Nothing is added, and the rest of the session stays.
  pub record Reloaded (lists : List (List Text)) (x y : Session) : Type 0 where
    pub rest : y ≡ record x { feedback_hash = y.feedback_hash }
    pub kept :
        (name : Text)
        → last_for name lists ≡ none
        → lookup name y.feedback_hash ≡ lookup name x.feedback_hash
    pub unknown :
        (name : Text) → lookup name x.feedback_hash ≡ none → lookup name y.feedback_hash ≡ none
    pub loaded :
        (name : Text) (dirs : List Text) (f : Feedback)
        → last_for name lists ≡ some dirs
        → lookup name x.feedback_hash ≡ some f
        → (g : Feedback) × (w : World) × (lookup name y.feedback_hash
            ≡ some (load_feedback p dirs g w).0)

  module _ (dir : Text) (dirs : List Text) (lists : List (List Text)) (x : Session)
      (w : World) where
    key : Text
    key = last_section b'/' dir
