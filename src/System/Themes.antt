-- ===== src/System/Themes.antt =====
-- The change of the theme: the manager's signal themeChanged (src/lib/mfmanager.cpp) waits in a queue
-- for each session (src/lib/mfsession.cpp), while sessions come, are set up and go.
use touch_feedback.Base.{
  ℕ, ◌≡◌, ◌⊎◌, Bool, true, Option, none, some, List, [], ◌∷◌, ◌++◌, if◌then◌else◌,
}
use touch_feedback.Base.Text.{Text}
use touch_feedback.Base.Int.{ℤ}
use touch_feedback.Backend.{Connector, PlaybackVolume}
use touch_feedback.World.{Platform, World}
use touch_feedback.Theme.{done}
use touch_feedback.Session.{Session, new_session, setup, theme_changed, destroy_session}
use touch_feedback.Configuration.{set_volume}
use touch_feedback.Plugins.{load_theme, backend_connected, backend_disconnected}
use touch_feedback.System.{IsStart}

-- A run of `setup` to its end or of `themeChanged`: the theme, and the session and the state that
-- it began with.
pub record Load : Type 0 where
  pub theme : Text
  pub session : Session
  pub world : World

-- A session, the themes of the signals that wait for it, oldest first, and the last run that loaded
-- its feedbacks, which is kept for the proofs alone.
pub record Follower : Type 0 where
  pub loaded : Option Load
  pub session : Session
  pub signals : List Text

pub record Followers : Type 0 where
  pub world : World
  pub followers : List Follower

-- The signal is queued for each session.
unfoldable pub notify : Option Text → List Follower → List Follower
notify none followers = followers
notify (some theme) [] = []
notify (some theme) (f ∷ followers) =
    record f { signals = f.signals ++ theme ∷ [] } ∷ notify (some theme) followers

-- The session after a run of `setup`, and after one of `themeChanged`.
abbrev pub set_up_in : World → Bool → Follower → Session → Follower
set_up_in w ready f y = record f {
  session = y;
  loaded =
      if ready
      then some (record { theme = w.current_theme_name; session = f.session; world = w })
      else f.loaded;
}

abbrev pub changed_in : World → Text → List Text → Follower → Session → Follower
changed_in w theme signals f y = record {
  session = y;
  signals = signals;
  loaded = some (record { theme = theme; session = f.session; world = w });
}

module _ (p : Platform) where
  -- `before` and `after` are the sessions that the event does not concern.
  pub data Step (s t : Followers) : Type 0 where
    joins :
        (name : Text)
        → t ≡ record s {
          followers =
              s.followers
              ++ record { session = new_session name; signals = []; loaded = none } ∷ [];
        }
        → Step s t
    loads :
        (theme : Text)
        → t ≡ record {
          world = (load_theme theme s.world).0;
          followers = notify (load_theme theme s.world).1 s.followers;
        }
        → Step s t
    sets_up :
        (before after : List Follower) (f : Follower) (y : Session) (w : World) (fuel : ℕ)
        (in_progress flag ready : Bool)
        → s.followers ≡ before ++ f ∷ after
        → setup p fuel in_progress f.session s.world ≡ done (flag, ready, y, w)
        → t ≡ record { world = w; followers = before ++ set_up_in s.world ready f y ∷ after }
        → Step s t
    delivers :
        (before after : List Follower) (f : Follower) (y : Session) (w : World) (fuel : ℕ)
        (theme : Text) (signals : List Text)
        → s.followers ≡ before ++ f ∷ after
        → f.signals ≡ theme ∷ signals
        → theme_changed p fuel theme f.session s.world ≡ done (y, w)
        → t
          ≡ record { world = w; followers = before ++ changed_in s.world theme signals f y ∷ after }
        → Step s t
    ends :
        (before after : List Follower) (f : Follower)
        → s.followers ≡ before ++ f ∷ after
        → t ≡ record { world = destroy_session p f.session s.world; followers = before ++ after }
        → Step s t
    backend_connects :
        (b : ℕ)
        → t ≡ record {
          world = (backend_connected (some b) s.world).0;
          followers = notify (backend_connected (some b) s.world).1 s.followers;
        }
        → Step s t
    backend_disconnects :
        (b : ℕ) → t ≡ record s { world = backend_disconnected (some b) s.world } → Step s t
    connections_change :
        (f : ℕ → Connector) → t ≡ record s { world = record s.world { connector = f } } → Step s t
    sets_volume :
        (priority : ℤ) (name : Text) (v : PlaybackVolume) (w : World)
        → set_volume priority name v s.world ≡ some w
        → t ≡ record s { world = w }
        → Step s t

  pub data Reach : Followers → Type 0 where
    start : (w : World) → IsStart w → Reach (record { world = w; followers = [] })
    next : (s t : Followers) → Reach s → Step s t → Reach t

  -- The session is what `setup`, under the current theme, or `themeChanged` leaves.
  abbrev pub Leaves : Load → Session → Type 0
  Leaves l y =
      (fuel : ℕ) × (w : World) × (((busy : Bool) × (flag : Bool) × (l.world.current_theme_name
            ≡ l.theme)
          × (setup p fuel busy l.session l.world ≡ done (flag, true, y, w)))
        ⊎ (theme_changed p fuel l.theme l.session l.world ≡ done (y, w)))

  -- The last run that loaded the session's feedbacks was for the theme, and left the session as it is.
  abbrev pub LoadedFrom : Text → Follower → Type 0
  LoadedFrom theme f = (l : Load) × (f.loaded ≡ some l) × (l.theme ≡ theme) × Leaves l f.session
