-- ===== src/System/Invariant.antt =====
-- What holds between any two events of the daemon's event loop.
use touch_feedback.Base.{◌≤◌, ◌≡◌, refl, sym, subst, List, [], ◌∷◌, ◌++◌, length}
use touch_feedback.Base.Dict.{lookup, Keyed}
use touch_feedback.Backend.Ledger.{IsTidy}
use touch_feedback.World.{Platform, World}
use touch_feedback.Handle.Ledger.{Ledger, owners-none}
use touch_feedback.Cache.Invariant.{Inv, Inv-ext}
use touch_feedback.Feedback.Fitting.{SameBackends}
use touch_feedback.Session.{Session}
use touch_feedback.Session.Counts.{bump_session}
use touch_feedback.Session.Fitting.{SessionFits, SessionFits-SameBackends}
use touch_feedback.System.{System, IsStart}
use touch_feedback.System.Counts.{nobody, bump_sessions, bump_sessions_middle}

abbrev pub AllSessionsFit : World → List Session → Type 0
AllSessionsFit w [] = Unit {0}
AllSessionsFit w (x ∷ sessions) = SessionFits w x × AllSessionsFit w sessions

-- The cache and the counts are right for the pointers of all sessions; what the plugins have handed
-- out is owned, one for one; and the feedbacks fit the backends.
pub record Sound (p : Platform) (s : System) : Type 0 where
  pub cache : Inv p s.world (bump_sessions s.sessions nobody)
  pub ledger : Ledger p s.world
  pub fit : AllSessionsFit s.world s.sessions
  pub direct : s.world.non_threaded_backend_count ≤ length s.world.backend_list

AllSessionsFit-SameBackends :
    (w u : World) (sessions : List Session)
    → SameBackends w u
    → AllSessionsFit w sessions
    → AllSessionsFit u sessions
AllSessionsFit-SameBackends w u [] s v = tt
AllSessionsFit-SameBackends w u (x ∷ sessions) s v =
    (SessionFits-SameBackends w u x s v.0, AllSessionsFit-SameBackends w u sessions s v.1)

pub AllSessionsFit-middle :
    (w : World) (before after : List Session) (x : Session)
    → AllSessionsFit w (before ++ x ∷ after)
    → SessionFits w x × AllSessionsFit w (before ++ after)
AllSessionsFit-middle w [] after x v = (v.0, v.1)
AllSessionsFit-middle w (y ∷ before) after x v =
    let rest = AllSessionsFit-middle w before after x v.1 in (rest.0, (v.0, rest.1))

AllSessionsFit-put :
    (w : World) (before after : List Session) (x : Session)
    → SessionFits w x
    → AllSessionsFit w (before ++ after)
    → AllSessionsFit w (before ++ x ∷ after)
AllSessionsFit-put w [] after x fits v = (fits, v)
AllSessionsFit-put w (y ∷ before) after x fits v =
    (v.0, AllSessionsFit-put w before after x fits v.1)

module _ (p : Platform) (tidy : IsTidy p.plugin) where
  pub start-Ledger : (w : World) → IsStart w → Ledger p w
  start-Ledger w v = record {
    fresh = λ o above. v.no_object o;
    idle = λ o h x. cc (v.no_object o);
    settled = λ b r. rw (v.no_call) (sym (owners-none b r w.object w.next_object v.no_object));
    clean = rw (v.no_call) tt;
  }

  pub start-Inv : (w : World) → IsStart w → Inv p w nobody
  unfolding lookup Keyed
  start-Inv w v = record {
    distinct = v.backends;
    keyed = rw (v.no_entry) tt;
    fresh = λ o above. (v.no_object o, refl);
    counted = λ o h x. cc (v.no_object o);
    cached = λ o h x. cc (v.no_object o);
    alive = λ k o x. cc (rw (v.no_entry) at x);
  }

  -- One session is put aside.
  pub focus :
      (s : System) (before after : List Session) (x : Session)
      → s.sessions ≡ before ++ x ∷ after
      → Sound p s
      → Inv p s.world (bump_session x (bump_sessions (before ++ after) nobody))
        × SessionFits s.world x
        × AllSessionsFit s.world (before ++ after)
  focus s before after x e v =
      let fits = AllSessionsFit-middle s.world before after x (rw e at (v.fit)) in
      (
        Inv-ext p s.world _ _ (bump_sessions_middle before after x nobody)
            (subst (λ (l : List Session). Inv p s.world (bump_sessions l nobody)) e v.cache),
        fits.0,
        fits.1,
      )

  -- One session is put back, perhaps changed.
  pub put :
      (before after : List Session) (x : Session) (w u : World)
      → Inv p u (bump_session x (bump_sessions (before ++ after) nobody))
      → Ledger p u
      → SameBackends w u
      → w.non_threaded_backend_count ≤ length w.backend_list
      → SessionFits w x
      → AllSessionsFit w (before ++ after)
      → Sound p (record { world = u; sessions = before ++ x ∷ after })
  put before after x w u cache ledger same direct fits others = record {
    cache = Inv-ext p u _ _ (λ q. sym (bump_sessions_middle before after x nobody q)) cache;
    ledger = ledger;
    fit =
        AllSessionsFit-SameBackends w u (before ++ x ∷ after) same
          (AllSessionsFit-put w before after x fits others);
    direct = rw (same.direct, same.backends) direct;
  }

  -- The world changes, and the sessions fitted the backends before.
  pub changed :
      (sessions : List Session) (w u : World)
      → Inv p u (bump_sessions sessions nobody)
      → Ledger p u
      → SameBackends w u
      → AllSessionsFit w sessions
      → w.non_threaded_backend_count ≤ length w.backend_list
      → Sound p (record { world = u; sessions = sessions })
  changed sessions w u cache ledger same fit direct = record {
    cache = cache;
    ledger = ledger;
    fit = AllSessionsFit-SameBackends w u sessions same fit;
    direct = rw (same.direct, same.backends) direct;
  }
