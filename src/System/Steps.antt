-- ===== src/System/Steps.antt =====
-- What holds between two events, over each kind of event.
use touch_feedback.Base.{
  ℕ, ◌≡◌, refl, sym, subst, true, some, List, [], ◌∷◌, ◌++◌, arith, length, inl, inr, Bool-cases,
  ltb, set, get_or,
}
use touch_feedback.Base.Int.{ℤ, pos, negsuc}
use touch_feedback.Base.Text.{Text}
use touch_feedback.Base.Dict.{insert}
use touch_feedback.Backend.{Call, Connector, PlaybackVolume}
use touch_feedback.Backend.Ledger.{IsTidy}
use touch_feedback.World.{Platform, World}
use touch_feedback.Handle.Ledger.{Ledger}
use touch_feedback.Cache.Invariant.{Inv}
use touch_feedback.Cache.Unloading.{unload_handles_for_a_backend-Inv}
use touch_feedback.Feedback.Keeping.{unload_handles_for_a_backend-Keeps}
use touch_feedback.Feedback.Owning.{Ledger-Keeps, play_feedback-Ledger}
use touch_feedback.Feedback.Fitting.{SameBackends, SameBackends-refl, SameBackends-Keeps}
use touch_feedback.Session.{Session, new_session, map_feedbacks, reload_feedbacks, destroy_session}
use touch_feedback.Session.References.{map_feedbacks-Inv, reload_feedbacks-Inv, destroy_session-Inv}
use touch_feedback.Session.Keeping.{
  map_feedbacks-Keeps, reload_feedbacks-Keeps, destroy_session-Keeps, SetUp, setup_cases,
  theme_changed_cases,
}
use touch_feedback.Session.Fitting.{map_feedbacks-SessionFits, reload_feedbacks-SessionFits}
use touch_feedback.Configuration.{set_volume}
use touch_feedback.Plugins.{backend_disconnected, backend_connected, load_theme}
use touch_feedback.System.{
  System, Step, ManagerStep, connects, sets_up, changes_theme, ends, plays, manages,
  backend_connects, backend_disconnects, connections_change, sets_volume, loads_theme,
}
use touch_feedback.System.Counts.{nobody, bump_sessions}
use touch_feedback.System.Invariant.{Sound, focus, put, changed}

-- Only fields change that no invariant reads.
abbrev tuned : World → Text → List (List (Text × PlaybackVolume)) → (ℕ → Connector) → World
tuned w theme volumes connector = record w {
  current_theme_name = theme;
  backend_volumes = volumes;
  connector = connector;
}

module _ (p : Platform) (tidy : IsTidy p.plugin) where
  -- A session's feedbacks are mapped, or loaded anew.
  mapped-Sound :
      (s : System) (before after : List Session) (x : Session) (lists : List (List Text))
      → s.sessions ≡ before ++ x ∷ after
      → Sound p s
      → Sound p (record {
        world = (map_feedbacks p lists x s.world).1;
        sessions =
            before ++ record (map_feedbacks p lists x s.world).0 { setup_finished = true } ∷ after;
      })
  mapped-Sound s before after x lists e v =
      let (cache, fits, others) = focus p tidy s before after x e v in
      let w = s.world in
      put p tidy before after _ w (map_feedbacks p lists x w).1
        (map_feedbacks-Inv p lists x w _ cache)
        (map_feedbacks-Keeps p (Ledger p) (Ledger-Keeps p tidy) lists x w v.ledger)
        (map_feedbacks-Keeps p (SameBackends w) (SameBackends-Keeps p w) lists x w
          (SameBackends-refl w))
        v.direct
        (map_feedbacks-SessionFits p lists x w w (SameBackends-refl w) (SameBackends-refl w) fits)
        others

  reloaded-Sound :
      (s : System) (before after : List Session) (x : Session) (lists : List (List Text))
      → s.sessions ≡ before ++ x ∷ after
      → Sound p s
      → Sound p (record {
        world = (reload_feedbacks p lists x s.world).1;
        sessions = before ++ (reload_feedbacks p lists x s.world).0 ∷ after;
      })
  reloaded-Sound s before after x lists e v =
      let (cache, fits, others) = focus p tidy s before after x e v in
      let w = s.world in
      put p tidy before after _ w (reload_feedbacks p lists x w).1
        (reload_feedbacks-Inv p lists x w _ cache)
        (reload_feedbacks-Keeps p (Ledger p) (Ledger-Keeps p tidy) lists x w v.ledger)
        (reload_feedbacks-Keeps p (SameBackends w) (SameBackends-Keeps p w) lists x w
          (SameBackends-refl w))
        v.direct (reload_feedbacks-SessionFits p lists x w w fits) others

  ended-Sound :
      (s : System) (before after : List Session) (x : Session)
      → s.sessions ≡ before ++ x ∷ after
      → Sound p s
      → Sound p (record { world = destroy_session p x s.world; sessions = before ++ after })
  ended-Sound s before after x e v =
      let (cache, fits, others) = focus p tidy s before after x e v in
      let w = s.world in
      changed p tidy (before ++ after) w (destroy_session p x w) (destroy_session-Inv p x w _ cache)
        (destroy_session-Keeps p (Ledger p) (Ledger-Keeps p tidy) x w v.ledger)
        (destroy_session-Keeps p (SameBackends w) (SameBackends-Keeps p w) x w
          (SameBackends-refl w))
        others v.direct

  -- Calls were made, and nothing else changed.
  called-Sound :
      (s : System) (u : World)
      → u ≡ record s.world { calls = u.calls }
      → Ledger p u
      → Sound p s
      → Sound p (record s { world = u })
  called-Sound s u e ledger v =
      changed p tidy s.sessions s.world u
        (subst (λ (w : World). Inv p w (bump_sessions s.sessions nobody)) (sym e)
          (called-Inv s u.calls v.cache))
        ledger (subst (SameBackends s.world) (sym e) (record { backends = refl; direct = refl }))
        v.fit v.direct
    where
      called-Inv :
          (s : System) (calls : List Call)
          → Inv p s.world (bump_sessions s.sessions nobody)
          → Inv p (record s.world { calls = calls }) (bump_sessions s.sessions nobody)
      called-Inv s calls c = record {
        distinct = c.distinct;
        keyed = c.keyed;
        fresh = c.fresh;
        counted = c.counted;
        cached = c.cached;
        alive = c.alive;
      }

  tuned-Sound :
      (s : System) (theme : Text) (volumes : List (List (Text × PlaybackVolume)))
      (connector : ℕ → Connector)
      → Sound p s
      → Sound p (record s { world = tuned s.world theme volumes connector })
  tuned-Sound s theme volumes connector v =
      let c = v.cache in
      let l = v.ledger in
      changed p tidy s.sessions s.world (tuned s.world theme volumes connector)
        (record {
          distinct = c.distinct;
          keyed = c.keyed;
          fresh = c.fresh;
          counted = c.counted;
          cached = c.cached;
          alive = c.alive;
        })
        (record { fresh = l.fresh; idle = l.idle; settled = l.settled; clean = l.clean })
        (record { backends = refl; direct = refl }) v.fit v.direct

  lost-Sound :
      (s : System) (b : ℕ)
      → Sound p s
      → Sound p (record s { world = backend_disconnected (some b) s.world })
  unfolding backend_disconnected
  lost-Sound s b v =
      let w = s.world in
      changed p tidy s.sessions w (backend_disconnected (some b) w)
        (unload_handles_for_a_backend-Inv p b w _ v.cache).0
        (unload_handles_for_a_backend-Keeps p (Ledger p) (Ledger-Keeps p tidy) b w v.ledger)
        (unload_handles_for_a_backend-Keeps p (SameBackends w) (SameBackends-Keeps p w) b w
          (SameBackends-refl w))
        v.fit v.direct

  volume-Sound :
      (s : System) (priority : ℤ) (name : Text) (volume : PlaybackVolume) (w : World)
      → set_volume priority name volume s.world ≡ some w
      → Sound p s
      → Sound p (record s { world = w })
  unfolding set_volume
  volume-Sound s (negsuc n) name volume w e v = cc
  volume-Sound s (pos n) name volume w e v =
      elim (Bool-cases (ltb n (length s.world.backend_volumes))) [
        | inl lt ↦
            subst (λ (u : World). Sound p (record s { world = u })) (ground (arith, lt))
              (tuned-Sound s s.world.current_theme_name
                (set s.world.backend_volumes n
                  (insert name volume (get_or s.world.backend_volumes n [])))
                s.world.connector v)
        | inr ge ↦ subst (λ (u : World). Sound p (record s { world = u })) (ground (arith, ge)) v
      ]

  joined-Sound :
      (s : System) (before after : List Session) (name : Text)
      → s.sessions ≡ before ++ after
      → Sound p s
      → Sound p (record s { sessions = before ++ new_session name ∷ after })
  unfolding new_session
  joined-Sound s before after name e v =
      put p tidy before after (new_session name) s.world s.world
        (subst (λ (l : List Session). Inv p s.world (bump_sessions l nobody)) e v.cache) v.ledger
        (SameBackends-refl s.world) v.direct (tt, tt) (rw e at (v.fit))

  managed-Sound :
      (s : System) (u : World)
      → ManagerStep s.world u
      → Sound p s
      → Sound p (record s { world = u })
  unfolding backend_connected load_theme
  managed-Sound s u (backend_connects b e) v = rw e v
  managed-Sound s u (backend_disconnects b e) v = rw e (lost-Sound s b v)
  managed-Sound s u (connections_change c e) v =
      rw e (tuned-Sound s s.world.current_theme_name s.world.backend_volumes c v)
  managed-Sound s u (sets_volume priority name volume h) v =
      volume-Sound s priority name volume u h v
  managed-Sound s u (loads_theme theme e) v =
      rw e (tuned-Sound s theme s.world.backend_volumes s.world.connector v)

  pub Step-Sound : (s t : System) → Step p s t → Sound p s → Sound p t
  Step-Sound s t (connects before after name e f) v = rw f (joined-Sound s before after name e v)
  Step-Sound s t (sets_up before after x y w fuel in_progress flag ready e h f) v =
      rw f (from (setup_cases p fuel in_progress flag ready x y s.world w h))
    where
      from : SetUp p x s.world y w → Sound p (record { world = w; sessions = before ++ y ∷ after })
      from (inl same) =
          subst
            (λ (r : Session × World).
              Sound p (record { world = r.1; sessions = before ++ r.0 ∷ after }))
            (λ i. (same.0 i, same.1 i))
            (subst (λ (l : List Session). Sound p (record { world = s.world; sessions = l })) e v)
      from (inr (lists, eq_y, eq_w)) =
          subst
            (λ (r : Session × World).
              Sound p (record { world = r.1; sessions = before ++ r.0 ∷ after }))
            (λ i. (eq_y i, eq_w i)) (mapped-Sound s before after x lists e v)
  Step-Sound s t (changes_theme before after x y w fuel theme e h f) v =
      let (lists, eq) = theme_changed_cases p fuel theme x y s.world w h in
      rw f (
        subst
          (λ (r : Session × World).
            Sound p (record { world = r.1; sessions = before ++ r.0 ∷ after }))
          eq (reloaded-Sound s before after x lists e v))
  Step-Sound s t (ends before after x e f) v = rw f (ended-Sound s before after x e v)
  Step-Sound s t (plays before after x name g w limit now timestamp e at h f) v =
      let played = play_feedback-Ledger p limit now timestamp g s.world w h v.ledger in
      rw f (called-Sound s w played.0 played.1 v)
  Step-Sound s t (manages u m e) v = rw e (managed-Sound s u m v)
