-- ===== src/System/Staying.antt =====
-- Over each event the handles that stay keep their backends.
use touch_feedback.Base.{
  ◌≡◌, refl, subst, some, none, List, arith, length, inl, inr, Bool-cases, ltb, Option,
}
use touch_feedback.Base.Int.{ℤ, pos, negsuc}
use touch_feedback.Base.Text.{Text}
use touch_feedback.Backend.{PlaybackVolume}
use touch_feedback.World.{Platform, World}
use touch_feedback.Feedback.Keeping.{unload_handles_for_a_backend-Keeps}
use touch_feedback.Feedback.Later.{Later, Later-refl, Later-Keeps}
use touch_feedback.Session.{Session, map_feedbacks, reload_feedbacks}
use touch_feedback.Session.Keeping.{map_feedbacks-Keeps, reload_feedbacks-Keeps}
use touch_feedback.Configuration.{set_volume}
use touch_feedback.Plugins.{backend_disconnected, backend_connected, load_theme}
use touch_feedback.System.{
  ManagerStep, backend_connects, backend_disconnects, connections_change, sets_volume, loads_theme,
}

pub tuned-Later :
    (w u : World)
    → u.backend_list ≡ w.backend_list
    → u.next_object ≡ w.next_object
    → u.object ≡ w.object
    → Later w u
tuned-Later w u backends addresses objects = record {
  backends = backends;
  addresses = omega (arith, addresses);
  stays = λ o h below live. (h, rw objects at live, refl);
}

abbrev LaterEach : World → Option World → Type 0
LaterEach w none = Unit {0}
LaterEach w (some u) = Later w u

volume-LaterEach :
    (w : World) (priority : ℤ) (name : Text) (v : PlaybackVolume)
    → LaterEach w (set_volume priority name v w)
unfolding set_volume
volume-LaterEach w (negsuc n) name v = tt
volume-LaterEach w (pos n) name v = elim (Bool-cases (ltb n (length w.backend_volumes))) [
  | inl lt ↦ rw (lt, set_volume) (tuned-Later w _ refl refl refl)
  | inr ge ↦ rw (ge, set_volume) (Later-refl w)
]

module _ (p : Platform) where
  pub managed-Later : (w u : World) → ManagerStep w u → Later w u
  unfolding backend_connected load_theme backend_disconnected
  managed-Later w u (backend_connects b e) = rw e (Later-refl w)
  managed-Later w u (backend_disconnects b e) =
      rw e (unload_handles_for_a_backend-Keeps p (Later w) (Later-Keeps p w) b w (Later-refl w))
  managed-Later w u (connections_change c e) = rw e (tuned-Later w _ refl refl refl)
  managed-Later w u (sets_volume priority name v h) =
      subst (LaterEach w) h (volume-LaterEach w priority name v)
  managed-Later w u (loads_theme theme e) = rw e (tuned-Later w _ refl refl refl)

  pub mapped-Later :
      (lists : List (List Text)) (x : Session) (w : World) → Later w (map_feedbacks p lists x w).1
  mapped-Later lists x w =
      map_feedbacks-Keeps p (Later w) (Later-Keeps p w) lists x w (Later-refl w)

  pub reloaded-Later :
      (lists : List (List Text)) (x : Session) (w : World)
      → Later w (reload_feedbacks p lists x w).1
  reloaded-Later lists x w =
      reload_feedbacks-Keeps p (Later w) (Later-Keeps p w) lists x w (Later-refl w)
