-- ===== src/System/Ending.antt =====
-- The end of the daemon: what `main` of src/daemon/main.cpp deletes after the event loop.
use touch_feedback.Base.{
  ℕ, ◌≡◌, refl, ◌∙◌, sym, ap, true, false, contains, Option, none, some, List, [], ◌∷◌, ◌++◌,
  length, subst, append-nil, Option-cases, inl, inr, arith,
}
use touch_feedback.Backend.Ledger.{held, Clean, IsTidy}
use touch_feedback.Backend.{Call, Connector, cleanup}
use touch_feedback.World.{Platform, World}
use touch_feedback.Cache.{delete_cache}
use touch_feedback.Handle.Ledger.{Ledger, owners-none}
use touch_feedback.Feedback.Keeping.{delete_cache-Keeps}
use touch_feedback.Feedback.Owning.{Ledger-Keeps}
use touch_feedback.Feedback.Fitting.{SameBackends, SameBackends-refl, SameBackends-Keeps}
use touch_feedback.Session.{Session, destroy_session}
use touch_feedback.Session.Keeping.{destroy_session-Keeps}
use touch_feedback.Plugins.{Manager, clean_up_backends, destroy_manager}
use touch_feedback.Plugins.Lists
use touch_feedback.Plugins.Shutdown.{cleaned, delete_cache-none_left, destroy_manager-none_left}
use touch_feedback.System.{Reach, ends, next}
use touch_feedback.System.Counts.{nobody}
use touch_feedback.System.Outcomes.{Reach-Sound}

module _ (p : Platform) where
  -- The deletion of the server: its connections are its children, and a connection's session is the
  -- connection's child.
  unfoldable pub end_sessions : List Session → World → World
  unfolding destroy_session
  end_sessions [] w = w
  end_sessions (x ∷ sessions) w = end_sessions sessions (destroy_session p x w)

  -- The server is deleted, and then the manager.
  unfoldable pub shut_down : List Session → Manager → Option Manager
  unfolding end_sessions destroy_manager
  shut_down sessions m = destroy_manager (record m { world = end_sessions sessions m.world })

  -- The sessions between others end, one by one.
  pub end_sessions-Reach :
      (before sessions after : List Session) (w : World)
      → Reach p (record { world = w; sessions = before ++ (sessions ++ after) })
      → Reach p (record { world = end_sessions sessions w; sessions = before ++ after })
  unfolding end_sessions
  end_sessions-Reach before [] after w r = r
  end_sessions-Reach before (x ∷ sessions) after w r =
      end_sessions-Reach before sessions after (destroy_session p x w) (
        next (record { world = w; sessions = before ++ x ∷ (sessions ++ after) })
          (record { world = destroy_session p x w; sessions = before ++ (sessions ++ after) }) r
          (ends before (sessions ++ after) x refl refl))

  end_sessions-SameBackends :
      (sessions : List Session) (v w : World)
      → SameBackends v w
      → SameBackends v (end_sessions sessions w)
  unfolding end_sessions
  end_sessions-SameBackends [] v w same = same
  end_sessions-SameBackends (x ∷ sessions) v w same =
      end_sessions-SameBackends sessions v (destroy_session p x w)
        (destroy_session-Keeps p (SameBackends v) (SameBackends-Keeps p v) x w same)

  Inv-SameBackends :
      (m : Manager) (u : World)
      → SameBackends m.world u
      → Lists.Inv m
      → Lists.Inv (record m { world = u })
  Inv-SameBackends m u same v = record {
    backends = rw (same.backends) (v.backends);
    sources = v.sources;
    backend_loaders = v.backend_loaders ∙ sym (ap length same.backends);
    source_loaders = v.source_loaders;
    non_threaded = rw (same.direct, same.backends) (v.non_threaded);
  }

  calls_or : Option Manager → List Call
  calls_or none = []
  calls_or (some m) = m.world.calls

  destroy_manager-calls :
      (m n : Manager) → destroy_manager m ≡ some n → n.world.calls ≡ (delete_cache m.world).calls
  unfolding destroy_manager calls_or
  destroy_manager-calls m n e =
      let w = delete_cache m.world in
      elim (Option-cases (clean_up_backends m.backend_loader_list w.backend_list w.connector)) [
        | inl fault ↦ cc (rw (destroy_manager, fault) at e)
        | inr (connectors, cleaned_up) ↦ sym (ap calls_or (rw (destroy_manager, cleaned_up) at e))
      ]

  stopped :
      (backends : List ℕ) (f : ℕ → Connector) (c : ℕ) (x : Connector)
      → x ≡ cleaned backends f c
      → contains c backends ≡ true
      → (x.timer ≡ none) × (x.attempt ≡ false)
  unfolding cleanup
  stopped backends f c x e listed = ground (arith, e, listed)

  -- In every state that the event loop reaches, where the manager's lists agree, the daemon can be
  -- shut down: no list is read out of its range, and in the end there is no handle, the cache and the
  -- list of backends are empty, each backend that was listed has no timer running and no attempt to
  -- connect under way, and the plugins have been given back all that they handed out, and nothing
  -- else. A plugin must hand out nothing when a load fails.
  pub Reach-shut_down :
      IsTidy p.plugin
      → (sessions : List Session) (m : Manager)
      → Reach p (record { world = m.world; sessions = sessions })
      → Lists.Inv m
      → (n : Manager) × (shut_down sessions m ≡ some n)
        × ((o : ℕ) → n.world.object o ≡ none)
        × (n.world.feedback_handle_hash ≡ [])
        × (n.world.backend_list ≡ [])
        × ((c : ℕ)
            → contains c m.world.backend_list ≡ true
            → ((n.world.connector c).timer ≡ none) × ((n.world.connector c).attempt ≡ false))
        × ((b v : ℕ) → held p.plugin n.world.calls b v ≡ 0)
        × Clean p.plugin n.world.calls
  unfolding shut_down cleanup
  Reach-shut_down tidy sessions m r lists =
      let u = end_sessions sessions m.world in
      let same = end_sessions-SameBackends sessions m.world m.world (SameBackends-refl m.world) in
      let sound =
        Reach-Sound p tidy (record { world = u; sessions = [] })
          (end_sessions-Reach [] sessions [] m.world (
            subst (λ (l : List Session). Reach p (record { world = m.world; sessions = l }))
              (sym (append-nil sessions)) r)) in
      let (n, made, objects, hash, backends, connectors) =
        destroy_manager-none_left p (record m { world = u }) nobody
          (Inv-SameBackends m u same lists) sound.cache in
      let ledger = delete_cache-Keeps p (Ledger p) (Ledger-Keeps p tidy) u sound.ledger in
      let calls = destroy_manager-calls (record m { world = u }) n made in
      (
        n,
        made,
        objects,
        hash,
        backends,
        λ c listed.
            stopped u.backend_list u.connector c (n.world.connector c) (connectors c)
              (rw (same.backends) listed),
        λ b v. rw calls (
            ledger.settled b v
            ∙ owners-none b v (delete_cache u).object (delete_cache u).next_object
                (λ o. delete_cache-none_left p u nobody o sound.cache)),
        rw calls (ledger.clean),
      )
