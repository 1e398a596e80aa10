-- ===== src/Clients/Refines.antt =====
-- Each event of the daemon (Clients.antt) is a sequence of events of src/lib (System.antt), with the
-- sessions of all clients.
use touch_feedback.Base.{ℕ, ◌≡◌, refl, ◌∙◌, sym, ap, Option, none, List, [], ◌∷◌, ◌++◌, arith}
use touch_feedback.Base.Text.{Text, Qt}
use touch_feedback.World.{Platform, World}
use touch_feedback.Session.{Session}
use touch_feedback.Connection.{SocketApi, Connection, kill_me}
use touch_feedback.Base.Dict.{lookup}
use touch_feedback.Backend.Ledger.{held, IsTidy}
use touch_feedback.System
use touch_feedback.System.Outcomes.{Reach-none_left}
use touch_feedback.Clients.{
  Client, Clients, Request, option_list, left_sessions, sessions_of, all_sessions, after_setup,
  Replaces, Delivers, ConnectionStep, receives, killed, Step, arrives, connection_changes, reads,
  sets_up, changes_theme, plays, deleted, manages, Reach, start, next,
}
use touch_feedback.Clients.Sessions.{middle, changes_lem, takes_lem, same_sessions, after_setup_lem}
use touch_feedback.Clients.Reading.{read_cases}
use touch_feedback.Clients.Moves.{system, listed, arrived, kept, read_lem, deleted_lem}

module _ (qt : Qt) (api : SocketApi) (p : Platform) where
  pub alone_lem :
      (c d : Connection api)
      → ConnectionStep qt api c d
      → (d.state ≡ c.state) × (d.session ≡ c.session)
  unfolding kill_me
  alone_lem c d (receives socket e) = rw e (refl, refl)
  alone_lem c d (killed e) = ground (arith, e)

  -- One session of a client becomes another, and the world with it.
  changed :
      (s : Clients api) (before after : List (Client api)) (k l m : Client api) (x y : Session)
      (w : World)
      → s.clients ≡ before ++ k ∷ after
      → Replaces api k l x y
      → sessions_of api m ≡ sessions_of api l
      → ((b a : List Session)
          → all_sessions api s.clients ≡ b ++ x ∷ a
          → System.Step p (system api s) (record { world = w; sessions = b ++ y ∷ a }))
      → System.Reach p (system api s)
      → System.Reach p (system api (record { world = w; clients = before ++ m ∷ after }))
  changed s before after k l m x y w e ch same step r =
      let (u, v, from_k, from_l) = changes_lem api k l x y ch in
      let b = all_sessions api before ++ u in
      let a = v ++ all_sessions api after in
      listed qt api p w (b ++ y ∷ a) _ (sym (middle api before after m u v y (same ∙ from_l))) (
        System.next (system api s) (record { world = w; sessions = b ++ y ∷ a }) r
          (step b a (ap (all_sessions api) e ∙ middle api before after k u v x from_k)))

  played :
      (s : Clients api) (before after : List (Client api)) (k l : Client api) (x : Session)
      (q : Request) (w : World)
      → s.clients ≡ before ++ k ∷ after
      → Delivers api k l x q
      → ((b a : List Session)
          → all_sessions api s.clients ≡ b ++ x ∷ a
          → System.Step p
              (system api s)
              (record { world = w; sessions = all_sessions api s.clients }))
      → System.Reach p (system api s)
      → System.Reach p (system api (record { world = w; clients = before ++ l ∷ after }))
  played s before after k l x q w e t step r =
      let (same, (u, v, from_k)) = takes_lem api k l x q t in
      listed qt api p w (all_sessions api s.clients) _
        (ap (all_sessions api) e ∙ sym (same_sessions api before after k l same))
        (System.next (system api s) (record { world = w; sessions = all_sessions api s.clients }) r
          (step (all_sessions api before ++ u) (v ++ all_sessions api after)
            (ap (all_sessions api) e ∙ middle api before after k u v x from_k)))

  Step-Reach :
      (s t : Clients api)
      → Step qt api p s t
      → System.Reach p (system api s)
      → System.Reach p (system api t)
  Step-Reach s t (arrives socket f) r = rw f (arrived qt api p s socket r)
  Step-Reach s t (connection_changes before after k d e alone f) r = rw f (
      kept qt api p s before after k (record k { connection = d }) e
        (ap (λ (o : Option Session). left_sessions api k.left ++ option_list api o)
          ((alone_lem k.connection d alone).1))
        r)
  Step-Reach s t (reads before after k d asked e h f) r =
      rw f (read_lem qt api p s before after k d asked e (read_cases qt api _ k.connection d _ h) r)
  Step-Reach s t (sets_up before after k l x y w fuel busy flag ready e new ch h f) r = rw f (
      changed s before after k l (after_setup api qt ready l) x y w e ch
        (after_setup_lem api qt ready l)
        (λ b a at. System.sets_up b a x y w fuel busy flag ready at h refl) r)
  Step-Reach s t (changes_theme before after k l x y w fuel theme e ch h f) r = rw f (
      changed s before after k l l x y w e ch refl
        (λ b a at. System.changes_theme b a x y w fuel theme at h refl) r)
  Step-Reach s t (plays before after k l x name timestamp limit now g w e takes at h f) r = rw f (
      played s before after k l x (name, timestamp) w e takes
        (λ b a there. System.plays b a x name g w limit now timestamp there at h refl) r)
  Step-Reach s t (deleted before after k e gone f) r =
      rw f (deleted_lem qt api p s before after k e r)
  Step-Reach s t (manages u m f) r = rw f (
      System.next (system api s) (record { world = u; sessions = all_sessions api s.clients }) r
        (System.manages u m refl))

  -- Every state of the daemon that is reached from the manager's `init`, in whatever order clients
  -- arrive, send data, are set up, ask for feedbacks, are terminated and deleted, is, with the
  -- sessions of all clients in order, a state that the event loop reaches in src/lib.
  pub Reach-system : (s : Clients api) → Reach qt api p s → System.Reach p (system api s)
  Reach-system s (start w v) = System.start w v
  Reach-system t (next s _ r st) = Step-Reach s t st (Reach-system s r)

  -- In every such state with no client left there is no handle, the cache is empty, and the plugins
  -- have been given back all that they handed out. A plugin must hand out nothing when a load fails.
  pub Reach-no_client :
      IsTidy p.plugin
      → (s : Clients api) → Reach qt api p s
      → s.clients ≡ []
      → ((o : ℕ) → s.world.object o ≡ none)
        × ((k : Text) → lookup k s.world.feedback_handle_hash ≡ none)
        × ((b v : ℕ) → held p.plugin s.world.calls b v ≡ 0)
  Reach-no_client tidy s r e =
      Reach-none_left p tidy (system api s) (Reach-system s r) (ap (all_sessions api) e)
