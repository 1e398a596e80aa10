-- ===== src/Clients/Leaving.antt =====
-- How a client of the daemon comes to its end.
use touch_feedback.Base.{
  ◌<◌, ◌≡◌, ◌≢◌, refl, true, false, Option, none, some, List, ◌∷◌, ◌++◌, arith, length,
}
use touch_feedback.Base.Text.{Text, Qt}
use touch_feedback.World.{Platform}
use touch_feedback.Theme.Chain.{IsChain}
use touch_feedback.Theme.Names.{feedback_names}
use touch_feedback.Session.{Session}
use touch_feedback.Session.Ends.{setup-mapped}
use touch_feedback.Connection.{
  State, client_setup, waiting_session, playback, terminated, doomed, SocketApi, Connection,
  kill_me, setup_ready,
}
use touch_feedback.Clients.{
  Client, Clients, current, killed, Step, connection_changes, sets_up, deleted, Reach, next,
}
use touch_feedback.Clients.Invariant.{Awaits, Well, All-middle}
use touch_feedback.Clients.Steps.{Reach-Well}

-- The directory has a feedback for the session's application.
abbrev pub Feeds : Platform → Text → Option Session → Type 0
Feeds p d none = Unit {0}
Feeds p d (some x) = 0 < length (feedback_names p x.app_name d)

module _ (qt : Qt) (api : SocketApi) (p : Platform) where
  -- Events of the daemon, one after the other.
  pub data Run (s : Clients api) : Clients api → Type 0 where
    here : (t : Clients api) → t ≡ s → Run s t
    then : (t u : Clients api) → Run s t → Step qt api p t u → Run s u

  pub Run-Reach : (s t : Clients api) → Reach qt api p s → Run s t → Reach qt api p t
  Run-Reach s t r (here _ e) = rw e r
  Run-Reach s t r (then u _ run st) = next u t (Run-Reach s u r run) st

  kill_me-delete_later :
      (c : Connection api) → c.state ≢ waiting_session → (kill_me qt api c).delete_later ≡ true
  unfolding kill_me
  kill_me-delete_later c h = ground (arith, h)

  abbrev Left : Clients api → List (Client api) → List (Client api) → Type 0
  Left s before after = (t : Clients api) × Run s t × (t.clients ≡ before ++ after)

  leave :
      (s u : Clients api) (before after : List (Client api)) (k : Client api)
      → Run s u
      → u.clients ≡ before ++ k ∷ after
      → k.connection.state ≢ waiting_session
      → Left s before after
  leave s u before after k run e h =
      let l : Client api = record k { connection = kill_me qt api k.connection } in
      let v : Clients api = record u { clients = before ++ l ∷ after } in
      (
        _,
        then v _
            (then u v run (
              connection_changes before after k (kill_me qt api k.connection) e (killed refl) refl))
            (deleted before after l refl (kill_me-delete_later k.connection h) refl),
        refl,
      )

  waited :
      (s : Clients api) (before after : List (Client api)) (k : Client api) (d : Text)
      (dirs : List Text)
      → s.clients ≡ before ++ k ∷ after
      → IsChain p s.world.current_theme_name (d ∷ dirs)
      → Feeds p d k.connection.session
      → (x : Session) → k.connection.session ≡ some x
      → x.setup_finished ≡ false
      → Left s before after
  unfolding setup_ready
  waited s before after k d dirs e chain more x has new =
      let ran = setup-mapped p x s.world d dirs chain (rw has at more) 0 in
      leave s _ before after _
        (then s _ (here s refl)
          (sets_up before after k _ x _ _ _ false false true e new (current has refl) ran refl))
        refl (λ h. cc)

  -- What the end of a client needs if its session is still to be set up: a declared chain of the
  -- current theme, and a feedback for the application in the chain's first directory.
  abbrev pub CanSetup : Clients api → Connection api → Type 0
  CanSetup s c = elim c.state [
    | waiting_session ↦
        (d : Text) × (dirs : List Text) × IsChain p s.world.current_theme_name (d ∷ dirs)
        × Feeds p d c.session
    | _ ↦ Unit
  ]

  -- `killMe` by the state: with a session that is still to be set up, the timer; otherwise the
  -- deletion.
  abbrev pub timer_or_deletion : State → Connection api → Connection api
  timer_or_deletion waiting_session c = record c { kill_timer = true }
  timer_or_deletion client_setup c = record c { delete_later = true }
  timer_or_deletion playback c = record c { delete_later = true }
  timer_or_deletion terminated c = record c { delete_later = true }
  timer_or_deletion doomed c = record c { delete_later = true }

  kill_me-waits : (c : Connection api) → kill_me qt api c ≡ timer_or_deletion c.state c
  unfolding kill_me
  kill_me-waits c = from c.state refl
    where
      from : (st : State) → c.state ≡ st → kill_me qt api c ≡ timer_or_deletion c.state c
      from waiting_session e = rw e refl
      from client_setup e = rw e refl
      from playback e = rw e refl
      from terminated e = rw e refl
      from doomed e = rw e refl

  -- From every state that the daemon reaches, each client can come to its end: there are events after
  -- which it is gone and the other clients are those that were there. This needs, if its session is
  -- still to be set up, a declared chain of the current theme, and a feedback for the application in
  -- the chain's first directory. killMe deletes the client, but as long as its session is still to be
  -- set up, it only starts the timer that calls killMe again.
  pub Reach-leaves :
      (s : Clients api) (before after : List (Client api)) (k : Client api)
      → Reach qt api p s
      → s.clients ≡ before ++ k ∷ after
      → CanSetup s k.connection
      → ((t : Clients api) × Run s t × (t.clients ≡ before ++ after))
        × (kill_me qt api k.connection ≡ timer_or_deletion k.connection.state k.connection)
  Reach-leaves s before after k r e can = (left, kill_me-waits k.connection)
    where
      from :
          (st : State) (o : Option Session)
          → k.connection.state ≡ st
          → k.connection.session ≡ o
          → Awaits k.connection.state k.connection.session
          → Left s before after
      from waiting_session none is has v = absurd (rw (is, has) at v)
      from waiting_session (some x) is has v =
          let (d, dirs, chain, feeds) = rw is at can in
          waited s before after k d dirs e chain feeds x has (rw (is, has) at v)
      from client_setup o is has v = leave s s before after k (here s refl) e (λ h. cc)
      from playback o is has v = leave s s before after k (here s refl) e (λ h. cc)
      from terminated o is has v = leave s s before after k (here s refl) e (λ h. cc)
      from doomed o is has v = leave s s before after k (here s refl) e (λ h. cc)

      left : Left s before after
      left =
          from k.connection.state k.connection.session refl refl
            ((All-middle qt api (Well qt api) before after k (rw e at (Reach-Well qt api p s r))).0
              ).awaits
