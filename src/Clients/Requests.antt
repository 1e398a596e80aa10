-- ===== src/Clients/Requests.antt =====
-- What becomes of the requests of the daemon's clients.
use touch_feedback.Base.{
  ℕ, ◌≡◌, refl, ◌∙◌, ap, true, Option, none, some, List, ◌∷◌, ◌++◌, arith, if◌then◌else◌,
}
use touch_feedback.Base.Int.{ℤ, pos}
use touch_feedback.Base.Text.{Text, Qt}
use touch_feedback.Base.Dict.{lookup, is_some}
use touch_feedback.Backend.Ledger.{IsTidy}
use touch_feedback.World.{Platform, World, backend_state}
use touch_feedback.Feedback.{Feedback, too_late}
use touch_feedback.Feedback.Playing.{played, volume_of}
use touch_feedback.Session.{Session}
use touch_feedback.Connection.{State, SocketApi, Connection}
use touch_feedback.Connection.States.{
  Consumes, Closes, HasSession, Ends, read_all_data, read_socket_data-Sound,
}
use touch_feedback.System.Outcomes.{Reach-played}
use touch_feedback.Clients.{Client, Clients, all_sessions, Delivers, Step, plays, Reach}
use touch_feedback.Clients.Reading.{ReadEnds, read_cases}
use touch_feedback.Clients.Sessions.{middle, takes_lem}
use touch_feedback.Clients.Moves.{system}
use touch_feedback.Clients.Refines.{Reach-system}
use touch_feedback.Clients.Invariant.{Awaits, Well, All-middle, takes-Well}
use touch_feedback.Clients.Steps.{Reach-Well}

-- The priorities of a session's feedbacks are not negative.
abbrev pub NonNegative : Session → Type 0
NonNegative x =
    (name : Text) (f : Feedback)
    → lookup name x.feedback_hash ≡ some f
    → (n : ℕ) × (f.feedback_volume_priority ≡ pos n)

module _ (qt : Qt) (api : SocketApi) (p : Platform) where
  Awaits-HasSession : (st : State) (o : Option Session) → Awaits st o → HasSession st o
  Awaits-HasSession st o v = ground arith

  ends_lem :
      (r : Option (Option (Connection api × List Text))) (P : Connection api → Type 0)
      → Ends qt api r P
      → (d : Connection api) × (names : List Text) × (r ≡ some (some (d, names)))
  ends_lem none P v = absurd v
  ends_lem (some none) P v = absurd v
  ends_lem (some (some (d, names))) P v = (d, names, refl)

  -- In every state that the daemon reaches, data of any client can be read: the read ends, and either
  -- it creates a session for the client's name, and nothing is asked to play, or the session stays,
  -- and each feedback that is asked to play is one of the session. A read takes something off the
  -- socket, and closing a socket does not fill it.
  pub Reach-reads :
      Consumes api
      → Closes api
      → (s : Clients api) (before after : List (Client api)) (k : Client api) → Reach qt api p s
      → s.clients ≡ before ++ k ∷ after
      → (d : Connection api) × (names : List Text) × (read_all_data qt api k.connection
          ≡ some (some (d, names)))
        × ReadEnds qt api k.connection d names
  Reach-reads consumes closes s before after k r e =
      let c = k.connection in
      let own =
        (All-middle qt api (Well qt api) before after k (rw e at (Reach-Well qt api p s r))).0 in
      let (d, names, ends) = ends_lem (read_all_data qt api c) _ (
        read_socket_data-Sound qt api consumes closes _ c
          (Awaits-HasSession c.state c.session own.awaits) (omega arith)) in
      (d, names, ends, read_cases qt api _ c d names ends)

  -- In every state that the daemon reaches, a request that waits for a session can be delivered: its
  -- feedback is still there, and `play` plays the slots whose handle is ready, without a fault, unless
  -- it is too late. The priorities of the session's feedbacks must not be negative, and a plugin must
  -- hand out nothing when a load fails.
  pub Reach-plays :
      IsTidy p.plugin
      → (s : Clients api) (before after : List (Client api)) (k l : Client api) (x : Session)
        (name : Text) (timestamp limit now : ℤ)
      → Reach qt api p s
      → s.clients ≡ before ++ k ∷ after
      → Delivers api k l x (name, timestamp)
      → NonNegative x
      → (f : Feedback) × (n : ℕ) × (w : World) × (lookup name x.feedback_hash ≡ some f)
        × (f.feedback_volume_priority ≡ pos n)
        × (w ≡ (
            if too_late limit now timestamp then s.world else record s.world {
              calls =
                  played s.world.object
                    (backend_state s.world)
                    (volume_of p n s.world)
                    0
                    f.feedback_handles
                    s.world.calls;
            }))
        × Step qt api p s (record { world = w; clients = before ++ l ∷ after })
  Reach-plays tidy s before after k l x name timestamp limit now r e t priorities =
      let own =
        (All-middle qt api (Well qt api) before after k (rw e at (Reach-Well qt api p s r))).0 in
      let (f, at) =
        found (lookup name x.feedback_hash) (takes-Well qt api k l x (name, timestamp) t own).1 in
      let (n, priority) = priorities name f at in
      let (same, (u, v, from_k)) = takes_lem api k l x (name, timestamp) t in
      let ran =
        Reach-played p tidy (system api s) (all_sessions api before ++ u)
          (v ++ all_sessions api after) x name f n limit now timestamp (Reach-system qt api p s r)
          (ap (all_sessions api) e ∙ middle api before after k u v x from_k) at priority in
      (
        f,
        n,
        _,
        at,
        priority,
        refl,
        plays before after k l x name timestamp limit now f _ e t at ran refl,
      )
    where
      found : (o : Option Feedback) → is_some o ≡ true → (f : Feedback) × (o ≡ some f)
      found none h = cc
      found (some f) h = (f, refl)
