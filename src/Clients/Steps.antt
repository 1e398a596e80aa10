-- ===== src/Clients/Steps.antt =====
-- The invariant of the clients, over each kind of event.
use touch_feedback.Base.{
  ◌≡◌, refl, sym, ap, inl, inr, ◌⊎◌, Bool, true, false, List, [], ◌∷◌, ◌++◌, ltb, All, All-append,
  if◌then◌else◌,
}
use touch_feedback.Base.Text.{Text, Qt}
use touch_feedback.World.{Platform}
use touch_feedback.Session.{Session, new_session}
use touch_feedback.Session.Knowing.{Knows, setup-Passes, theme_changed-Passes}
use touch_feedback.Connection.{client_setup, SocketApi, Connection, new_connection, setup}
use touch_feedback.Clients.{
  Client, Clients, after_setup, Replaces, on_new_connection, ConnectionStep, Step, arrives,
  connection_changes, reads, sets_up, changes_theme, plays, deleted, manages, Reach, start, next,
}
use touch_feedback.Clients.Reading.{read_cases, setup_cases}
use touch_feedback.Clients.Refines.{alone_lem}
use touch_feedback.Clients.Invariant.{
  Awaits, Well, All-middle, All-put, read-Well, changes-Well, takes-Well,
}

module _ (qt : Qt) (api : SocketApi) (p : Platform) where
  fresh-Awaits :
      (b : Bool) (c : Connection api)
      → c.state ≡ client_setup
      → let d = if b then setup qt api c else c in Awaits d.state d.session
  unfolding new_session
  fresh-Awaits false c e = rw e tt
  fresh-Awaits true c e = elim (setup_cases qt api c) [
    | inl (waits, has) ↦ rw (waits, has) refl
    | inr (refused, has) ↦ rw refused tt
  ]

  arrived-Well :
      (socket : api.Socket)
      → Well qt api (record { connection = new_connection qt api socket; requests = []; left = [] })
  unfolding new_connection
  arrived-Well socket = record {
    awaits = fresh-Awaits (ltb 0 (api.bytes_available socket)) _ refl;
    follows = tt;
    asks = tt;
    left = tt;
  }

  alone-Well :
      (k : Client api) (d : Connection api)
      → ConnectionStep qt api k.connection d
      → Well qt api k
      → Well qt api (record k { connection = d })
  alone-Well k d alone v =
      let same = alone_lem qt api p k.connection d alone in
      record {
        awaits = rw (same.0, same.1) (v.awaits);
        follows = rw (same.1) (v.follows);
        asks = rw (same.1) (v.asks);
        left = v.left;
      }

  abbrev AllWell : List (Client api) → Type 0
  AllWell clients = All (Well qt api) clients

  put-Well :
      (s : Clients api) (before after : List (Client api)) (k l : Client api)
      → s.clients ≡ before ++ k ∷ after
      → (Well qt api k → Well qt api l)
      → AllWell s.clients
      → AllWell (before ++ l ∷ after)
  put-Well s before after k l e keeps v =
      let (own, others) = All-middle qt api (Well qt api) before after k (rw e at v) in
      All-put qt api (Well qt api) before after l (keeps own) others

  setup-Well :
      (k l : Client api) (x y : Session) (ready : Bool)
      → Replaces api k l x y
      → ((name : Text) → Knows x name → Knows y name) × ((ready ≡ true) ⊎ (x ≡ y))
      → Well qt api k
      → Well qt api (after_setup api qt ready l)
  setup-Well k l x y true ch (passes, c) v = (changes-Well qt api k l x y ch passes v).1
  setup-Well k l x y false ch (passes, inl e) v = cc
  setup-Well k l x y false ch (passes, inr e) v =
      (changes-Well qt api k l x y ch passes v).0 (ap (λ (z : Session). z.setup_finished) (sym e))

  Step-Well : (s t : Clients api) → Step qt api p s t → AllWell s.clients → AllWell t.clients
  unfolding on_new_connection
  Step-Well s t (arrives socket f) v =
      rw f (All-append (Well qt api) s.clients _ v (arrived-Well socket, tt))
  Step-Well s t (connection_changes before after k d e alone f) v =
      rw f (put-Well s before after k _ e (alone-Well k d alone) v)
  Step-Well s t (reads before after k d asked e h f) v = rw f (
      put-Well s before after k _ e
        (read-Well qt api k d asked (read_cases qt api _ k.connection d _ h)) v)
  Step-Well s t (sets_up before after k l x y w fuel busy flag ready e new ch h f) v = rw f (
      put-Well s before after k _ e
        (setup-Well k l x y ready ch (setup-Passes p fuel busy flag ready x y s.world w h)) v)
  Step-Well s t (changes_theme before after k l x y w fuel theme e ch h f) v =
      let (passes, fin) = theme_changed-Passes p fuel theme x y s.world w h in
      rw f
        (put-Well s before after k l e (λ own. (changes-Well qt api k l x y ch passes own).0 fin) v)
  Step-Well s t (plays before after k l x name timestamp limit now g w e takes at h f) v = rw f (
      put-Well s before after k l e (λ own. (takes-Well qt api k l x (name, timestamp) takes own).0)
        v)
  Step-Well s t (deleted before after k e gone f) v =
      rw f ((All-middle qt api (Well qt api) before after k (rw e at v)).1)
  Step-Well s t (manages u m f) v = rw f v

  pub Reach-Well : (s : Clients api) → Reach qt api p s → AllWell s.clients
  Reach-Well s (start w v) = tt
  Reach-Well t (next s _ r st) = Step-Well s t st (Reach-Well s r)
