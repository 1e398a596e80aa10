-- ===== src/Clients/Moves.antt =====
-- What the events of a connection are in src/lib: a session joins, or the sessions of a client end.
use touch_feedback.Base.{
  ℕ, ◌≡◌, refl, ◌∙◌, sym, ap, subst, inl, inr, Option, List, [], ◌∷◌, ◌++◌, append-nil,
  append_assoc,
}
use touch_feedback.Base.Text.{Text, Qt}
use touch_feedback.World.{Platform, World}
use touch_feedback.Session.{Session, new_session}
use touch_feedback.Connection.{SocketApi, Connection, new_connection}
use touch_feedback.System
use touch_feedback.System.Ending.{end_sessions, end_sessions-Reach}
use touch_feedback.Clients.{
  Client, Clients, option_list, left_sessions, sessions_of, all_sessions, replaced, after_read,
  names_of, on_new_connection,
}
use touch_feedback.Clients.Sessions.{
  all_sessions-append, middle, same_sessions, replaced_lem, left_sessions-append,
}
use touch_feedback.Clients.Reading.{ReadEnds, Created, new_connection_cases}

-- The sessions of all clients over the manager.
abbrev pub system : (api : SocketApi) → Clients api → System.System
system api s = record { world = s.world; sessions = all_sessions api s.clients }

module _ (qt : Qt) (api : SocketApi) (p : Platform) where
  -- With the list of sessions written in another way.
  pub listed :
      (w : World) (l m : List Session)
      → l ≡ m
      → System.Reach p (record { world = w; sessions = l })
      → System.Reach p (record { world = w; sessions = m })
  listed w l m e r =
      subst (λ (l : List Session). System.Reach p (record { world = w; sessions = l })) e r

  joined :
      (s : Clients api) (c : Connection api)
      → Created qt api c.session
      → System.Reach p (system api s)
      → System.Reach p (
          system api (record s {
            clients = s.clients ++ record { connection = c; requests = []; left = [] } ∷ [];
          }))
  joined s c (inl e) r =
      listed s.world (all_sessions api s.clients) _
        (sym (
          all_sessions-append api s.clients _
          ∙ ap (λ (o : Option Session). all_sessions api s.clients ++ (option_list api o ++ [])) e
          ∙ append-nil (all_sessions api s.clients)))
        r
  joined s c (inr (name, e)) r =
      let l = all_sessions api s.clients in
      listed s.world (l ++ new_session name ∷ []) _
        (sym (
          all_sessions-append api s.clients _
          ∙ ap (λ (o : Option Session). l ++ (option_list api o ++ [])) e))
        (System.next (system api s)
          (record { world = s.world; sessions = l ++ new_session name ∷ [] }) r
          (System.connects l [] name (sym (append-nil l)) refl))

  pub arrived :
      (s : Clients api) (socket : api.Socket)
      → System.Reach p (system api s)
      → System.Reach p
          (system api (record s { clients = on_new_connection qt api socket s.clients }))
  unfolding on_new_connection
  arrived s socket r =
      joined s (new_connection qt api socket) (new_connection_cases qt api socket) r

  -- The session of a connection is a child of the connection.
  abbrev put : Clients api → List (Client api) → Client api → List (Client api) → Clients api
  put s before l after = record s { clients = before ++ l ∷ after }

  pub kept :
      (s : Clients api) (before after : List (Client api)) (k l : Client api)
      → s.clients ≡ before ++ k ∷ after
      → sessions_of api l ≡ sessions_of api k
      → System.Reach p (system api s)
      → System.Reach p (system api (put s before l after))
  kept s before after k l e same r =
      listed s.world (all_sessions api s.clients) _
        (ap (all_sessions api) e ∙ sym (same_sessions api before after k l same)) r

  grown :
      (s : Clients api) (before after : List (Client api)) (k l : Client api) (name : Text)
      → s.clients ≡ before ++ k ∷ after
      → sessions_of api l ≡ sessions_of api k ++ new_session name ∷ []
      → System.Reach p (system api s)
      → System.Reach p (system api (put s before l after))
  grown s before after k l name e more r =
      let b = all_sessions api before ++ sessions_of api k in
      let a = all_sessions api after in
      listed s.world (b ++ new_session name ∷ a) _
        (sym (middle api before after l (sessions_of api k) [] (new_session name) more))
        (System.next (system api s)
          (record { world = s.world; sessions = b ++ new_session name ∷ a }) r
          (System.connects b a name
            (ap (all_sessions api) e
              ∙ all_sessions-append api before (k ∷ after)
              ∙ sym (append_assoc (all_sessions api before) (sessions_of api k) a))
            refl))

  pub read_lem :
      (s : Clients api) (before after : List (Client api)) (k : Client api) (d : Connection api)
      (asked : List (Text × ℕ × ℕ))
      → s.clients ≡ before ++ k ∷ after
      → ReadEnds qt api k.connection d (names_of api asked)
      → System.Reach p (system api s)
      → System.Reach p (system api (put s before (after_read api k d asked) after))
  unfolding after_read
  read_lem s before after k d asked e (inl (new, st, has, none_asked)) r =
      grown s before after k (after_read api k d asked) d.client_name e
        (rw (new, has)
          (ap (λ (l : List Session). l ++ new_session d.client_name ∷ [])
            (left_sessions-append api k.left (replaced api k)
              ∙ ap (◌++◌ (left_sessions api k.left)) (replaced_lem api k))))
        r
  read_lem s before after k d asked e (inr (old, has, st, known)) r =
      kept s before after k (after_read api k d asked) e (rw (old, has) refl) r

  pub deleted_lem :
      (s : Clients api) (before after : List (Client api)) (k : Client api)
      → s.clients ≡ before ++ k ∷ after
      → System.Reach p (system api s)
      → System.Reach p (
          system api (record {
            world = end_sessions p (sessions_of api k) s.world;
            clients = before ++ after;
          }))
  deleted_lem s before after k e r =
      listed _ (all_sessions api before ++ all_sessions api after) _
        (sym (all_sessions-append api before after))
        (end_sessions-Reach p (all_sessions api before) (sessions_of api k) (all_sessions api after)
          s.world
          (listed s.world (all_sessions api s.clients) _
            (ap (all_sessions api) e ∙ all_sessions-append api before (k ∷ after)) r))
