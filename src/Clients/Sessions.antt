-- ===== src/Clients/Sessions.antt =====
-- The sessions of all clients, where one client or one session is singled out.
use touch_feedback.Base.{
  ◌≡◌, refl, ◌∙◌, sym, ap, Bool, true, false, List, [], ◌∷◌, ◌++◌, arith, append_assoc,
}
use touch_feedback.Base.Text.{Qt}
use touch_feedback.Session.{Session}
use touch_feedback.Connection.{SocketApi, setup_ready}
use touch_feedback.Clients.{
  Child, Client, Request, option_list, left_sessions, sessions_of, all_sessions, replaced,
  after_setup, Replaces, current, earlier, Delivers,
}

module _ (api : SocketApi) where
  pub left_sessions-append :
      (left more : List Child)
      → left_sessions api (left ++ more) ≡ left_sessions api left ++ left_sessions api more
  left_sessions-append [] more = refl
  left_sessions-append (l ∷ left) more = ap (◌∷◌ l.session) (left_sessions-append left more)

  pub all_sessions-append :
      (clients more : List (Client api))
      → all_sessions api (clients ++ more) ≡ all_sessions api clients ++ all_sessions api more
  all_sessions-append [] more = refl
  all_sessions-append (k ∷ clients) more =
      ap (◌++◌ (sessions_of api k)) (all_sessions-append clients more)
      ∙ sym (append_assoc (sessions_of api k) (all_sessions api clients) (all_sessions api more))

  place :
      (b u v a : List Session) (x : Session) → b ++ ((u ++ x ∷ v) ++ a) ≡ (b ++ u) ++ x ∷ (v ++ a)
  place b u v a x = ap (◌++◌ b) (append_assoc u (x ∷ v) a) ∙ sym (append_assoc b u (x ∷ (v ++ a)))

  -- A session of a client in the middle.
  pub middle :
      (before after : List (Client api)) (k : Client api) (u v : List Session) (x : Session)
      → sessions_of api k ≡ u ++ x ∷ v
      → all_sessions api (before ++ k ∷ after)
        ≡ (all_sessions api before ++ u) ++ x ∷ (v ++ all_sessions api after)
  middle before after k u v x e =
      all_sessions-append before (k ∷ after)
      ∙ ap (λ (l : List Session). all_sessions api before ++ (l ++ all_sessions api after)) e
      ∙ place (all_sessions api before) u v (all_sessions api after) x

  split_left :
      (before after : List Child) (c : Child) (o : List Session)
      → left_sessions api (before ++ c ∷ after) ++ o
        ≡ left_sessions api before ++ c.session ∷ (left_sessions api after ++ o)
  split_left before after c o =
      ap (λ (l : List Session). l ++ o) (left_sessions-append before (c ∷ after))
      ∙ append_assoc (left_sessions api before) (c.session ∷ left_sessions api after) o

  pub changes_lem :
      (k l : Client api) (x y : Session)
      → Replaces api k l x y
      → (u v : List Session) × (sessions_of api k ≡ u ++ x ∷ v) × (sessions_of api l ≡ u ++ y ∷ v)
  changes_lem k l x y (current e f) = (left_sessions api k.left, [], rw e refl, rw f refl)
  changes_lem k l x y (earlier before after requests e f) =
      let o = option_list api k.connection.session in
      (
        left_sessions api before,
        left_sessions api after ++ o,
        ap (λ (c : List Child). left_sessions api c ++ o) e ∙ split_left before after _ o,
        ap (sessions_of api) f ∙ split_left before after _ o,
      )

  pub takes_lem :
      (k l : Client api) (x : Session) (r : Request)
      → Delivers api k l x r
      → (sessions_of api l ≡ sessions_of api k)
        × ((u v : List Session) × (sessions_of api k ≡ u ++ x ∷ v))
  takes_lem k l x r (current requests e g f) =
      (rw f refl, (left_sessions api k.left, [], rw e refl))
  takes_lem k l x r (earlier before after requests e f) =
      let o = option_list api k.connection.session in
      let split =
        ap (λ (c : List Child). left_sessions api c ++ o) e ∙ split_left before after _ o in
      (
        ap (sessions_of api) f ∙ split_left before after _ o ∙ sym split,
        (left_sessions api before, left_sessions api after ++ o, split),
      )

  -- A client whose sessions are those of another takes its place.
  pub same_sessions :
      (before after : List (Client api)) (k l : Client api)
      → sessions_of api l ≡ sessions_of api k
      → all_sessions api (before ++ l ∷ after) ≡ all_sessions api (before ++ k ∷ after)
  same_sessions before after k l e =
      all_sessions-append before (l ∷ after)
      ∙ ap (λ (m : List Session). all_sessions api before ++ (m ++ all_sessions api after)) e
      ∙ sym (all_sessions-append before (k ∷ after))

  pub after_setup_lem :
      (qt : Qt) (ready : Bool) (k : Client api)
      → sessions_of api (after_setup api qt ready k) ≡ sessions_of api k
  unfolding setup_ready
  after_setup_lem qt true k = refl
  after_setup_lem qt false k = refl

  pub replaced_lem :
      (k : Client api) → left_sessions api (replaced api k) ≡ option_list api k.connection.session
  replaced_lem k = ground arith
