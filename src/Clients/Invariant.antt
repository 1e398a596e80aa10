-- ===== src/Clients/Invariant.antt =====
-- What holds of each client between two events of the daemon.
use touch_feedback.Base.{
  ℕ, ◌≡◌, refl, ◌∙◌, inl, inr, ◌⊎◌, true, false, Option, none, some, List, [], Option-cases, ◌∷◌,
  ◌++◌, arith, map, All, All-append,
}
use touch_feedback.Base.Text.{Text, Qt}
use touch_feedback.Session.{Session, new_session}
use touch_feedback.Session.Knowing.{Knows, Passes}
use touch_feedback.Connection.{
  State, client_setup, waiting_session, playback, terminated, doomed, SocketApi, Connection,
  setup_ready,
}
use touch_feedback.Clients.{
  Child, Client, Request, names_of, stamp, replaced, after_read, after_setup, Replaces, current,
  earlier, Delivers,
}
use touch_feedback.Clients.Reading.{Known, ReadEnds}

-- The setup that a connection waits for is still to come, and requests are read for a session.
abbrev pub Awaits : State → Option Session → Type 0
Awaits waiting_session (some x) = x.setup_finished ≡ false
Awaits waiting_session none = ⊥
Awaits playback none = ⊥
Awaits _ _ = Unit {0}

abbrev pub Asks : Option Session → List Request → Type 0
Asks o requests = All (λ (r : Request). Known o r.0) requests

-- A connection that has had a session has one.
abbrev pub Follows : List Child → Option Session → Type 0
Follows (c ∷ left) none = ⊥
Follows _ _ = Unit {0}

abbrev pub ChildAsks : Child → Type 0
ChildAsks c = Asks (some c.session) c.requests

module _ (qt : Qt) (api : SocketApi) where
  pub record Well (k : Client api) : Type 0 where
    pub awaits : Awaits k.connection.state k.connection.session
    pub follows : Follows k.left k.connection.session
    pub asks : Asks k.connection.session k.requests
    pub left : All ChildAsks k.left

  Asks-Passes :
      (x y : Session) (requests : List Request)
      → Passes x y
      → Asks (some x) requests
      → Asks (some y) requests
  Asks-Passes x y [] passes v = tt
  Asks-Passes x y (r ∷ requests) passes v = (passes r.0 v.0, Asks-Passes x y requests passes v.1)

  Follows-some : (left : List Child) (x : Session) → Follows left (some x)
  Follows-some left x = ground arith

  -- Where there was an earlier session, there is a session.
  Follows-middle :
      (before after : List Child) (c : Child) (o : Option Session)
      → Follows (before ++ c ∷ after) o
      → (x : Session) × (o ≡ some x)
  Follows-middle before after c (some x) v = (x, refl)
  Follows-middle [] after c none v = absurd v
  Follows-middle (b ∷ before) after c none v = absurd v

  Awaits-some :
      (st : State) (x y : Session)
      → y.setup_finished ≡ x.setup_finished
      → Awaits st (some x)
      → Awaits st (some y)
  Awaits-some waiting_session x y fin v = fin ∙ v
  Awaits-some client_setup x y fin v = tt
  Awaits-some playback x y fin v = tt
  Awaits-some terminated x y fin v = tt
  Awaits-some doomed x y fin v = tt

  Asks-stamp :
      (o : Option Session) (asked : List (Text × ℕ × ℕ))
      → All (Known o) (names_of api asked)
      → Asks o (map (stamp api) asked)
  Asks-stamp o [] v = tt
  Asks-stamp o (a ∷ asked) v = (v.0, Asks-stamp o asked v.1)

  -- One client, and one session of a client, in the middle of others.
  pub All-middle {ℓ} :
      {A : Type ℓ}
      → (P : A → Type 0) (before after : List A) (a : A) → All P (before ++ a ∷ after)
      → P a × All P (before ++ after)
  All-middle P [] after a v = v
  All-middle P (b ∷ before) after a v =
      let rest = All-middle P before after a v.1 in (rest.0, (v.0, rest.1))

  pub All-put {ℓ} :
      {A : Type ℓ}
      → (P : A → Type 0) (before after : List A) (a : A) → P a
      → All P (before ++ after)
      → All P (before ++ a ∷ after)
  All-put P [] after a x v = (x, v)
  All-put P (b ∷ before) after a x v = (v.0, All-put P before after a x v.1)

  replaced-left : (k : Client api) → Well k → All ChildAsks (replaced api k)
  replaced-left k v = elim (Option-cases k.connection.session) [
    | inl gone ↦ rw gone tt
    | inr (x, there) ↦ rw there (rw there at (v.asks), tt)
  ]

  pub read-Well :
      (k : Client api) (d : Connection api) (asked : List (Text × ℕ × ℕ))
      → ReadEnds qt api k.connection d (names_of api asked)
      → Well k
      → Well (after_read api k d asked)
  unfolding after_read new_session
  read-Well k d asked (inl (new, st, has, none_asked)) v =
      rw (after_read, new)
        (record {
          awaits = rw (st, has) refl;
          follows = rw has (Follows-some (k.left ++ replaced api k) (new_session d.client_name));
          asks = tt;
          left = All-append ChildAsks k.left (replaced api k) v.left (replaced-left k v);
        })
  read-Well k d asked (inr (old, has, st, known)) v =
      rw (after_read, old)
        (record {
          awaits = rw has (ended st);
          follows = rw has (v.follows);
          asks = rw has (
              All-append (λ (r : Request). Known k.connection.session r.0) k.requests _ v.asks
                (Asks-stamp k.connection.session asked known));
          left = v.left;
        })
    where
      ended :
          ((d.state ≡ k.connection.state) ⊎ ((d.state ≡ terminated) ⊎ (d.state ≡ doomed)))
          → Awaits d.state k.connection.session
      ended (inl same) = rw same (v.awaits)
      ended (inr (inl closed)) = rw closed tt
      ended (inr (inr refused)) = rw refused tt

  pub changes-Well :
      (k l : Client api) (x y : Session)
      → Replaces api k l x y
      → Passes x y
      → Well k
      → ((y.setup_finished ≡ x.setup_finished) → Well l) × Well (after_setup api qt true l)
  unfolding setup_ready
  changes-Well k l x y (current e f) passes v =
      let asks = Asks-Passes x y k.requests passes (rw e at (v.asks)) in
      (
        λ fin. rw f (record {
          awaits = Awaits-some k.connection.state x y fin (rw e at (v.awaits));
          follows = Follows-some k.left y;
          asks = asks;
          left = v.left;
        }),
        rw f (record { awaits = tt; follows = Follows-some k.left y; asks = asks; left = v.left }),
      )
  changes-Well k l x y (earlier before after requests e f) passes v =
      let (own, others) = All-middle ChildAsks before after _ (rw e at (v.left)) in
      let (z, has) = Follows-middle before after _ k.connection.session (rw e at (v.follows)) in
      let left =
        All-put ChildAsks before after (record { session = y; requests = requests })
          (Asks-Passes x y requests passes own) others in
      (
        λ fin. rw f (record {
          awaits = v.awaits;
          follows = rw has (Follows-some _ z);
          asks = v.asks;
          left = left;
        }),
        rw f (record {
          awaits = rw has tt;
          follows = rw has (Follows-some _ z);
          asks = v.asks;
          left = left;
        }),
      )

  pub takes-Well :
      (k l : Client api) (x : Session) (r : Request)
      → Delivers api k l x r
      → Well k
      → Well l × Knows x r.0
  takes-Well k l x r (current requests e g f) v = (
    rw f (record {
      awaits = v.awaits;
      follows = v.follows;
      asks = (rw g at (v.asks)).1;
      left = v.left;
    }),
    rw e at ((rw g at (v.asks)).0),
  )
  takes-Well k l x r (earlier before after requests e f) v =
      let (own, others) = All-middle ChildAsks before after _ (rw e at (v.left)) in
      let (z, has) = Follows-middle before after _ k.connection.session (rw e at (v.follows)) in
      (
        rw f (record {
          awaits = v.awaits;
          follows = rw has (Follows-some _ z);
          asks = v.asks;
          left =
              All-put ChildAsks before after (record { session = x; requests = requests }) own.1
                others;
        }),
        own.0,
      )
