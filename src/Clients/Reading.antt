-- ===== src/Clients/Reading.antt =====
-- What a call of `readSocketData` does to the sessions and requests of a client.
use touch_feedback.Base.{
  ℕ, zero, suc, ◌≡◌, refl, ◌∙◌, inl, inr, ◌⊎◌, Bool, true, false, Bool-cases, Option, none, some,
  List, [], arith, ltb, All, subst, if◌then◌else◌,
}
use touch_feedback.Base.Text.{Text, Qt}
use touch_feedback.Session.{Session, new_session}
use touch_feedback.Session.Knowing.{Knows}
use touch_feedback.Connection.{
  State, client_setup, waiting_session, playback, terminated, doomed, SocketApi, Connection, setup,
  emit_play, fetch_playback_request, fetch_loop, read_socket_data, new_connection,
}
use touch_feedback.Clients.{creates}

-- The session has a feedback of the name.
abbrev pub Known : Option Session → Text → Type 0
Known none name = ⊥
Known (some x) name = Knows x name

module _ (qt : Qt) (api : SocketApi) where
  abbrev pub SetUpCases : Connection api → Connection api → Type 0
  SetUpCases c d =
      ((d.state ≡ waiting_session) × (d.session ≡ some (new_session d.client_name)))
      ⊎ ((d.state ≡ doomed) × (d.session ≡ c.session))

  pub setup_cases : (c : Connection api) → SetUpCases c (setup qt api c)
  unfolding setup
  setup_cases c = ground arith

  abbrev pub Created : Option Session → Type 0
  Created o = (o ≡ none) ⊎ ((name : Text) × (o ≡ some (new_session name)))

  created_lem :
      (b : Bool) (c : Connection api)
      → c.session ≡ none
      → Created ((if b then setup qt api c else c).session)
  created_lem false c e = inl e
  created_lem true c e = elim (setup_cases c) [
    | inl (st, new) ↦ inr ((setup qt api c).client_name, new)
    | inr (st, old) ↦ inl (old ∙ e)
  ]

  pub new_connection_cases : (s : api.Socket) → Created ((new_connection qt api s).session)
  unfolding new_connection
  new_connection_cases s = created_lem (ltb 0 (api.bytes_available s)) _ refl

  abbrev AllOf : Option Text → (Text → Type 0) → Type 0
  AllOf none P = Unit {0}
  AllOf (some name) P = P name

  abbrev Fetched : Connection api → Option (Connection api × Option Text) → Type 0
  Fetched c none = Unit {0}
  Fetched c (some (d, o)) =
      (d.session ≡ c.session)
      × ((d.state ≡ c.state) ⊎ (d.state ≡ terminated))
      × AllOf o (Known c.session)

  fetch_cases : (c : Connection api) → Fetched c (fetch_playback_request qt api c)
  unfolding fetch_playback_request
  fetch_cases c = ground arith

  abbrev Looped : Connection api → Option (Option (Connection api × List Text)) → Type 0
  Looped c none = Unit {0}
  Looped c (some none) = Unit {0}
  Looped c (some (some (d, names))) =
      (d.session ≡ c.session)
      × ((d.state ≡ c.state) ⊎ (d.state ≡ terminated))
      × All (Known c.session) names

  state_lem :
      (c d e : Connection api)
      → ((d.state ≡ c.state) ⊎ (d.state ≡ terminated))
      → ((e.state ≡ d.state) ⊎ (e.state ≡ terminated))
      → ((e.state ≡ c.state) ⊎ (e.state ≡ terminated))
  state_lem c d e (inl x) (inl y) = inl (y ∙ x)
  state_lem c d e (inr x) (inl y) = inr (y ∙ x)
  state_lem c d e x (inr y) = inr y

  after :
      (c d : Connection api) (o : Option Text) (r : Option (Option (Connection api × List Text)))
      → Fetched c (some (d, o))
      → Looped d r
      → Looped c (elim r [
        | none ↦ none
        | some none ↦ some none
        | some (some (e, names)) ↦ some (some (e, emit_play qt api o names))
      ])
  after c d o none f l = tt
  after c d o (some none) f l = tt
  after c d none (some (some (e, names))) f l = (
    l.0 ∙ f.0,
    state_lem c d e f.1 l.1,
    subst (λ (o : Option Session). All (Known o) names) f.0 l.2,
  )
  after c d (some name) (some (some (e, names))) f l = (
    l.0 ∙ f.0,
    state_lem c d e f.1 l.1,
    (f.2, subst (λ (o : Option Session). All (Known o) names) f.0 l.2),
  )

  fetch_loop_cases : (fuel : ℕ) (c : Connection api) → Looped c (fetch_loop qt api fuel c)
  unfolding fetch_loop
  fetch_loop_cases zero c = tt
  fetch_loop_cases (suc fuel) c = elim (Bool-cases (ltb 0 (api.bytes_available c.socket))) [
    | inl there ↦
        from (fetch_playback_request qt api c) refl there (fetch_cases c) (fetch_loop_cases fuel)
    | inr empty ↦ ground (arith, empty)
  ]
    where
      from :
          (r : Option (Connection api × Option Text))
          → fetch_playback_request qt api c ≡ r
          → ltb 0 (api.bytes_available c.socket) ≡ true
          → Fetched c r
          → ((d : Connection api) → Looped d (fetch_loop qt api fuel d))
          → Looped c (fetch_loop qt api (suc fuel) c)
      from none e there f ih = ground (arith, e, there)
      from (some (d, o)) e there f ih =
          rw (there, e, fetch_loop) (after c d o (fetch_loop qt api fuel d) f (ih d))

  -- Either a new session was created, and nothing is asked to play, or the session is the one that
  -- was there, and each name that is asked to play is one of its feedbacks.
  abbrev pub ReadEnds : Connection api → Connection api → List Text → Type 0
  ReadEnds c d names =
      ((creates api c.state d.state ≡ true)
        × (d.state ≡ waiting_session)
        × (d.session ≡ some (new_session d.client_name))
        × (names ≡ []))
      ⊎ ((creates api c.state d.state ≡ false)
          × (d.session ≡ c.session)
          × ((d.state ≡ c.state) ⊎ ((d.state ≡ terminated) ⊎ (d.state ≡ doomed)))
          × All (Known c.session) names)

  read_set_up :
      (c d : Connection api) (names : List Text)
      → creates api c.state waiting_session ≡ true
      → creates api c.state doomed ≡ false
      → ◌≡◌ {A = Option (Option (Connection api × List Text))}
          (some (some (setup qt api c, [])))
          (some (some (d, names)))
      → ReadEnds c d names
  read_set_up c d names new old h = ground (arith, setup_cases c, h)

  read_played :
      (c d : Connection api) (names : List Text) (r : Option (Option (Connection api × List Text)))
      → c.state ≡ playback
      → Looped c r
      → r ≡ some (some (d, names))
      → ReadEnds c d names
  read_played c d names none st l h = cc
  read_played c d names (some none) st l h = cc
  read_played c d names (some (some r)) st l h = ground (arith, st, l, h)

  pub read_cases :
      (fuel : ℕ) (c d : Connection api) (names : List Text)
      → read_socket_data qt api fuel c ≡ some (some (d, names))
      → ReadEnds c d names
  unfolding read_socket_data
  read_cases fuel c d names h = from c.state refl
    where
      from : (st : State) → c.state ≡ st → ReadEnds c d names
      from playback e =
          read_played c d names (fetch_loop qt api fuel c) e (fetch_loop_cases fuel c)
            (rw (read_socket_data, e) at h)
      from client_setup e =
          read_set_up c d names (rw e refl) (rw e refl) (rw (read_socket_data, e) at h)
      from terminated e =
          read_set_up c d names (rw e refl) (rw e refl) (rw (read_socket_data, e) at h)
      from doomed e = ground (arith, e, rw (read_socket_data, e) at h)
      from waiting_session e = ground (arith, e, rw (read_socket_data, e) at h)
