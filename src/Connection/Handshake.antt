-- ===== src/Connection/Handshake.antt =====
-- How `MfConnection::setup` reads the first message of a client.
use touch_feedback.Base.{
  arith, ◌∙◌, ◌≡◌, refl, ◌⊎◌, inl, inr, Bool, true, false, Option, none, some, ◌++◌, length, drop,
  ap, sym, zero, suc, Bool-cases,
}
use touch_feedback.Base.Int.{ℤ, pos, negsuc}
use touch_feedback.Base.Text.{Text, Qt, starts_with, starts_with-drop, drop-append}
use touch_feedback.Session.{new_session}
use touch_feedback.Connection.{
  waiting_session, doomed, version_1, unknown, SocketApi, Connection, is_version_1,
  protocol_version_prefix, setup, read_client,
}

module _ (qt : Qt) (api : SocketApi) where
  -- The connection that waits for the session of an application.
  abbrev pub accepted : Connection api → Text → api.Socket → Connection api
  accepted c name s = record c {
    socket = s;
    client_name = name;
    client_feedback_protocol_version = version_1;
    state = waiting_session;
    session = some (new_session name);
  }

  -- What can be read from a client whose first messages are in order: its name, and what is left of
  -- the socket. The name comes alone, or behind "FeedbackProtocolVersion#" with a text that reads as 1.
  pub data Greets (c : Connection api) (name : Text) (s : api.Socket) : Type 0 where
    named :
        api.read_string true c.socket ≡ (name, true, s)
        → starts_with name protocol_version_prefix ≡ false
        → Greets c name s
    versioned :
        (number : Text) (b : api.Socket)
        → api.read_string true c.socket ≡ (protocol_version_prefix ++ number, true, b)
        → qt.to_int number ≡ some (pos 1)
        → api.read_string true b ≡ (name, true, s)
        → Greets c name s

  -- A stream that has failed stays so.
  abbrev pub StaysFailed : Type 0
  StaysFailed = (s : api.Socket) → (api.read_string false s).1 ≡ false

  abbrev Answers : Connection api → Type 0
  Answers c =
      ((name : Text) × (s : api.Socket) × Greets c name s × (setup qt api c ≡ accepted c name s))
      ⊎ (((name : Text) (s : api.Socket) → ¬ Greets c name s)
          × ((setup qt api c).state ≡ doomed)
          × ((setup qt api c).session ≡ c.session))

  is_version_1_lem : (n : Option ℤ) → is_version_1 qt api n ≡ true → n ≡ some (pos 1)
  is_version_1_lem none h = cc
  is_version_1_lem (some (negsuc n)) h = cc
  is_version_1_lem (some (pos zero)) h = cc
  is_version_1_lem (some (pos (suc zero))) h = refl
  is_version_1_lem (some (pos (suc (suc n)))) h = cc

  module _ (c : Connection api) (text : Text) (b : api.Socket) where
    number : Text
    number = drop (length protocol_version_prefix) text

    -- The first read fails.
    failed_first : StaysFailed → api.read_string true c.socket ≡ (text, false, b) → Answers c
    unfolding setup read_client
    failed_first stays r =
        inr (λ name s. none_greets name s, ground (arith, r, stays b), ground (arith, r, stays b))
      where
        none_greets : (name : Text) (s : api.Socket) → ¬ Greets c name s
        none_greets name s (named r' old) = cc (r, r')
        none_greets name s (versioned n b' r' num r2) = cc (r, r')

    -- The version is another one.
    other_version :
        c.client_feedback_protocol_version ≡ unknown
        → api.read_string true c.socket ≡ (text, true, b)
        → starts_with text protocol_version_prefix ≡ true
        → is_version_1 qt api (qt.to_int number) ≡ false
        → Answers c
    unfolding setup read_client number
    other_version fresh r new other = inr (
      λ name s. none_greets name s,
      ground (arith, r, new, other, fresh),
      ground (arith, r, new, other, fresh),
    )
      where
        none_greets : (name : Text) (s : api.Socket) → ¬ Greets c name s
        none_greets name s (named r' old) = cc (r, r', new, old)
        none_greets name s (versioned n b' r' num r2) =
            cc (r, r', drop-append protocol_version_prefix n, num, other)

    -- The version is 1, and the name cannot be read.
    failed_second :
        (name : Text) (s : api.Socket)
        → api.read_string true c.socket ≡ (text, true, b)
        → starts_with text protocol_version_prefix ≡ true
        → is_version_1 qt api (qt.to_int number) ≡ true
        → api.read_string true b ≡ (name, false, s)
        → Answers c
    unfolding setup read_client number
    failed_second name s r new ok r2 = inr (
      λ name s. none_greets name s,
      ground (arith, r, new, ok, r2),
      ground (arith, r, new, ok, r2),
    )
      where
        none_greets : (name : Text) (s : api.Socket) → ¬ Greets c name s
        none_greets name' s' (named r' old) = cc (r, r', new, old)
        none_greets name' s' (versioned n b' r' num r2') = cc (r, r', r2, r2')

    greeted :
        (name : Text) (s : api.Socket)
        → api.read_string true c.socket ≡ (text, true, b)
        → starts_with text protocol_version_prefix ≡ true
        → is_version_1 qt api (qt.to_int number) ≡ true
        → api.read_string true b ≡ (name, true, s)
        → Answers c
    unfolding setup read_client number
    greeted name s r new ok r2 =
        let whole = starts_with-drop text protocol_version_prefix new in
        inl (
          name,
          s,
          versioned number b (r ∙ ap (λ (t : Text). (t, true, b)) (sym whole))
              (is_version_1_lem (qt.to_int number) ok) r2,
          rw (r, new, ok, r2) refl,
        )

  -- A connection of which no version is known yet is set up in one of two ways. If its client greets,
  -- with or without the version, a session is created for the name that it gives, and the connection
  -- waits for the session. Otherwise, be it that a read fails or that the version is another one,
  -- the connection is doomed, and no session is created. A stream that has failed is to stay so.
  pub setup-Answers :
      (c : Connection api)
      → StaysFailed
      → c.client_feedback_protocol_version ≡ unknown
      → ((name : Text) × (s : api.Socket) × Greets c name s × (setup qt api c ≡ accepted c name s))
        ⊎ (((name : Text) (s : api.Socket) → ¬ Greets c name s)
            × ((setup qt api c).state ≡ doomed)
            × ((setup qt api c).session ≡ c.session))
  unfolding setup read_client
  setup-Answers c stays fresh =
      from (api.read_string true c.socket).0 (api.read_string true c.socket).1
        (api.read_string true c.socket).2 refl
    where
      from :
          (text : Text) (ok : Bool) (b : api.Socket)
          → api.read_string true c.socket ≡ (text, ok, b)
          → Answers c
      from text false b r = failed_first c text b stays r
      from text true b r = elim (Bool-cases (starts_with text protocol_version_prefix)) [
        | inr old ↦ inl (text, b, named r old, rw (r, old) refl)
        | inl new ↦ elim (Bool-cases (is_version_1 qt api (qt.to_int (number c text b)))) [
          | inr other ↦ other_version c text b fresh r new other
          | inl good ↦ elim (Bool-cases (api.read_string true b).1) [
            | inl fine ↦ greeted c text b _ _ r new good (second fine)
            | inr bad ↦ failed_second c text b _ _ r new good (second bad)
          ]
        ]
      ]
        where
          second :
              {ok : Bool}
              → (api.read_string true b).1 ≡ ok
              → api.read_string true b
                ≡ ((api.read_string true b).0, ok, (api.read_string true b).2)
          second {ok} e =
              ap (λ (x : Bool). ((api.read_string true b).0, x, (api.read_string true b).2)) e
