-- ===== src/Backend/Reconnect.antt =====
-- What can happen to a backend between two turns of the event loop, and what then always holds.
use touch_feedback.Base.{ℕ, ◌≤◌, ◌<◌, ◌≡◌, refl, ◌||◌, Option, Bool, true, false, none, some, arith}
use touch_feedback.Backend.Schedule.{interval_lem, wait-bounds}
use touch_feedback.Backend.{
  State, Connector, connecting, connected, new_connector, try_connect, connection_done,
  connecting_slot,
}

-- `connecting` is called by the manager and by the timer that expires; an attempt that is under
-- way ends either way; the plugin loses the connection, and may have set the state itself.
pub data Step (c d : Connector) : Type 0 where
  scheduled : d ≡ connecting_slot c → Step c d
  expired : (n : ℕ) → c.timer ≡ some n → d ≡ connecting_slot (record c { timer = none }) → Step c d
  finished : (ok : Bool) → c.attempt ≡ true → d ≡ (connection_done ok c).0 → Step c d
  lost : (s : State) → d ≡ try_connect (record c { current_state = s }) → Step c d

pub data Reach (c : Connector) : Connector → Type 0 where
  here : Reach c c
  next : {d e : Connector} → Reach c d → Step d e → Reach c e

abbrev pub is_active : Option ℕ → Bool
is_active none = false
is_active (some n) = true

abbrev pub InBounds : Option ℕ → Type 0
InBounds none = Unit
InBounds (some n) = (1000 ≤ n) × (n ≤ 120000)

-- A backend that is connecting waits for its timer or for an attempt, and has failed at least
-- once; a connected one has no failures; a running timer was set within the bounds.
pub record Inv (c : Connector) : Type 0 where
  pub waits : c.current_state ≡ connecting → (is_active c.timer || c.attempt) ≡ true
  pub failed : c.current_state ≡ connecting → 0 < c.failed_connections
  pub settled : c.current_state ≡ connected → c.failed_connections ≡ 0
  pub bounded : InBounds c.timer

try_connect-Inv : (c : Connector) → InBounds c.timer → Inv (try_connect c)
unfolding try_connect
try_connect-Inv c b =
    ground (arith, interval_lem c.failed_connections, wait-bounds c.failed_connections)

Step-Inv : {c d : Connector} → Step c d → Inv c → Inv d
unfolding connection_done connecting_slot
Step-Inv {c} {d} (scheduled e) v = rw e (ground arith)
Step-Inv {c} {d} (expired n t e) v = rw e (ground arith)
Step-Inv {c} {d} (finished true t e) v = rw e (ground arith)
Step-Inv {c} {d} (finished false t e) v =
    rw e (try_connect-Inv (record c { attempt = false }) v.bounded)
Step-Inv {c} {d} (lost s e) v = rw e (try_connect-Inv (record c { current_state = s }) v.bounded)

new_connector-Inv : Inv new_connector
unfolding new_connector
new_connector-Inv = ground arith

-- In every state that a backend reaches from its construction: while it is connecting, its timer
-- runs or an attempt is under way, and it counts at least one failure; while it is connected, it
-- counts none; and a timer that runs was set to between one second and two minutes.
pub Reach-Inv : (c : Connector) → Reach new_connector c → Inv c
Reach-Inv _ here = new_connector-Inv
Reach-Inv d (next {d = c} r st) = Step-Inv st (Reach-Inv c r)

ready : Connector → Connector
ready c = record c { attempt = false; current_state = connected; failed_connections = 0 }

-- What happens to a backend that is left alone: its timer expires, or its attempt ends.
pub data Runs (c : Connector) : Connector → Type 0 where
  still : Runs c c
  expires :
      {d : Connector} (n : ℕ)
      → Runs c d
      → d.timer ≡ some n
      → Runs c (connecting_slot (record d { timer = none }))
  ends : {d : Connector} (ok : Bool) → Runs c d → d.attempt ≡ true → Runs c (connection_done ok d).0

-- A backend that is reached and is connecting gets to a connected state by its own timer and an
-- attempt that succeeds, without a further call: it is never stuck. If the attempt under way
-- fails, it is connecting still, and its timer runs.
pub Reach-recovers :
    (c : Connector)
    → Reach new_connector c
    → c.current_state ≡ connecting
    → ((d : Connector) × Runs c d × (d.current_state ≡ connected))
      × (((connection_done false c).0.current_state ≡ connecting)
          × (is_active (connection_done false c).0.timer ≡ true))
unfolding connection_done connecting_slot ready try_connect
Reach-recovers c r h =
    (from c.attempt c.timer refl refl, (refl, ground (arith, interval_lem c.failed_connections)))
  where
    from :
        (a : Bool) (t : Option ℕ)
        → c.attempt ≡ a
        → c.timer ≡ t
        → (d : Connector) × Runs c d × (d.current_state ≡ connected)
    from true t ea et = (ready c, ends true still ea, refl)
    from false (some n) ea et = (
      ready (connecting_slot (record c { timer = none })),
      ends true (expires n still et) refl,
      refl,
    )
    from false none ea et = cc ((Reach-Inv c r).waits h)
