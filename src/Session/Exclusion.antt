-- ===== src/Session/Exclusion.antt =====
-- `setupInProgress`: the sessions' setups, which can come in between one another, since a backend
-- may run an event loop of its own while it loads.
use touch_feedback.Base.{ℕ, ◌≡◌, ◌≢◌, refl, Bool, true, false, arith, ◌==◌, if◌then◌else◌}
use touch_feedback.World.{Platform, World}
use touch_feedback.Theme.{done}
use touch_feedback.Session.{Session, setup_begin, setup_end, setup}

-- Where a session stands: its timer for `setup` is due, it is in the body, or it is set up.
pub data Phase : Type 0 where
  waiting loading finished : Phase

-- The flag, and the phase of each session.
pub record System : Type 0 where
  pub setup_in_progress : Bool
  pub phase : ℕ → Phase

abbrev move : ℕ → Phase → (ℕ → Phase) → ℕ → Phase
move i q phase j = if i == j then q else phase j

-- The beginning of `setup`: the flag is tested and set, and a session that does not get it waits
-- on. The end: the flag is tested and cleared, whatever it was.
pub data Step (s t : System) : Type 0 where
  begins :
      (i : ℕ) (flag : Bool)
      → s.phase i ≡ waiting
      → setup_begin s.setup_in_progress ≡ (flag, true)
      → t ≡ record { setup_in_progress = flag; phase = move i loading s.phase }
      → Step s t
  waits_on :
      (i : ℕ) (flag : Bool)
      → s.phase i ≡ waiting
      → setup_begin s.setup_in_progress ≡ (flag, false)
      → t ≡ record s { setup_in_progress = flag }
      → Step s t
  ends :
      (i : ℕ)
      → s.phase i ≡ loading
      → t ≡ record {
        setup_in_progress = setup_end s.setup_in_progress;
        phase = move i finished s.phase;
      }
      → Step s t
  created :
      (i : ℕ) → s.phase i ≡ finished → t ≡ record s { phase = move i waiting s.phase } → Step s t

pub data Reach : System → Type 0 where
  start : (s : System) → s.setup_in_progress ≡ false → ((i : ℕ) → s.phase i ≢ loading) → Reach s
  next : (s t : System) → Reach s → Step s t → Reach t

-- At most one session is in the body, and one is exactly if the flag is set.
pub record Exclusive (s : System) : Type 0 where
  pub flagged : (i : ℕ) → s.phase i ≡ loading → s.setup_in_progress ≡ true
  pub one : (i j : ℕ) → s.phase i ≡ loading → s.phase j ≡ loading → i ≡ j

Step-Exclusive : (s t : System) → Exclusive s → Step s t → Exclusive t
unfolding setup_begin setup_end
Step-Exclusive s t v (begins i flag w e f) = rw f (record {
  flagged = λ j h. ground (arith, v.flagged j);
  one = λ j k h h'. ground (arith, v.flagged j, v.flagged k);
})
Step-Exclusive s t v (waits_on i flag w e f) =
    rw f (record { flagged = λ j h. ground (arith, v.flagged j h); one = v.one })
Step-Exclusive s t v (ends i w f) = rw f (record {
  flagged = λ j h. ground (arith, v.one i j w);
  one = λ j k h h'. ground (arith, v.one j k);
})
Step-Exclusive s t v (created i w f) = rw f (record {
  flagged = λ j h. ground (arith, v.flagged j);
  one = λ j k h h'. ground (arith, v.one j k);
})

Reach-Exclusive : (s : System) → Reach s → Exclusive s
Reach-Exclusive s (start _ e none_loads) = record {
  flagged = λ i h. absurd (none_loads i h);
  one = λ i j h k. absurd (none_loads i h);
}
Reach-Exclusive t (next s _ r st) = Step-Exclusive s t (Reach-Exclusive s r) st

setup-flagged :
    (p : Platform) (fuel : ℕ) (flag : Bool) (x : Session) (w : World)
    → flag ≡ true
    → setup p fuel flag x w ≡ done (true, false, x, w)
unfolding setup setup_begin
setup-flagged p fuel flag x w h = rw h refl

-- However the setups of sessions come in between one another, from a start in which none is in its
-- body: two sessions that are in their bodies are the same one, and while one is, the setup of any
-- session returns at once, without the signal setupReady, and changes nothing.
pub Reach-setup :
    (s : System) (i j : ℕ) (p : Platform) (fuel : ℕ) (x : Session) (w : World)
    → Reach s
    → s.phase i ≡ loading
    → s.phase j ≡ loading
    → (i ≡ j) × (setup p fuel s.setup_in_progress x w ≡ done (true, false, x, w))
Reach-setup s i j p fuel x w r at_i at_j =
    let v = Reach-Exclusive s r in
    (v.one i j at_i at_j, setup-flagged p fuel s.setup_in_progress x w (v.flagged i at_i))
