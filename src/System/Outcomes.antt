-- ===== src/System/Outcomes.antt =====
-- What holds in every state that the daemon's event loop reaches.
use touch_feedback.Base.{ℕ, ◌≡◌, ◌∙◌, none, some, List, [], ◌∷◌, ◌++◌, arith, if◌then◌else◌}
use touch_feedback.Base.Int.{ℤ, pos}
use touch_feedback.Base.Text.{Text}
use touch_feedback.Base.Dict.{lookup}
use touch_feedback.Backend.Ledger.{held, IsTidy}
use touch_feedback.World.{Platform, backend_state}
use touch_feedback.Handle.Ledger.{owners-none}
use touch_feedback.Feedback.{Feedback, too_late, play_feedback}
use touch_feedback.Feedback.Playing.{played, volume_of, play_feedback-played}
use touch_feedback.Session.{Session}
use touch_feedback.Session.References.{Inv-none_left}
use touch_feedback.Session.Fitting.{lookup-HashFits}
use touch_feedback.System.{System, Reach, start, next}
use touch_feedback.System.Invariant.{Sound, start-Ledger, start-Inv, focus}
use touch_feedback.System.Steps.{Step-Sound}

module _ (p : Platform) (tidy : IsTidy p.plugin) where
  -- In every state that is reached from the manager's `init`, in whatever order clients come and go,
  -- sessions are set up, the theme changes, feedbacks are played, backends come and go and volumes
  -- are set: the cache holds exactly the live handles, each counted by the pointers of all sessions;
  -- every handle that a plugin was asked to play or to unload was one that it had handed out and not
  -- been given back, and what it has handed out is owned by exactly the ready handles; and each
  -- feedback has one slot for each backend. A plugin must hand out nothing when a load fails.
  pub Reach-Sound : (s : System) → Reach p s → Sound p s
  Reach-Sound s (start w v) = record {
    cache = start-Inv p tidy w v;
    ledger = start-Ledger p tidy w v;
    fit = tt;
    direct = v.direct;
  }
  Reach-Sound t (next s _ r st) = Step-Sound p tidy s t st (Reach-Sound s r)

  -- In every such state, a feedback of any session whose priority is not negative can be played
  -- without a fault, and what `play` does is to play the slots whose handle is ready.
  pub Reach-played :
      (s : System) (before after : List Session) (x : Session) (name : Text) (f : Feedback) (n : ℕ)
      (limit now timestamp : ℤ)
      → Reach p s
      → s.sessions ≡ before ++ x ∷ after
      → lookup name x.feedback_hash ≡ some f
      → f.feedback_volume_priority ≡ pos n
      → play_feedback p limit now timestamp f s.world
        ≡ some (
            if too_late limit now timestamp then s.world else record s.world {
              calls =
                  played s.world.object
                    (backend_state s.world)
                    (volume_of p n s.world)
                    0
                    f.feedback_handles
                    s.world.calls;
            })
  Reach-played s before after x name f n limit now timestamp r e at priority =
      let v = Reach-Sound s r in
      let fits =
        lookup-HashFits s.world x.feedback_hash name f at
          ((focus p tidy s before after x e v).1).0 in
      play_feedback-played p limit now timestamp f n s.world priority fits.players
        (omega (arith, fits.slots)) (omega (arith, fits.slots, v.direct))

  -- In every such state with no session left, there is no handle, the cache is empty, and the plugins
  -- have been given back all that they handed out.
  pub Reach-none_left :
      (s : System)
      → Reach p s
      → s.sessions ≡ []
      → ((o : ℕ) → s.world.object o ≡ none)
        × ((k : Text) → lookup k s.world.feedback_handle_hash ≡ none)
        × ((b v : ℕ) → held p.plugin s.world.calls b v ≡ 0)
  Reach-none_left s r e =
      let sound = Reach-Sound s r in
      let left = Inv-none_left p s.world (rw e at (sound.cache)) in
      (
        left.0,
        left.1,
        λ b v. sound.ledger.settled b v ∙ owners-none b v s.world.object s.world.next_object left.0,
      )
