-- ===== src/System/Memory.antt =====
-- The daemon together with the dummy backends as its plugins.
use touch_feedback.Base.{ℕ, ◌≡◌, none, some, [], inl, inr, Option-cases, arith}
use touch_feedback.World.{Platform}
use touch_feedback.Backend.Ledger.{held}
use touch_feedback.System.{System, Reach}
use touch_feedback.System.Outcomes.{Reach-Sound, Reach-none_left}
use touch_feedback.Dummies.{Directories, Strings}
use touch_feedback.Dummies.Replay.{Kind, replay, dummies}
use touch_feedback.Dummies.Memory.{Owned}
use touch_feedback.Dummies.Safety.{dummies-IsTidy, replay-Owned}

-- The platform with dummy backends, `kind` telling which is at an address.
abbrev pub with_dummies : Directories → (ℕ → Kind) → Platform → Platform
with_dummies dirs kind p = record p { plugin = dummies dirs kind }

module _ (dirs : Directories) (kind : ℕ → Kind) (p : Platform) where
  -- In every state that the daemon's event loop reaches with dummy backends as its plugins, whatever
  -- files there are: no call that it has made to them has used a dangling pointer, the strings in
  -- memory are those that the backends have handed out and not been given back, each once, and with
  -- no session left there are none.
  pub Reach-replay :
      (s : System)
      → Reach (with_dummies dirs kind p) s
      → (m : Strings) × (replay dirs kind s.world.calls ≡ some m)
        × Owned (held (dummies dirs kind) s.world.calls) m
        × (s.sessions ≡ [] → (a : ℕ) → m.content a ≡ none)
  Reach-replay s r =
      let q = with_dummies dirs kind p in
      let tidy = dummies-IsTidy dirs kind in
      let (m, runs, owned) =
        replay-Owned dirs kind s.world.calls (Reach-Sound q tidy s r).ledger.clean in
      (
        m,
        runs,
        owned,
        λ e a. elim (Option-cases (m.content a)) [
          | inl gone ↦ gone
          | inr (text, there) ↦
              let (b, h) = owned.found a text there in
              absurd (omega (arith, h, (Reach-none_left q tidy s r e).2 b a))
        ],
      )
