-- ===== src/Backend/Ledger.antt =====
-- What a plugin has handed out and not been given back, by the calls that were made to it.
use touch_feedback.Base.{
  ℕ, ◌+◌, ◌-◌, ◌<◌, ◌≡◌, false, Option, none, some, List, [], ◌∷◌, ◌&&◌, ◌==◌, if◌then◌else◌,
}
use touch_feedback.Base.Text.{Text}
use touch_feedback.Backend.{Call, loads, unloads, plays, Plugin}

-- 1 if the handle of the backend c is the handle r of the backend b.
abbrev pub same : ℕ → ℕ → ℕ → Option ℕ → ℕ
same b r c none = 0
same b r c (some v) = if c == b && v == r then 1 else 0

-- How often the backend b has handed out r, less how often it was given back.
abbrev pub held : Plugin → List Call → ℕ → ℕ → ℕ
held plugin [] b r = 0
held plugin (loads c dir ∷ calls) b r =
    held plugin calls b r + same b r c (plugin.load_handle calls c dir).1
held plugin (unloads c v ∷ calls) b r = held plugin calls b r - same b r c (some v)
held plugin (plays c v volume ∷ calls) b r = held plugin calls b r

-- Every handle that a plugin is asked to unload or to play is one that it has handed out and not
-- been given back.
abbrev pub Clean : Plugin → List Call → Type 0
Clean plugin [] = Unit {0}
Clean plugin (loads c dir ∷ calls) = Clean plugin calls
Clean plugin (unloads c v ∷ calls) = (0 < held plugin calls c v) × Clean plugin calls
Clean plugin (plays c v volume ∷ calls) = (0 < held plugin calls c v) × Clean plugin calls

-- What the daemon relies on of a plugin: a load that fails hands out nothing.
abbrev pub IsTidy : Plugin → Type 0
IsTidy plugin =
    (calls : List Call) (b : ℕ) (dir : Text)
    → (plugin.load_handle calls b dir).0 ≡ false
    → (plugin.load_handle calls b dir).1 ≡ none
