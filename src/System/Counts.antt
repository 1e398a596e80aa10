-- ===== src/System/Counts.antt =====
-- The pointers of all sessions, and the fit of their feedbacks, where one session is singled out.
use touch_feedback.Base.{ℕ, ◌+◌, ◌≡◌, refl, Option, none, some, List, [], ◌∷◌, ◌++◌, arith}
use touch_feedback.Base.Dict.{Dict}
use touch_feedback.Cache.Invariant.{bump}
use touch_feedback.Feedback.{Feedback}
use touch_feedback.Feedback.References.{bump_all}
use touch_feedback.Session.{Session}
use touch_feedback.Session.Counts.{bump_hash, bump_children, bump_session}

abbrev pub nobody : ℕ → ℕ
nobody o = 0

abbrev pub bump_sessions : List Session → (ℕ → ℕ) → ℕ → ℕ
bump_sessions [] refs = refs
bump_sessions (s ∷ sessions) refs = bump_session s (bump_sessions sessions refs)

bump_add : (s : Option ℕ) (r t : ℕ → ℕ) (q n : ℕ) → r q ≡ t q + n → bump s r q ≡ bump s t q + n
bump_add none r t q n e = e
bump_add (some o) r t q n e = ground arith

bump_all_add :
    (slots : List (Option ℕ)) (r t : ℕ → ℕ) (q n : ℕ)
    → r q ≡ t q + n
    → bump_all slots r q ≡ bump_all slots t q + n
bump_all_add [] r t q n e = e
bump_all_add (s ∷ slots) r t q n e = bump_add s _ _ q n (bump_all_add slots r t q n e)

bump_hash_add :
    (d : Dict Feedback) (r t : ℕ → ℕ) (q n : ℕ)
    → r q ≡ t q + n
    → bump_hash d r q ≡ bump_hash d t q + n
bump_hash_add [] r t q n e = e
bump_hash_add ((k, f) ∷ d) r t q n e =
    bump_all_add f.feedback_handles _ _ q n (bump_hash_add d r t q n e)

bump_children_add :
    (fs : List Feedback) (r t : ℕ → ℕ) (q n : ℕ)
    → r q ≡ t q + n
    → bump_children fs r q ≡ bump_children fs t q + n
bump_children_add [] r t q n e = e
bump_children_add (f ∷ fs) r t q n e =
    bump_all_add f.feedback_handles _ _ q n (bump_children_add fs r t q n e)

bump_session_add :
    (s : Session) (r t : ℕ → ℕ) (q n : ℕ)
    → r q ≡ t q + n
    → bump_session s r q ≡ bump_session s t q + n
bump_session_add s r t q n e =
    bump_hash_add s.feedback_hash _ _ q n (bump_children_add s.orphans r t q n e)

-- The session's own pointers are added to those of others.
bump_session_own :
    (s : Session) (r : ℕ → ℕ) (q : ℕ) → bump_session s r q ≡ bump_session s nobody q + r q
bump_session_own s r q = bump_session_add s r nobody q (r q) (omega arith)

-- The session in the middle may be counted last.
pub bump_sessions_middle :
    (before after : List Session) (x : Session) (r : ℕ → ℕ) (q : ℕ)
    → bump_sessions (before ++ x ∷ after) r q ≡ bump_session x (bump_sessions (before ++ after) r) q
bump_sessions_middle [] after x r q = refl
bump_sessions_middle (s ∷ before) after x r q = omega (
  arith,
  bump_sessions_middle before after x r q,
  bump_session_own s (bump_sessions (before ++ x ∷ after) r) q,
  bump_session_own x (bump_sessions (s ∷ before ++ after) r) q,
  bump_session_own s (bump_sessions (before ++ after) r) q,
  bump_session_own x (bump_sessions (before ++ after) r) q,
)
