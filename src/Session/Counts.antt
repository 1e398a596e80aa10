-- ===== src/Session/Counts.antt =====
-- The pointers to handles of all feedbacks of a session, and what adding a feedback does to them.
use touch_feedback.Base.{
  ℕ, ◌≡◌, refl, ◌∙◌, Option, none, some, List, [], ◌∷◌, arith, Bool-cases, inl, inr,
}
use touch_feedback.Base.Text.{Text, text_eq, text_eq_iff}
use touch_feedback.Base.Dict.{Dict, lookup, insert, lookup-insert}
use touch_feedback.Feedback.{Feedback}
use touch_feedback.Feedback.References.{bump_all, bump_all-ext, bump_all-bump_all}
use touch_feedback.Session.{Session, add_feedback}

-- The pointers of all feedbacks in the hash, and of a list of feedbacks, on top of others.
abbrev pub bump_hash : Dict Feedback → (ℕ → ℕ) → ℕ → ℕ
bump_hash [] refs = refs
bump_hash ((k, f) ∷ fs) refs = bump_all f.feedback_handles (bump_hash fs refs)

abbrev pub bump_children : List Feedback → (ℕ → ℕ) → ℕ → ℕ
bump_children [] refs = refs
bump_children (f ∷ fs) refs = bump_all f.feedback_handles (bump_children fs refs)

-- The pointers of a session's feedbacks.
abbrev pub bump_session : Session → (ℕ → ℕ) → ℕ → ℕ
bump_session s refs = bump_hash s.feedback_hash (bump_children s.orphans refs)

abbrev pub handles_of : Option Feedback → List (Option ℕ)
handles_of none = []
handles_of (some f) = f.feedback_handles

bump_hash-ext :
    (d : Dict Feedback) (r t : ℕ → ℕ)
    → ((q : ℕ) → r q ≡ t q)
    → (q : ℕ) → bump_hash d r q ≡ bump_hash d t q
bump_hash-ext [] r t e q = e q
bump_hash-ext ((k, f) ∷ fs) r t e q =
    bump_all-ext f.feedback_handles (bump_hash fs r) (bump_hash fs t) (bump_hash-ext fs r t e) q

bump_hash-bump_all :
    (d : Dict Feedback) (slots : List (Option ℕ)) (r : ℕ → ℕ) (q : ℕ)
    → bump_hash d (bump_all slots r) q ≡ bump_all slots (bump_hash d r) q
bump_hash-bump_all [] slots r q = refl
bump_hash-bump_all ((k, f) ∷ fs) slots r q =
    bump_all-ext f.feedback_handles (bump_hash fs (bump_all slots r))
      (bump_all slots (bump_hash fs r)) (bump_hash-bump_all fs slots r) q
    ∙ bump_all-bump_all f.feedback_handles slots (bump_hash fs r) q

-- What a key's new feedback brings, and what the old one took along.
pub bump_hash-insert :
    (k : Text) (f : Feedback) (d : Dict Feedback) (r : ℕ → ℕ) (q : ℕ)
    → bump_all (handles_of (lookup k d)) (bump_hash (insert k f d) r) q
      ≡ bump_all f.feedback_handles (bump_hash d r) q
unfolding lookup insert
bump_hash-insert k f [] r q = refl
bump_hash-insert k f ((j, g) ∷ d) r q = elim (Bool-cases (text_eq j k)) [
  | inl hit ↦ rw hit (bump_all-bump_all g.feedback_handles f.feedback_handles (bump_hash d r) q)
  | inr miss ↦ rw miss (
      bump_all-bump_all (handles_of (lookup k d)) g.feedback_handles (bump_hash (insert k f d) r) q
      ∙ bump_all-ext g.feedback_handles
          (bump_all (handles_of (lookup k d)) (bump_hash (insert k f d) r))
          (bump_all f.feedback_handles (bump_hash d r)) (bump_hash-insert k f d r) q
      ∙ bump_all-bump_all g.feedback_handles f.feedback_handles (bump_hash d r) q)
]

pub insert-insert :
    (k : Text) (f g : Feedback) (d : Dict Feedback) → insert k f (insert k g d) ≡ insert k f d
unfolding insert
insert-insert k f g [] = ground (arith, text_eq_iff k k)
insert-insert k f g ((j, h) ∷ d) = ground (arith, text_eq_iff k k, insert-insert k f g d)

pub lookup-insert_self :
    (k : Text) (g : Feedback) (d : Dict Feedback) → lookup k (insert k g d) ≡ some g
lookup-insert_self k g d = ground (arith, lookup-insert k k g d, text_eq_iff k k)

pub bump_session-add_feedback :
    (f : Feedback) (s : Session) (r : ℕ → ℕ) (q : ℕ)
    → bump_session (add_feedback f s) r q ≡ bump_all f.feedback_handles (bump_session s r) q
unfolding add_feedback
bump_session-add_feedback f s r q =
    from (lookup f.feedback_name s.feedback_hash) refl
      (bump_hash-insert f.feedback_name f s.feedback_hash (bump_children s.orphans r) q)
  where
    from :
        (x : Option Feedback)
        → lookup f.feedback_name s.feedback_hash ≡ x
        → bump_all
            (handles_of (lookup f.feedback_name s.feedback_hash))
            (bump_hash (insert f.feedback_name f s.feedback_hash) (bump_children s.orphans r))
            q
          ≡ bump_all f.feedback_handles (bump_session s r) q
        → bump_session (add_feedback f s) r q ≡ bump_all f.feedback_handles (bump_session s r) q
    from none e counts = rw (e, add_feedback) (rw e at counts)
    from (some old) e counts =
        rw (e, add_feedback)
          (bump_hash-bump_all (insert f.feedback_name f s.feedback_hash) old.feedback_handles
              (bump_children s.orphans r) q
            ∙ (rw e at counts))

abbrev pub without_handles : Feedback → Feedback
without_handles f = record f { feedback_handles = [] }
