-- ===== src/Session/Fitting.antt =====
-- The feedbacks of a session, against the list of backends.
use touch_feedback.Base.{◌≡◌, some, List, [], ◌∷◌, arith, Option-cases, Bool-cases, inl, inr, subst}
use touch_feedback.Base.Text.{Text, text_eq, last_section}
use touch_feedback.Base.Dict.{Dict, lookup, insert}
use touch_feedback.World.{Platform, World}
use touch_feedback.Feedback.{Feedback, new_feedback, load_feedback}
use touch_feedback.Feedback.Keeping.{load_feedback-Keeps}
use touch_feedback.Feedback.Fitting.{
  SameBackends, SameBackends-sym, SameBackends-Keeps, Fits, Fits-SameBackends, new_feedback-Fits,
  load_feedback-Fits,
}
use touch_feedback.Session.{Session, add_feedback, map_feedbacks, reload_feedbacks}

abbrev pub AllFit : World → List Feedback → Type 0
AllFit w [] = Unit {0}
AllFit w (f ∷ fs) = Fits w f × AllFit w fs

abbrev pub HashFits : World → Dict Feedback → Type 0
HashFits w [] = Unit {0}
HashFits w ((k, f) ∷ d) = Fits w f × HashFits w d

abbrev pub SessionFits : World → Session → Type 0
SessionFits w s = HashFits w s.feedback_hash × AllFit w s.orphans

AllFit-SameBackends :
    (w u : World) (fs : List Feedback) → SameBackends w u → AllFit w fs → AllFit u fs
AllFit-SameBackends w u [] s v = tt
AllFit-SameBackends w u (f ∷ fs) s v =
    (Fits-SameBackends w u f s v.0, AllFit-SameBackends w u fs s v.1)

HashFits-SameBackends :
    (w u : World) (d : Dict Feedback) → SameBackends w u → HashFits w d → HashFits u d
HashFits-SameBackends w u [] s v = tt
HashFits-SameBackends w u ((k, f) ∷ d) s v =
    (Fits-SameBackends w u f s v.0, HashFits-SameBackends w u d s v.1)

pub SessionFits-SameBackends :
    (w u : World) (x : Session) → SameBackends w u → SessionFits w x → SessionFits u x
SessionFits-SameBackends w u x s v =
    (HashFits-SameBackends w u x.feedback_hash s v.0, AllFit-SameBackends w u x.orphans s v.1)

pub lookup-HashFits :
    (w : World) (d : Dict Feedback) (k : Text) (f : Feedback)
    → lookup k d ≡ some f
    → HashFits w d
    → Fits w f
unfolding lookup
lookup-HashFits w [] k f e v = cc
lookup-HashFits w ((j, g) ∷ d) k f e v = elim (Bool-cases (text_eq j k)) [
  | inl hit ↦ subst (Fits w) (ground (arith, hit)) v.0
  | inr miss ↦ lookup-HashFits w d k f (rw (lookup, miss) at e) v.1
]

pub insert-HashFits :
    (w : World) (d : Dict Feedback) (k : Text) (f : Feedback)
    → Fits w f
    → HashFits w d
    → HashFits w (insert k f d)
unfolding insert
insert-HashFits w [] k f fits v = (fits, tt)
insert-HashFits w ((j, g) ∷ d) k f fits v = elim (Bool-cases (text_eq j k)) [
  | inl hit ↦ rw hit (fits, v.1)
  | inr miss ↦ rw miss (v.0, insert-HashFits w d k f fits v.1)
]

pub add_feedback-SessionFits :
    (w : World) (f : Feedback) (x : Session)
    → Fits w f
    → SessionFits w x
    → SessionFits w (add_feedback f x)
unfolding add_feedback
add_feedback-SessionFits w f x fits v =
    let hash = insert-HashFits w x.feedback_hash f.feedback_name f fits v.0 in
    elim (Option-cases (lookup f.feedback_name x.feedback_hash)) [
      | inl new ↦ rw (new, add_feedback) (hash, v.1)
      | inr (old, at) ↦
          rw (at, add_feedback)
            (hash, (lookup-HashFits w x.feedback_hash f.feedback_name old at v.0, v.1))
    ]

module _ (p : Platform) where
  -- While the backends are those of `u`.
  pub map_feedbacks-SessionFits :
      (lists : List (List Text)) (x : Session) (u w : World)
      → SameBackends w u
      → SameBackends u w
      → SessionFits u x
      → SessionFits u (map_feedbacks p lists x w).0
  unfolding map_feedbacks
  map_feedbacks-SessionFits [] x u w back same v = v
  map_feedbacks-SessionFits (dirs ∷ lists) x u w back same v =
      let loaded = load_feedback p dirs (new_feedback w) w in
      let fits =
        load_feedback-Fits p dirs (new_feedback w) w u
          (Fits-SameBackends w u _ back (new_feedback-Fits w)) in
      let same' =
        load_feedback-Keeps p (SameBackends u) (SameBackends-Keeps p u) dirs (new_feedback w) w
          same in
      map_feedbacks-SessionFits lists (add_feedback loaded.0 x) u loaded.1 (SameBackends-sym same')
        same' (add_feedback-SessionFits u loaded.0 x fits v)

  pub reload_feedbacks-SessionFits :
      (lists : List (List Text)) (x : Session) (u w : World)
      → SessionFits u x
      → SessionFits u (reload_feedbacks p lists x w).0
  unfolding reload_feedbacks
  reload_feedbacks-SessionFits [] x u w v = v
  reload_feedbacks-SessionFits ([] ∷ lists) x u w v = reload_feedbacks-SessionFits lists x u w v
  reload_feedbacks-SessionFits ((dir ∷ dirs) ∷ lists) x u w v =
      let name = last_section b'/' dir in
      elim (Option-cases (lookup name x.feedback_hash)) [
        | inl unknown ↦ rw (unknown, reload_feedbacks) (reload_feedbacks-SessionFits lists x u w v)
        | inr (f, known) ↦
            rw (known, reload_feedbacks)
              (let f' = (load_feedback p (dir ∷ dirs) f w).0 in
                let fits =
                  load_feedback-Fits p (dir ∷ dirs) f w u
                    (lookup-HashFits u x.feedback_hash name f known v.0) in
                reload_feedbacks-SessionFits lists
                  (record x { feedback_hash = insert name f' x.feedback_hash }) u _
                  (insert-HashFits u x.feedback_hash name f' fits v.0, v.1))
      ]
