-- ===== src/Session/Placing.antt =====
-- Which backends the handles of a session's feedbacks belong to, over its setup and a change of theme.
use touch_feedback.Base.{
  ℕ, ◌≡◌, ap, subst, List, [], ◌∷◌, some, arith, length, Option-cases, Bool-cases, inl, inr,
}
use touch_feedback.Base.Text.{Text, text_eq, last_section}
use touch_feedback.Base.Dict.{Dict, lookup, insert}
use touch_feedback.World.{Platform, World}
use touch_feedback.Cache.Invariant.{Inv}
use touch_feedback.Feedback.{Feedback, new_feedback, load_feedback}
use touch_feedback.Feedback.Keeping.{load_feedback-Keeps}
use touch_feedback.Feedback.Fitting.{
  SameBackends, SameBackends-refl, SameBackends-Keeps, Fits, new_feedback-Fits, load_feedback-Fits,
}
use touch_feedback.Feedback.References.{bump_all, new_feedback-Inv}
use touch_feedback.Feedback.Later.{Later, Later-refl, Later-Keeps}
use touch_feedback.Cache.Keys.{TellsIndexes}
use touch_feedback.Feedback.Placing.{
  PlacedSlots, Later-PlacedSlots, load_feedback-PlacedSlots, new_feedback-PlacedSlots,
}
use touch_feedback.Session.{Session, add_feedback, map_feedbacks, reload_feedbacks}
use touch_feedback.Session.Counts.{handles_of, bump_session, bump_children}
use touch_feedback.Session.Fitting.{
  SessionFits, lookup-HashFits, SessionFits-SameBackends, insert-HashFits,
}
use touch_feedback.Session.References.{added-Inv, apart-Inv, reload-Inv}

-- Each slot of each feedback in the hash has a handle of the slot's backend, or none.
abbrev pub HashPlaced : World → Dict Feedback → Type 0
HashPlaced w [] = Unit {0}
HashPlaced w ((k, f) ∷ d) = PlacedSlots w 0 f.feedback_handles × HashPlaced w d

pub Later-HashPlaced :
    (v w : World) (d : Dict Feedback) → Later v w → HashPlaced v d → HashPlaced w d
Later-HashPlaced v w [] l x = tt
Later-HashPlaced v w ((k, f) ∷ d) l x =
    (Later-PlacedSlots v w 0 f.feedback_handles l x.0, Later-HashPlaced v w d l x.1)

insert-HashPlaced :
    (w : World) (d : Dict Feedback) (k : Text) (f : Feedback)
    → PlacedSlots w 0 f.feedback_handles
    → HashPlaced w d
    → HashPlaced w (insert k f d)
unfolding insert
insert-HashPlaced w [] k f x v = (x, tt)
insert-HashPlaced w ((j, g) ∷ d) k f x v = elim (Bool-cases (text_eq j k)) [
  | inl hit ↦ rw hit (x, v.1)
  | inr miss ↦ rw miss (v.0, insert-HashPlaced w d k f x v.1)
]

pub lookup-HashPlaced :
    (w : World) (d : Dict Feedback) (k : Text) (f : Feedback)
    → lookup k d ≡ some f
    → HashPlaced w d
    → PlacedSlots w 0 f.feedback_handles
unfolding lookup
lookup-HashPlaced w [] k f e v = cc
lookup-HashPlaced w ((j, g) ∷ d) k f e v = elim (Bool-cases (text_eq j k)) [
  | inl hit ↦ subst (PlacedSlots w 0) (ap handles_of (rw (lookup, hit) at e)) v.0
  | inr miss ↦ lookup-HashPlaced w d k f (rw (lookup, miss) at e) v.1
]

module _ (p : Platform) where
  load-Later : (dirs : List Text) (f : Feedback) (w : World) → Later w (load_feedback p dirs f w).1
  load-Later dirs f w = load_feedback-Keeps p (Later w) (Later-Keeps p w) dirs f w (Later-refl w)

  -- A feedback is loaded, and the feedbacks in the hash are where they were.
  loaded-HashPlaced :
      (dirs : List Text) (k : Text) (f : Feedback) (d : Dict Feedback) (w : World) (others : ℕ → ℕ)
      → TellsIndexes p (length w.backend_list)
      → Fits w f
      → Inv p w (bump_all f.feedback_handles others)
      → PlacedSlots w 0 f.feedback_handles
      → HashPlaced w d
      → HashPlaced (load_feedback p dirs f w).1 (insert k (load_feedback p dirs f w).0 d)
  loaded-HashPlaced dirs k f d w others tells fits v placed hash =
      insert-HashPlaced (load_feedback p dirs f w).1 d k (load_feedback p dirs f w).0
        (load_feedback-PlacedSlots p dirs f w others tells (omega (arith, fits.slots)) v placed)
        (Later-HashPlaced w (load_feedback p dirs f w).1 d (load-Later dirs f w) hash)

  pub map_feedbacks-HashPlaced :
      (lists : List (List Text)) (x : Session) (w : World) (r : ℕ → ℕ)
      → TellsIndexes p (length w.backend_list)
      → Inv p w (bump_session x r)
      → HashPlaced w x.feedback_hash
      → HashPlaced (map_feedbacks p lists x w).1 (map_feedbacks p lists x w).0.feedback_hash
  unfolding map_feedbacks add_feedback
  map_feedbacks-HashPlaced [] x w r tells v placed = placed
  map_feedbacks-HashPlaced (dirs ∷ lists) x w r tells v placed =
      let f = new_feedback w in
      let loaded = load_feedback p dirs f w in
      map_feedbacks-HashPlaced lists (add_feedback loaded.0 x) loaded.1 r
        (rw ((load-Later dirs f w).backends) tells) (added-Inv p dirs x w r v)
        (loaded-HashPlaced dirs loaded.0.feedback_name f x.feedback_hash w (bump_session x r) tells
          (new_feedback-Fits w) (new_feedback-Inv p w (bump_session x r) v)
          (new_feedback-PlacedSlots w) placed)

  pub reload_feedbacks-HashPlaced :
      (lists : List (List Text)) (x : Session) (w : World) (r : ℕ → ℕ)
      → TellsIndexes p (length w.backend_list)
      → SessionFits w x
      → Inv p w (bump_session x r)
      → HashPlaced w x.feedback_hash
      → HashPlaced (reload_feedbacks p lists x w).1 (reload_feedbacks p lists x w).0.feedback_hash
  unfolding reload_feedbacks
  reload_feedbacks-HashPlaced [] x w r tells fit v placed = placed
  reload_feedbacks-HashPlaced ([] ∷ lists) x w r tells fit v placed =
      reload_feedbacks-HashPlaced lists x w r tells fit v placed
  reload_feedbacks-HashPlaced ((dir ∷ dirs) ∷ lists) x w r tells fit v placed =
      let k = last_section b'/' dir in
      elim (Option-cases (lookup k x.feedback_hash)) [
        | inl unknown ↦
            rw (unknown, reload_feedbacks)
              (reload_feedbacks-HashPlaced lists x w r tells fit v placed)
        | inr (f, at) ↦
            let (g, u) = load_feedback p (dir ∷ dirs) f w in
            let fits = lookup-HashFits w x.feedback_hash k f at fit.0 in
            let y : Session = record x { feedback_hash = insert k g x.feedback_hash } in
            let same =
              load_feedback-Keeps p (SameBackends w) (SameBackends-Keeps p w) (dir ∷ dirs) f w
                (SameBackends-refl w) in
            rw (at, reload_feedbacks)
              (reload_feedbacks-HashPlaced lists y u r (rw (same.backends) tells)
                (SessionFits-SameBackends w u y same (
                  insert-HashFits w x.feedback_hash k g
                      (load_feedback-Fits p (dir ∷ dirs) f w w fits) fit.0,
                  fit.1,
                ))
                (reload-Inv p (dir ∷ dirs) k f x.feedback_hash w (bump_children x.orphans r) at v)
                (loaded-HashPlaced (dir ∷ dirs) k f x.feedback_hash w _ tells fits
                  (apart-Inv p k f x.feedback_hash w (bump_children x.orphans r) at v)
                  (lookup-HashPlaced w x.feedback_hash k f at placed) placed))
      ]
