-- ===== src/Session/References.antt =====
-- The feedbacks of a session and the handles they point to: `setup`, `themeChanged` and the
-- destructor keep the cache's invariant and the counts of the handles.
use touch_feedback.Base.{
  ℕ, ◌≡◌, refl, sym, Bool, true, false, Option, none, some, List, [], ◌∷◌, arith, not, ap, subst,
  Option-cases, inl, inr,
}
use touch_feedback.Base.Text.{Text, last_section}
use touch_feedback.Base.Dict.{Dict, lookup, insert}
use touch_feedback.World.{Platform, World}
use touch_feedback.Cache.Invariant.{Inv, Inv-ext}
use touch_feedback.Feedback.{Feedback, new_feedback, load_feedback, destroy_feedback}
use touch_feedback.Feedback.References.{
  bump_all, load_feedback-Inv, destroy_feedback-Inv, new_feedback-Inv,
}
use touch_feedback.Theme.{Outcome, done, fatal, endless}
use touch_feedback.Session.Counts.{
  bump_hash, bump_children, bump_session, bump_hash-insert, insert-insert, lookup-insert_self,
  bump_session-add_feedback, without_handles,
}
use touch_feedback.Session.Keeping.{setup_cases, theme_changed_cases}
use touch_feedback.Session.{
  Session, add_feedback, map_feedbacks, setup_body, setup, setup_begin, setup_end, reload_feedbacks,
  theme_changed, destroy_hash, destroy_children, destroy_session,
}

module _ (p : Platform) where
  -- A new feedback is loaded and added.
  pub added-Inv :
      (dirs : List Text) (s : Session) (w : World) (r : ℕ → ℕ)
      → Inv p w (bump_session s r)
      → let loaded = load_feedback p dirs (new_feedback w) w in
        Inv p loaded.1 (bump_session (add_feedback loaded.0 s) r)
  added-Inv dirs s w r v =
      let loaded = load_feedback p dirs (new_feedback w) w in
      Inv-ext p loaded.1 (bump_all loaded.0.feedback_handles (bump_session s r))
        (bump_session (add_feedback loaded.0 s) r)
        (λ q. sym (bump_session-add_feedback loaded.0 s r q))
        (load_feedback-Inv p dirs (new_feedback w) w (bump_session s r)
          (new_feedback-Inv p w (bump_session s r) v))

  pub map_feedbacks-Inv :
      (lists : List (List Text)) (s : Session) (w : World) (r : ℕ → ℕ)
      → Inv p w (bump_session s r)
      → Inv p (map_feedbacks p lists s w).1 (bump_session (map_feedbacks p lists s w).0 r)
  unfolding map_feedbacks
  map_feedbacks-Inv [] s w r v = v
  map_feedbacks-Inv (dirs ∷ lists) s w r v =
      let loaded = load_feedback p dirs (new_feedback w) w in
      map_feedbacks-Inv lists (add_feedback loaded.0 s) loaded.1 r (added-Inv dirs s w r v)

  -- A feedback of the hash is counted apart from the others.
  pub apart-Inv :
      (k : Text) (f : Feedback) (d : Dict Feedback) (w : World) (r : ℕ → ℕ)
      → lookup k d ≡ some f
      → Inv p w (bump_hash d r)
      → Inv p w (bump_all f.feedback_handles (bump_hash (insert k (without_handles f) d) r))
  apart-Inv k f d w r at v =
      Inv-ext p w _ _ (λ q. sym (rw at at (bump_hash-insert k (without_handles f) d r q))) v

  -- A feedback of the hash is loaded anew.
  pub reload-Inv :
      (dirs : List Text) (k : Text) (f : Feedback) (d : Dict Feedback) (w : World) (r : ℕ → ℕ)
      → lookup k d ≡ some f
      → Inv p w (bump_hash d r)
      → Inv p (load_feedback p dirs f w).1 (bump_hash (insert k (load_feedback p dirs f w).0 d) r)
  reload-Inv dirs k f d w r at v =
      let rest = insert k (without_handles f) d in
      let f' = (load_feedback p dirs f w).0 in
      let after : (q : ℕ)
          → bump_all f'.feedback_handles (bump_hash rest r) q ≡ bump_hash (insert k f' d) r q =
        λ q. sym (
          rw (lookup-insert_self k (without_handles f) d, insert-insert k f' (without_handles f) d)
            at (bump_hash-insert k f' rest r q)) in
      Inv-ext p (load_feedback p dirs f w).1 _ _ after
        (load_feedback-Inv p dirs f w (bump_hash rest r) (apart-Inv k f d w r at v))

  pub reload_feedbacks-Inv :
      (lists : List (List Text)) (s : Session) (w : World) (r : ℕ → ℕ)
      → Inv p w (bump_session s r)
      → Inv p (reload_feedbacks p lists s w).1 (bump_session (reload_feedbacks p lists s w).0 r)
  unfolding reload_feedbacks
  reload_feedbacks-Inv [] s w r v = v
  reload_feedbacks-Inv ([] ∷ lists) s w r v = reload_feedbacks-Inv lists s w r v
  reload_feedbacks-Inv ((dir ∷ dirs) ∷ lists) s w r v =
      from (lookup (last_section b'/' dir) s.feedback_hash) refl (reload_feedbacks-Inv lists)
    where
      from :
          (x : Option Feedback)
          → lookup (last_section b'/' dir) s.feedback_hash ≡ x
          → ((t : Session) (u : World) (n : ℕ → ℕ)
              → Inv p u (bump_session t n)
              → Inv p
                  (reload_feedbacks p lists t u).1
                  (bump_session (reload_feedbacks p lists t u).0 n))
          → Inv p
              (reload_feedbacks p ((dir ∷ dirs) ∷ lists) s w).1
              (bump_session (reload_feedbacks p ((dir ∷ dirs) ∷ lists) s w).0 r)
      from none e ih = rw (e, reload_feedbacks) (ih s w r v)
      from (some f) e ih =
          rw (e, reload_feedbacks)
            (ih _ _ r (
              reload-Inv (dir ∷ dirs) (last_section b'/' dir) f s.feedback_hash w
                (bump_children s.orphans r) e v))

  destroy_hash-Inv :
      (d : Dict Feedback) (w : World) (r : ℕ → ℕ)
      → Inv p w (bump_hash d r)
      → Inv p (destroy_hash p d w) r
  unfolding destroy_hash
  destroy_hash-Inv [] w r v = v
  destroy_hash-Inv ((k, f) ∷ fs) w r v =
      destroy_hash-Inv fs (destroy_feedback p f w) r (destroy_feedback-Inv p f w (bump_hash fs r) v)

  destroy_children-Inv :
      (fs : List Feedback) (w : World) (r : ℕ → ℕ)
      → Inv p w (bump_children fs r)
      → Inv p (destroy_children p fs w) r
  unfolding destroy_children
  destroy_children-Inv [] w r v = v
  destroy_children-Inv (f ∷ fs) w r v =
      destroy_children-Inv fs (destroy_feedback p f w) r
        (destroy_feedback-Inv p f w (bump_children fs r) v)

  -- The invariant, for a session and a state that are equal to others.
  moved-Inv :
      (s s' : Session) (w w' : World) (r : ℕ → ℕ)
      → s ≡ s'
      → w ≡ w'
      → Inv p w (bump_session s r)
      → Inv p w' (bump_session s' r)
  moved-Inv s s' w w' r e f v =
      subst (λ (y : Session × World). Inv p y.1 (bump_session y.0 r)) (λ i. (e i, f i)) v

  -- The flag is as it was, and the signal is emitted exactly if it was not set.
  setup_flags :
      (fuel : ℕ) (in_progress flag ready : Bool) (s s' : Session) (w w' : World)
      → setup p fuel in_progress s w ≡ done (flag, ready, s', w')
      → (ready ≡ not in_progress) × (flag ≡ in_progress)
  unfolding setup setup_begin setup_end
  setup_flags fuel true flag ready s s' w w' h = (ground arith, ground arith)
  setup_flags fuel false flag ready s s' w w' h = from (setup_body p fuel s w) refl
    where
      from :
          (x : Outcome (Session × World))
          → setup_body p fuel s w ≡ x
          → (ready ≡ not false) × (flag ≡ false)
      from fatal e = cc (rw (setup, e) at h)
      from endless e = cc (rw (setup, e) at h)
      from (done (t, u)) e = let g = rw (setup, e) at h in (ground arith, ground arith)

  -- If `setup` gets to its end, it keeps the invariant, where the pointers of the session's
  -- feedbacks are counted on top of all others. It emits `setupReady` exactly if the flag was not
  -- set, and leaves the flag as it was.
  setup-Inv :
      (fuel : ℕ) (in_progress flag ready : Bool) (s s' : Session) (w w' : World) (r : ℕ → ℕ)
      → setup p fuel in_progress s w ≡ done (flag, ready, s', w')
      → Inv p w (bump_session s r)
      → Inv p w' (bump_session s' r) × (ready ≡ not in_progress) × (flag ≡ in_progress)
  setup-Inv fuel in_progress flag ready s s' w w' r h v =
      let (emitted, left) = setup_flags fuel in_progress flag ready s s' w w' h in
      (
        elim (setup_cases p fuel in_progress flag ready s s' w w' h) [
          | inl (same_s, same_w) ↦ moved-Inv s s' w w' r same_s same_w v
          | inr (lists, mapped_s, mapped_w) ↦
              moved-Inv _ s' _ w' r mapped_s mapped_w (map_feedbacks-Inv lists s w r v)
        ],
        emitted,
        left,
      )

  -- If `themeChanged` gets to its end, it keeps the invariant: the handles that the old theme's
  -- directories gave are given up, and those of the new theme are counted.
  theme_changed-Inv :
      (fuel : ℕ) (theme : Text) (s s' : Session) (w w' : World) (r : ℕ → ℕ)
      → theme_changed p fuel theme s w ≡ done (s', w')
      → Inv p w (bump_session s r)
      → Inv p w' (bump_session s' r)
  theme_changed-Inv fuel theme s s' w w' r h v =
      let (lists, e) = theme_changed_cases p fuel theme s s' w w' h in
      moved-Inv _ s' _ w' r (ap (λ (x : Session × World). x.0) e)
        (ap (λ (x : Session × World). x.1) e) (reload_feedbacks-Inv lists s w r v)

  -- Nobody points to a handle, so there is none, and the cache is empty.
  pub Inv-none_left :
      (w : World)
      → Inv p w (λ o. 0)
      → ((o : ℕ) → w.object o ≡ none) × ((k : Text) → lookup k w.feedback_handle_hash ≡ none)
  Inv-none_left w v = (
    λ o. elim (Option-cases (w.object o)) [
      | inl e ↦ e
      | inr (h, e) ↦ absurd (omega (arith, (v.counted o h e).1))
    ],
    λ k. elim (Option-cases (lookup k w.feedback_handle_hash)) [
      | inl e ↦ e
      | inr (o, e) ↦ let a = v.alive k o e in absurd (omega (arith, (v.counted o a.0 a.1).1))
    ],
  )

  pub destroy_session-Inv :
      (s : Session) (w : World) (r : ℕ → ℕ)
      → Inv p w (bump_session s r)
      → Inv p (destroy_session p s w) r
  unfolding destroy_session
  destroy_session-Inv s w r v =
      destroy_children-Inv s.orphans (destroy_hash p s.feedback_hash w) r
        (destroy_hash-Inv s.feedback_hash w (bump_children s.orphans r) v)

  -- Where the invariant holds with the pointers of one session's feedbacks and no others, deleting
  -- the session leaves no handle at any address and no entry in the cache.
  destroy_session-none_left :
      (s : Session) (w : World)
      → Inv p w (bump_session s (λ o. 0))
      → ((o : ℕ) → (destroy_session p s w).object o ≡ none)
        × ((k : Text) → lookup k (destroy_session p s w).feedback_handle_hash ≡ none)
  destroy_session-none_left s w v =
      Inv-none_left (destroy_session p s w) (destroy_session-Inv s w (λ o. 0) v)
