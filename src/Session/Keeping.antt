-- ===== src/Session/Keeping.antt =====
-- A predicate on the state, over setting up, reloading and deleting a session.
use touch_feedback.Base.{
  ℕ, ◌≡◌, refl, Bool, true, false, List, [], ◌∷◌, arith, ◌⊎◌, Option-cases, inl, inr,
}
use touch_feedback.Base.Text.{Text, last_section}
use touch_feedback.Base.Dict.{Dict, lookup}
use touch_feedback.World.{Platform, World}
use touch_feedback.Feedback.{Feedback, new_feedback, load_feedback, destroy_feedback}
use touch_feedback.Feedback.Keeping.{Keeps, load_feedback-Keeps, destroy_feedback-Keeps}
use touch_feedback.Theme.{Outcome, done, fatal, endless, get_feedback_dir_lists}
use touch_feedback.Session.{
  Session, add_feedback, map_feedbacks, setup_body, setup, setup_begin, setup_end, reload_feedbacks,
  theme_changed, destroy_hash, destroy_children, destroy_session,
}

module _ (p : Platform) (P : World → Type 0) (k : Keeps p P) where
  pub map_feedbacks-Keeps :
      (lists : List (List Text)) (s : Session) (w : World) → P w → P (map_feedbacks p lists s w).1
  unfolding map_feedbacks
  map_feedbacks-Keeps [] s w v = v
  map_feedbacks-Keeps (dirs ∷ lists) s w v =
      let loaded = load_feedback p dirs (new_feedback w) w in
      map_feedbacks-Keeps lists (add_feedback loaded.0 s) loaded.1
        (load_feedback-Keeps p P k dirs (new_feedback w) w v)

  pub reload_feedbacks-Keeps :
      (lists : List (List Text)) (s : Session) (w : World)
      → P w
      → P (reload_feedbacks p lists s w).1
  unfolding reload_feedbacks
  reload_feedbacks-Keeps [] s w v = v
  reload_feedbacks-Keeps ([] ∷ lists) s w v = reload_feedbacks-Keeps lists s w v
  reload_feedbacks-Keeps ((dir ∷ dirs) ∷ lists) s w v =
      elim (Option-cases (lookup (last_section b'/' dir) s.feedback_hash)) [
        | inl unknown ↦ rw (unknown, reload_feedbacks) (reload_feedbacks-Keeps lists s w v)
        | inr (f, known) ↦
            rw (known, reload_feedbacks)
              (reload_feedbacks-Keeps lists _ _ (load_feedback-Keeps p P k (dir ∷ dirs) f w v))
      ]

  destroy_hash-Keeps : (d : Dict Feedback) (w : World) → P w → P (destroy_hash p d w)
  unfolding destroy_hash
  destroy_hash-Keeps [] w v = v
  destroy_hash-Keeps ((key, f) ∷ fs) w v =
      destroy_hash-Keeps fs (destroy_feedback p f w) (destroy_feedback-Keeps p P k f w v)

  destroy_children-Keeps : (fs : List Feedback) (w : World) → P w → P (destroy_children p fs w)
  unfolding destroy_children
  destroy_children-Keeps [] w v = v
  destroy_children-Keeps (f ∷ fs) w v =
      destroy_children-Keeps fs (destroy_feedback p f w) (destroy_feedback-Keeps p P k f w v)

  pub destroy_session-Keeps : (s : Session) (w : World) → P w → P (destroy_session p s w)
  unfolding destroy_session
  destroy_session-Keeps s w v =
      destroy_children-Keeps s.orphans (destroy_hash p s.feedback_hash w)
        (destroy_hash-Keeps s.feedback_hash w v)

module _ (p : Platform) where
  -- What `setup` leaves if it gets to its end: nothing new if another setup is under way, and
  -- otherwise the feedbacks of some lists mapped.
  abbrev pub SetUp : Session → World → Session → World → Type 0
  SetUp s w s' w' =
      ((s ≡ s') × (w ≡ w'))
      ⊎ ((lists : List (List Text)) × (record (map_feedbacks p lists s w).0 {
        setup_finished = true;
      }
            ≡ s')
          × ((map_feedbacks p lists s w).1 ≡ w'))

  setup_body_cases :
      (fuel : ℕ) (s s' : Session) (w w' : World)
      → setup_body p fuel s w ≡ done (s', w')
      → SetUp s w s' w'
  unfolding setup_body
  setup_body_cases fuel s s' w w' h =
      from (get_feedback_dir_lists p fuel w.current_theme_name s.app_name) refl
    where
      from :
          (x : Outcome (List (List Text)))
          → get_feedback_dir_lists p fuel w.current_theme_name s.app_name ≡ x
          → SetUp s w s' w'
      from fatal e = cc (rw (setup_body, e) at h)
      from endless e = cc (rw (setup_body, e) at h)
      from (done []) e = cc (rw (setup_body, e) at h)
      from (done (dirs ∷ more)) e = let g = rw (setup_body, e) at h in inr (dirs ∷ more, cc g, cc g)

  pub setup_cases :
      (fuel : ℕ) (in_progress flag ready : Bool) (s s' : Session) (w w' : World)
      → setup p fuel in_progress s w ≡ done (flag, ready, s', w')
      → SetUp s w s' w'
  unfolding setup setup_begin setup_end
  setup_cases fuel true flag ready s s' w w' h = inl (cc, cc)
  setup_cases fuel false flag ready s s' w w' h = from (setup_body p fuel s w) refl
    where
      from : (x : Outcome (Session × World)) → setup_body p fuel s w ≡ x → SetUp s w s' w'
      from fatal e = cc (rw (setup, e) at h)
      from endless e = cc (rw (setup, e) at h)
      from (done (t, u)) e =
          let g = rw (setup, e) at h in setup_body_cases fuel s s' w w' (ground (arith, e))

  pub theme_changed_cases :
      (fuel : ℕ) (theme : Text) (s s' : Session) (w w' : World)
      → theme_changed p fuel theme s w ≡ done (s', w')
      → (lists : List (List Text)) × (reload_feedbacks p lists s w ≡ (s', w'))
  unfolding theme_changed
  theme_changed_cases fuel theme s s' w w' h =
      from (get_feedback_dir_lists p fuel theme s.app_name) refl
    where
      from :
          (x : Outcome (List (List Text)))
          → get_feedback_dir_lists p fuel theme s.app_name ≡ x
          → (lists : List (List Text)) × (reload_feedbacks p lists s w ≡ (s', w'))
      from fatal e = cc (rw (theme_changed, e) at h)
      from endless e = cc (rw (theme_changed, e) at h)
      from (done lists) e = let g = rw (theme_changed, e) at h in (lists, cc g)
