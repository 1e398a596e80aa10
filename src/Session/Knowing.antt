-- ===== src/Session/Knowing.antt =====
-- Which feedbacks a session has, over its setup and a change of the theme.
use touch_feedback.Base.{
  ℕ, ◌≡◌, refl, subst, Bool, true, false, List, [], ◌∷◌, arith, ◌⊎◌, Option-cases, inl, inr,
}
use touch_feedback.Base.Text.{Text, last_section}
use touch_feedback.Base.Dict.{Dict, lookup, insert, is_some, lookup-insert}
use touch_feedback.World.{Platform, World}
use touch_feedback.Feedback.{Feedback, new_feedback, load_feedback}
use touch_feedback.Theme.{Outcome, done, fatal, endless}
use touch_feedback.Session.{
  Session, add_feedback, map_feedbacks, setup_body, setup, setup_begin, setup_end, reload_feedbacks,
  theme_changed,
}
use touch_feedback.Session.Keeping.{setup_cases, theme_changed_cases}

-- The session has a feedback of the name.
abbrev pub Knows : Session → Text → Type 0
Knows x name = is_some (lookup name x.feedback_hash) ≡ true

-- What the first session knows the second one knows.
abbrev pub Passes : Session → Session → Type 0
Passes x y = (name : Text) → Knows x name → Knows y name

insert_lem :
    (d : Dict Feedback) (key name : Text) (f : Feedback)
    → is_some (lookup name d) ≡ true
    → is_some (lookup name (insert key f d)) ≡ true
insert_lem d key name f h = ground (arith, lookup-insert key name f d, h)

module _ (p : Platform) where
  map_feedbacks-Passes :
      (lists : List (List Text)) (x : Session) (w : World) → Passes x (map_feedbacks p lists x w).0
  unfolding map_feedbacks add_feedback
  map_feedbacks-Passes [] x w name h = h
  map_feedbacks-Passes (dirs ∷ lists) x w name h =
      let loaded = load_feedback p dirs (new_feedback w) w in
      map_feedbacks-Passes lists (add_feedback loaded.0 x) loaded.1 name
        (insert_lem x.feedback_hash loaded.0.feedback_name name loaded.0 h)

  reload_feedbacks-Passes :
      (lists : List (List Text)) (x : Session) (w : World)
      → Passes x (reload_feedbacks p lists x w).0
        × ((reload_feedbacks p lists x w).0.setup_finished ≡ x.setup_finished)
  unfolding reload_feedbacks
  reload_feedbacks-Passes [] x w = (λ name h. h, refl)
  reload_feedbacks-Passes ([] ∷ lists) x w = reload_feedbacks-Passes lists x w
  reload_feedbacks-Passes ((dir ∷ dirs) ∷ lists) x w =
      let key = last_section b'/' dir in
      elim (Option-cases (lookup key x.feedback_hash)) [
        | inl unknown ↦ rw (unknown, reload_feedbacks) (reload_feedbacks-Passes lists x w)
        | inr (f, known) ↦
            let loaded = load_feedback p (dir ∷ dirs) f w in
            let y : Session = record x { feedback_hash = insert key loaded.0 x.feedback_hash } in
            let rest = reload_feedbacks-Passes lists y loaded.1 in
            rw (known, reload_feedbacks)
              (λ name h. rest.0 name (insert_lem x.feedback_hash key name loaded.0 h), rest.1)
      ]

  -- `setupReady` is emitted, or the session is as it was.
  setup-ready :
      (fuel : ℕ) (busy flag ready : Bool) (x y : Session) (w u : World)
      → setup p fuel busy x w ≡ done (flag, ready, y, u)
      → (ready ≡ true) ⊎ (x ≡ y)
  unfolding setup setup_begin setup_end
  setup-ready fuel true flag ready x y w u h = inr (cc h)
  setup-ready fuel false flag ready x y w u h = from (setup_body p fuel x w) refl
    where
      from : (o : Outcome (Session × World)) → setup_body p fuel x w ≡ o → (ready ≡ true) ⊎ (x ≡ y)
      from fatal e = cc (rw (setup, e) at h)
      from endless e = cc (rw (setup, e) at h)
      from (done (t, v)) e = let g = rw (setup, e) at h in inl (cc g)

  pub setup-Passes :
      (fuel : ℕ) (busy flag ready : Bool) (x y : Session) (w u : World)
      → setup p fuel busy x w ≡ done (flag, ready, y, u)
      → Passes x y × ((ready ≡ true) ⊎ (x ≡ y))
  setup-Passes fuel busy flag ready x y w u h = (
    elim (setup_cases p fuel busy flag ready x y w u h) [
      | inl same ↦ subst (Passes x) same.0 (λ name k. k)
      | inr (lists, eq_y, eq_u) ↦ subst (Passes x) eq_y (map_feedbacks-Passes lists x w)
    ],
    setup-ready fuel busy flag ready x y w u h,
  )

  pub theme_changed-Passes :
      (fuel : ℕ) (theme : Text) (x y : Session) (w u : World)
      → theme_changed p fuel theme x w ≡ done (y, u)
      → Passes x y × (y.setup_finished ≡ x.setup_finished)
  theme_changed-Passes fuel theme x y w u h =
      let (lists, eq) = theme_changed_cases p fuel theme x y w u h in
      subst (λ (r : Session × World). Passes x r.0 × (r.0.setup_finished ≡ x.setup_finished)) eq
        (reload_feedbacks-Passes lists x w)
