-- ===== src/System/Loading.antt =====
-- `setup` and `themeChanged` leave the current theme alone.
use touch_feedback.Base.{
  ℕ, ◌≡◌, refl, ◌∙◌, sym, ap, inl, inr, ◌⊎◌, Bool, true, false, some, List, [], ◌∷◌, Option-cases,
}
use touch_feedback.Base.Text.{Text}
use touch_feedback.World.{Platform, World, update}
use touch_feedback.Handle.{delete, unload}
use touch_feedback.Cache.{unload_and_delete}
use touch_feedback.Feedback.{make_handle}
use touch_feedback.Feedback.Keeping.{Keeps}
use touch_feedback.Theme.{Outcome, done, fatal, endless, get_feedback_dir_lists}
use touch_feedback.Session.{
  Session, setup, setup_body, setup_begin, setup_end, theme_changed, map_feedbacks,
  reload_feedbacks,
}
use touch_feedback.Session.Keeping.{map_feedbacks-Keeps, reload_feedbacks-Keeps}

module _ (p : Platform) where
  -- The current theme stays.
  abbrev pub Themed : Text → World → Type 0
  Themed theme w = w.current_theme_name ≡ theme

  deleted-Themed : (theme : Text) (o : ℕ) (w : World) → Themed theme w → Themed theme (delete o w)
  unfolding delete
  deleted-Themed theme o w e = elim (Option-cases (w.object o)) [
    | inl gone ↦ rw (gone, delete) e
    | inr (h, live) ↦ rw (live, delete) e
  ]

  unloaded-Themed :
      (theme : Text) (o : ℕ) (w : World) → Themed theme w → Themed theme (unload_and_delete o w)
  unfolding unload_and_delete
  unloaded-Themed theme o w e = elim (Option-cases (w.object o)) [
    | inl gone ↦ rw (gone, unload_and_delete) e
    | inr (h, live) ↦
        rw (live, unload_and_delete)
          (let (h', calls') = unload h w.calls in
            deleted-Themed theme o
              (record w { object = update w.object o (some h'); calls = calls' }) e)
  ]

  pub Themed-Keeps : (theme : Text) → Keeps p (Themed theme)
  unfolding make_handle
  Themed-Keeps theme = record {
    recached = λ d w e. e;
    recounted = λ o h n w live e. e;
    made = λ dir i w e. e;
    deleted = deleted-Themed theme;
    unloaded = unloaded-Themed theme;
  }

  -- What `setup` leaves if it returns: it has run to its end, or has done nothing.
  pub setup-Themed :
      (fuel : ℕ) (busy flag ready : Bool) (x y : Session) (w u : World)
      → setup p fuel busy x w ≡ done (flag, ready, y, u)
      → (u.current_theme_name ≡ w.current_theme_name)
        × ((ready ≡ true) ⊎ ((ready ≡ false) × (x ≡ y)))
  unfolding setup setup_body setup_begin setup_end
  setup-Themed fuel true flag ready x y w u h = (cc, inr (cc, cc))
  setup-Themed fuel false flag ready x y w u h =
      from (get_feedback_dir_lists p fuel w.current_theme_name x.app_name) refl
    where
      from :
          (o : Outcome (List (List Text)))
          → get_feedback_dir_lists p fuel w.current_theme_name x.app_name ≡ o
          → (u.current_theme_name ≡ w.current_theme_name)
            × ((ready ≡ true) ⊎ ((ready ≡ false) × (x ≡ y)))
      from fatal e = cc (rw (setup, e) at h)
      from endless e = cc (rw (setup, e) at h)
      from (done []) e = cc (rw (setup, e) at h)
      from (done (dirs ∷ lists)) e =
          let g = rw (setup, e) at h in
          let same : (map_feedbacks p (dirs ∷ lists) x w).1 ≡ u = cc g in
          (
            ap (λ (v : World). v.current_theme_name) (sym same)
                ∙ (map_feedbacks-Keeps p (Themed w.current_theme_name)
                    (Themed-Keeps w.current_theme_name) (dirs ∷ lists) x w refl),
            inl (cc g),
          )

  pub theme_changed-Themed :
      (fuel : ℕ) (theme : Text) (x y : Session) (w u : World)
      → theme_changed p fuel theme x w ≡ done (y, u)
      → u.current_theme_name ≡ w.current_theme_name
  unfolding theme_changed
  theme_changed-Themed fuel theme x y w u h =
      from (get_feedback_dir_lists p fuel theme x.app_name) refl
    where
      from :
          (o : Outcome (List (List Text)))
          → get_feedback_dir_lists p fuel theme x.app_name ≡ o
          → u.current_theme_name ≡ w.current_theme_name
      from fatal e = cc (rw (theme_changed, e) at h)
      from endless e = cc (rw (theme_changed, e) at h)
      from (done lists) e =
          let g = rw (theme_changed, e) at h in
          let same : (reload_feedbacks p lists x w).1 ≡ u = cc g in
          ap (λ (v : World). v.current_theme_name) (sym same)
          ∙ (reload_feedbacks-Keeps p (Themed w.current_theme_name)
              (Themed-Keeps w.current_theme_name) lists x w refl)
