-- ===== src/Theme/Default.antt =====
-- What `getFeedbackDirLists` does for a theme that has no chain.
use touch_feedback.Base.{ℕ, suc, ◌≡◌, refl, [], ◌∷◌, if◌then◌else◌, Bool-cases, inl, inr}
use touch_feedback.Base.Text.{Text, text_eq_refl}
use touch_feedback.World.{Platform}
use touch_feedback.Theme.{
  done, fatal, default_theme, theme_root, get_theme_inheritance_chain, theme_dirs_or_default,
  get_feedback_dir_lists, dir_lists,
}

module _ (p : Platform) where
  default_chain :
      (n : ℕ)
      → get_theme_inheritance_chain p (suc n) default_theme ≡ (
          if p.dir_exists (theme_root p default_theme)
          then done (theme_root p default_theme ∷ [])
          else done [])
  unfolding get_theme_inheritance_chain
  default_chain n = elim (Bool-cases (p.dir_exists (theme_root p default_theme))) [
    | inl there ↦ rw (there, text_eq_refl default_theme) refl
    | inr gone ↦ rw gone refl
  ]

  -- If the search for a theme's chain fails, the feedbacks are those of the default theme alone if
  -- its directory exists, and otherwise the process ends.
  pub get_feedback_dir_lists-default_theme :
      (n : ℕ) (theme app_name : Text)
      → get_theme_inheritance_chain p (suc n) theme ≡ done []
      → get_feedback_dir_lists p (suc n) theme app_name ≡ (
          if p.dir_exists (theme_root p default_theme)
          then done (dir_lists p app_name (theme_root p default_theme) [])
          else fatal)
  unfolding get_feedback_dir_lists theme_dirs_or_default
  get_feedback_dir_lists-default_theme n theme app_name failed =
      elim (Bool-cases (p.dir_exists (theme_root p default_theme))) [
        | inl there ↦ rw (failed, default_chain n, there) refl
        | inr gone ↦ rw (failed, default_chain n, gone) refl
      ]
