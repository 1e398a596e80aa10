-- ===== src/Session/Ends.antt =====
-- The end of `setup`, and the lists that it maps.
use touch_feedback.Base.{
  ℕ, ◌+◌, ◌<◌, ◌≡◌, refl, ap, ◌≢◌, true, false, Option, none, some, List, [], ◌∷◌, arith, length,
  get_or,
}
use touch_feedback.Base.Text.{Text}
use touch_feedback.World.{Platform, World}
use touch_feedback.Theme.{
  done, get_feedback_dir_lists, theme_dirs_or_default, dir_lists, fallback_index,
}
use touch_feedback.Theme.Chain.{IsChain, get_theme_inheritance_chain_complete}
use touch_feedback.Theme.Names.{AllNamed, own_lists, feedback_names, dir_lists-AllNamed}
use touch_feedback.Theme.Fallback.{followed_by}
use touch_feedback.Session.{
  Session, map_feedbacks, setup_body, setup, setup_begin, setup_end, theme_changed,
  reload_feedbacks,
}

module _ (p : Platform) where
  -- For a theme with a declared chain the directories of the feedbacks are those of this chain.
  pub get_feedback_dir_lists-IsChain :
      (theme app_name d : Text) (dirs : List Text)
      → IsChain p theme (d ∷ dirs)
      → (n : ℕ)
      → get_feedback_dir_lists p (length (d ∷ dirs) + n) theme app_name
        ≡ done (dir_lists p app_name d dirs)
  unfolding get_feedback_dir_lists theme_dirs_or_default
  get_feedback_dir_lists-IsChain theme app_name d dirs c n =
      rw (get_theme_inheritance_chain_complete p theme (d ∷ dirs) c n) refl

  head_lem :
      (names : List Text) (lists result : List (List Text)) (k : Option ℕ)
      → 0 < length names
      → AllNamed names lists
      → get_or result 0 [] ≡ followed_by lists 0 k
      → result ≢ []
  head_lem [] lists result k more all e = absurd (omega (arith, more))
  head_lem (m ∷ names) [] result k more all e = absurd all
  head_lem (m ∷ names) ([] ∷ lists) result k more all e = absurd all
  head_lem (m ∷ names) ((x ∷ l) ∷ lists) (y ∷ ys) k more all e = λ h. cc
  head_lem (m ∷ names) ((x ∷ l) ∷ lists) [] none more all e = λ h. cc
  head_lem (m ∷ names) ((x ∷ l) ∷ lists) [] (some j) more all e = λ h. cc

  -- Where the default theme has a feedback, there is a list.
  dir_lists-nonempty :
      (app_name d : Text) (dirs : List Text)
      → 0 < length (feedback_names p app_name d)
      → dir_lists p app_name d dirs ≢ []
  dir_lists-nonempty app_name d dirs more = from (feedback_names p app_name d) refl
    where
      from : (x : List Text) → feedback_names p app_name d ≡ x → dir_lists p app_name d dirs ≢ []
      from [] e = absurd (omega (arith, more, ap length e))
      from (n ∷ names) e =
          let both = dir_lists-AllNamed p app_name d dirs 0 n (rw e refl) in
          head_lem (feedback_names p app_name d) (own_lists p app_name d dirs)
            (dir_lists p app_name d dirs) (fallback_index (feedback_names p app_name d) n) more
            both.0 both.1

  -- If no other setup is under way, the theme has a declared chain, and the default theme has a
  -- feedback, then `setup` gets to its end with fuel for the chain: it emits `setupReady`, clears
  -- the flag, and leaves the feedbacks of the chain's directories mapped.
  pub setup-mapped :
      (s : Session) (w : World) (d : Text) (dirs : List Text)
      → IsChain p w.current_theme_name (d ∷ dirs)
      → 0 < length (feedback_names p s.app_name d)
      → (n : ℕ)
      → setup p (length (d ∷ dirs) + n) false s w
        ≡ done (
          false,
          true,
          record (map_feedbacks p (dir_lists p s.app_name d dirs) s w).0 { setup_finished = true },
          (map_feedbacks p (dir_lists p s.app_name d dirs) s w).1,
        )
  unfolding setup setup_body setup_begin setup_end
  setup-mapped s w d dirs c more n = from (dir_lists p s.app_name d dirs) refl
    where
      from :
          (x : List (List Text))
          → dir_lists p s.app_name d dirs ≡ x
          → setup p (length (d ∷ dirs) + n) false s w
            ≡ done (
              false,
              true,
              record (map_feedbacks p (dir_lists p s.app_name d dirs) s w).0 {
                setup_finished = true;
              },
              (map_feedbacks p (dir_lists p s.app_name d dirs) s w).1,
            )
      from [] e = absurd (dir_lists-nonempty s.app_name d dirs more e)
      from (l ∷ lists) e =
          rw (get_feedback_dir_lists-IsChain w.current_theme_name s.app_name d dirs c n, e) refl

  -- For a theme with a declared chain, `themeChanged` gets to its end with fuel for the chain, and
  -- loads the feedbacks that the session has anew, from the chain's directories.
  pub theme_changed-reload_feedbacks :
      (s : Session) (w : World) (theme d : Text) (dirs : List Text)
      → IsChain p theme (d ∷ dirs)
      → (n : ℕ)
      → theme_changed p (length (d ∷ dirs) + n) theme s w
        ≡ done (reload_feedbacks p (dir_lists p s.app_name d dirs) s w)
  unfolding theme_changed
  theme_changed-reload_feedbacks s w theme d dirs c n =
      rw (get_feedback_dir_lists-IsChain theme s.app_name d dirs c n) refl
