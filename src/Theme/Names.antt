-- ===== src/Theme/Names.antt =====
-- The lists that `getFeedbackDirLists` returns, and the names of the feedbacks they belong to.
use touch_feedback.Base.{
  ℕ, ◌≤◌, ◌≡◌, refl, ◌∙◌, Option, none, some, List, [], ◌∷◌, ◌++◌, map, arith, length, get_elem?,
  get_or, All, subst,
}
use touch_feedback.Base.Text.{Text, text_eq_iff}
use touch_feedback.World.{Platform}
use touch_feedback.Theme.Fallback.{followed_by, find_feedback_fallback_paths_lem}
use touch_feedback.Theme.{
  fallback_index, name_of, prepend_dir, prepend_dirs, override_first, override_dirs, initial_lists,
  default_names, add_themes, get_feedback_dirs_from_path, get_feedback_dirs_of_a_theme,
  theme_feedbacks_dir, app_feedbacks_dir, dir_lists,
}

-- One list for each name, in order, not empty, and every directory in it has that name.
abbrev pub AllNamed : List Text → List (List Text) → Type 0
AllNamed [] [] = Unit {0}
AllNamed [] (l ∷ lists) = ⊥
AllNamed (n ∷ names) [] = ⊥
AllNamed (n ∷ names) ([] ∷ lists) = ⊥
AllNamed (n ∷ names) ((d ∷ l) ∷ lists) = All (λ e. name_of e ≡ n) (d ∷ l) × AllNamed names lists

pub prepend_dir-AllNamed :
    (defaults : List Text) (dir : Text) (names : List Text) (lists : List (List Text))
    → AllNamed names lists
    → AllNamed names (prepend_dir defaults dir names lists)
unfolding prepend_dir
prepend_dir-AllNamed defaults dir [] [] h = tt
prepend_dir-AllNamed defaults dir [] (l ∷ lists) h = absurd h
prepend_dir-AllNamed defaults dir (n ∷ names) [] h = absurd h
prepend_dir-AllNamed defaults dir (n ∷ names) ([] ∷ lists) h = absurd h
prepend_dir-AllNamed defaults dir (n ∷ names) ((d ∷ l) ∷ lists) h =
    ground (arith, text_eq_iff (name_of dir) n, prepend_dir-AllNamed defaults dir names lists h.1)

prepend_dirs-AllNamed :
    (defaults dirs names : List Text) (lists : List (List Text))
    → AllNamed names lists
    → AllNamed names (prepend_dirs defaults dirs names lists)
unfolding prepend_dirs
prepend_dirs-AllNamed defaults [] names lists h = h
prepend_dirs-AllNamed defaults (dir ∷ dirs) names lists h =
    prepend_dirs-AllNamed defaults dirs names _ (prepend_dir-AllNamed defaults dir names lists h)

-- The names of the first list stand at the head of those of the second.
abbrev HeadNames : List Text → List Text → Type 0
HeadNames [] finals = Unit {0}
HeadNames (d ∷ defaults) [] = ⊥
HeadNames (d ∷ defaults) (f ∷ finals) = (name_of d ≡ name_of f) × HeadNames defaults finals

HeadNames-refl : (dirs : List Text) → HeadNames dirs dirs
HeadNames-refl [] = tt
HeadNames-refl (d ∷ dirs) = (refl, HeadNames-refl dirs)

HeadNames-trans : (a b c : List Text) → HeadNames a b → HeadNames b c → HeadNames a c
HeadNames-trans [] b c h k = tt
HeadNames-trans (x ∷ a) [] c h k = absurd h
HeadNames-trans (x ∷ a) (y ∷ b) [] h k = absurd k
HeadNames-trans (x ∷ a) (y ∷ b) (z ∷ c) h k = (h.0 ∙ k.0, HeadNames-trans a b c h.1 k.1)

HeadNames-append : (dirs more : List Text) → HeadNames dirs (dirs ++ more)
HeadNames-append [] more = tt
HeadNames-append (d ∷ dirs) more = (refl, HeadNames-append dirs more)

abbrev HeadNames? : List Text → Option (List Text) → Type 0
HeadNames? dirs none = Unit {0}
HeadNames? dirs (some es) = HeadNames dirs es

override_first-HeadNames : (a : Text) (dirs : List Text) → HeadNames? dirs (override_first a dirs)
unfolding override_first
override_first-HeadNames a [] = tt
override_first-HeadNames a (d ∷ dirs) = ground (
  arith,
  text_eq_iff (name_of a) (name_of d),
  override_first-HeadNames a dirs,
  HeadNames-refl dirs,
)

override_dirs-HeadNames : (app_dirs dirs : List Text) → HeadNames dirs (override_dirs app_dirs dirs)
unfolding override_dirs
override_dirs-HeadNames [] dirs = HeadNames-refl dirs
override_dirs-HeadNames (a ∷ app_dirs) dirs =
    from (override_first a dirs) refl (override_dirs-HeadNames app_dirs)
  where
    from :
        (o : Option (List Text))
        → override_first a dirs ≡ o
        → ((l : List Text) → HeadNames l (override_dirs app_dirs l))
        → HeadNames dirs (override_dirs (a ∷ app_dirs) dirs)
    from none e ih =
        rw (e, override_dirs) (HeadNames-trans dirs _ _ (HeadNames-append dirs (a ∷ [])) (ih _))
    from (some es) e ih =
        rw (e, override_dirs)
          (HeadNames-trans dirs es _ (subst (HeadNames? dirs) e (override_first-HeadNames a dirs))
            (ih es))

pub initial_lists-AllNamed :
    (defaults finals : List Text)
    → HeadNames defaults finals
    → AllNamed (map name_of finals) (initial_lists defaults finals)
unfolding initial_lists
initial_lists-AllNamed defaults [] h = tt
initial_lists-AllNamed [] (f ∷ finals) h = ((refl, tt), initial_lists-AllNamed [] finals tt)
initial_lists-AllNamed (d ∷ defaults) (f ∷ finals) h =
    ground (arith, text_eq_iff d f, initial_lists-AllNamed defaults finals h.1)

AllNamed-length :
    (names : List Text) (lists : List (List Text))
    → AllNamed names lists
    → length names ≤ length lists
AllNamed-length [] [] h = omega arith
AllNamed-length [] (l ∷ lists) h = absurd h
AllNamed-length (n ∷ names) [] h = absurd h
AllNamed-length (n ∷ names) ([] ∷ lists) h = absurd h
AllNamed-length (n ∷ names) ((d ∷ l) ∷ lists) h = omega (arith, AllNamed-length names lists h.1)

module _ (p : Platform) where
  pub get_feedback_dirs_of_a_theme-HeadNames :
      (theme_dir app_name : Text)
      → HeadNames
          (get_feedback_dirs_from_path p (theme_feedbacks_dir theme_dir))
          (get_feedback_dirs_of_a_theme p theme_dir app_name)
  unfolding get_feedback_dirs_of_a_theme
  get_feedback_dirs_of_a_theme-HeadNames theme_dir app_name =
      let dirs = get_feedback_dirs_from_path p (theme_feedbacks_dir theme_dir) in
      let more = get_feedback_dirs_from_path p (app_feedbacks_dir theme_dir app_name) in
      ground
        (arith, HeadNames-refl dirs, override_dirs-HeadNames more dirs, HeadNames-append dirs more)

  add_themes-AllNamed :
      (app_name : Text) (defaults names : List Text) (lists : List (List Text))
      (theme_dirs : List Text)
      → AllNamed names lists
      → AllNamed names (add_themes p app_name defaults names lists theme_dirs)
  unfolding add_themes
  add_themes-AllNamed app_name defaults names lists [] h = h
  add_themes-AllNamed app_name defaults names lists (theme_dir ∷ theme_dirs) h =
      add_themes-AllNamed app_name defaults names
        (prepend_dirs defaults (get_feedback_dirs_of_a_theme p theme_dir app_name) names lists)
        theme_dirs
        (prepend_dirs-AllNamed defaults (get_feedback_dirs_of_a_theme p theme_dir app_name) names
          lists h)

  -- The lists before the fallbacks are added, as `getFeedbackDirLists` builds them for a chain of
  -- theme directories.
  abbrev pub own_lists : Text → Text → List Text → List (List Text)
  own_lists app_name theme_dir theme_dirs =
      let defaults = get_feedback_dirs_from_path p (theme_feedbacks_dir theme_dir) in
      let finals = get_feedback_dirs_of_a_theme p theme_dir app_name in
      add_themes p app_name (default_names defaults finals) (map name_of finals)
        (initial_lists defaults finals) theme_dirs

  abbrev pub feedback_names : Text → Text → List Text
  feedback_names app_name theme_dir =
      map name_of (get_feedback_dirs_of_a_theme p theme_dir app_name)

  pub own_lists-AllNamed :
      (app_name theme_dir : Text) (theme_dirs : List Text)
      → AllNamed (feedback_names app_name theme_dir) (own_lists app_name theme_dir theme_dirs)
  own_lists-AllNamed app_name theme_dir theme_dirs =
      add_themes-AllNamed app_name _ _ _ theme_dirs
        (initial_lists-AllNamed _ _ (get_feedback_dirs_of_a_theme-HeadNames theme_dir app_name))

  -- Before the fallbacks there is one list for each feedback of the default theme, in the same
  -- order; it is not empty, and every directory in it ends in that feedback's name. The list that
  -- is returned for a feedback is this one, with its fallback's list behind it if it has a fallback.
  pub dir_lists-AllNamed :
      (app_name theme_dir : Text) (theme_dirs : List Text) (j : ℕ) (n : Text)
      → get_elem? (feedback_names app_name theme_dir) j ≡ some n
      → AllNamed (feedback_names app_name theme_dir) (own_lists app_name theme_dir theme_dirs)
        × (get_or (dir_lists p app_name theme_dir theme_dirs) j []
            ≡ followed_by
                (own_lists app_name theme_dir theme_dirs)
                j
                (fallback_index (feedback_names app_name theme_dir) n))
  unfolding dir_lists
  dir_lists-AllNamed app_name theme_dir theme_dirs j n at =
      let named = own_lists-AllNamed app_name theme_dir theme_dirs in
      (named, find_feedback_fallback_paths_lem _ _ j n (AllNamed-length _ _ named) at)
