-- ===== src/Theme/Order.antt =====
-- The order of the directories in the lists that `getFeedbackDirLists` returns.
use touch_feedback.Base.{
  ℕ, zero, suc, ◌≡◌, refl, ◌∙◌, sym, ap, Bool, true, false, not, ◌&&◌, Option, none, some, List, [],
  ◌∷◌, ◌++◌, arith, append_assoc, get_or, get_elem?, if◌then◌else◌, Bool-cases, inl, inr,
  Option-cases,
}
use touch_feedback.Base.Text.{
  Text, codes, text_eq, text_eq_iff, third_last_section, first_section_skip_empty,
}
use touch_feedback.World.{Platform}
use touch_feedback.Theme.{
  has_text, index_of_text, name_of, prepend_dir, prepend_dirs, add_themes, default_names,
  initial_lists, fallback_index, theme_feedbacks_dir, get_feedback_dirs_from_path,
  get_feedback_dirs_of_a_theme, dir_lists,
}
use touch_feedback.Theme.Fallback.{followed_by}
use touch_feedback.Theme.Names.{
  AllNamed, prepend_dir-AllNamed, own_lists, feedback_names, dir_lists-AllNamed,
  initial_lists-AllNamed, get_feedback_dirs_of_a_theme-HeadNames,
}

-- Does a directory go to the list of the feedback n?
abbrev pub goes_to : List Text → Text → Text → Bool
goes_to defaults n dir =
    not (not (has_text n defaults) && text_eq (third_last_section b'/' dir) (codes "meegotouch"))
    && text_eq (name_of dir) n

-- The directories that go to the list of n, the last one first.
abbrev pub gathered : List Text → Text → List Text → List Text
gathered defaults n [] = []
gathered defaults n (dir ∷ dirs) =
    let rest = gathered defaults n dirs in if goes_to defaults n dir then rest ++ dir ∷ [] else rest

index_of_text-zero : (n m : Text) (names : List Text) → index_of_text n (m ∷ names) ≡ some 0 → m ≡ n
index_of_text-zero n m names at = elim (Bool-cases (text_eq m n)) [
  | inl hit ↦ ground (arith, text_eq_iff m n, hit)
  | inr miss ↦ elim (Option-cases (index_of_text n names)) [
    | inl nowhere ↦ cc (rw (miss, nowhere) at at)
    | inr (i, e) ↦ absurd (ground (arith, rw (miss, e) at at))
  ]
]

index_of_text-suc :
    (n m : Text) (names : List Text) (j : ℕ)
    → index_of_text n (m ∷ names) ≡ some (suc j)
    → (text_eq m n ≡ false) × (index_of_text n names ≡ some j)
index_of_text-suc n m names j at = elim (Bool-cases (text_eq m n)) [
  | inl hit ↦ absurd (ground (arith, rw hit at at))
  | inr miss ↦ elim (Option-cases (index_of_text n names)) [
    | inl nowhere ↦ cc (rw (miss, nowhere) at at)
    | inr (i, e) ↦ ground (arith, miss, e, rw (miss, e) at at)
  ]
]

prepend_dir-get_or :
    (defaults : List Text) (dir n : Text) (j : ℕ) (names : List Text) (lists : List (List Text))
    → AllNamed names lists
    → index_of_text n names ≡ some j
    → get_or (prepend_dir defaults dir names lists) j []
      ≡ (if goes_to defaults n dir then dir ∷ get_or lists j [] else get_or lists j [])
unfolding prepend_dir
prepend_dir-get_or defaults dir n j [] lists h at = cc
prepend_dir-get_or defaults dir n j (m ∷ names) [] h at = absurd h
prepend_dir-get_or defaults dir n j (m ∷ names) ([] ∷ lists) h at = absurd h
prepend_dir-get_or defaults dir n zero (m ∷ names) ((d ∷ l) ∷ lists) h at =
    rw (sym (index_of_text-zero n m names at)) (ground arith)
prepend_dir-get_or defaults dir n (suc j) (m ∷ names) ((d ∷ l) ∷ lists) h at =
    let (other, later) = index_of_text-suc n m names j at in
    ground (
      arith,
      prepend_dir-get_or defaults dir n j names lists h.1 later,
      text_eq_iff (name_of dir) m,
      text_eq_iff (name_of dir) n,
      text_eq_iff m n,
      other,
    )

prepend_dirs-get_or :
    (defaults dirs : List Text) (n : Text) (j : ℕ) (names : List Text) (lists : List (List Text))
    → AllNamed names lists
    → index_of_text n names ≡ some j
    → get_or (prepend_dirs defaults dirs names lists) j []
      ≡ gathered defaults n dirs ++ get_or lists j []
unfolding prepend_dirs
prepend_dirs-get_or defaults [] n j names lists h at = refl
prepend_dirs-get_or defaults (dir ∷ dirs) n j names lists h at =
    prepend_dirs-get_or defaults dirs n j names (prepend_dir defaults dir names lists)
      (prepend_dir-AllNamed defaults dir names lists h) at
    ∙ ap (λ (l : List Text). gathered defaults n dirs ++ l)
        (prepend_dir-get_or defaults dir n j names lists h at)
    ∙ from (goes_to defaults n dir) (gathered defaults n dirs) (get_or lists j [])
  where
    from :
        (b : Bool) (rest l : List Text)
        → rest ++ (if b then dir ∷ l else l) ≡ (if b then rest ++ dir ∷ [] else rest) ++ l
    from true rest l = sym (append_assoc rest (dir ∷ []) l)
    from false rest l = refl

prepend_dirs-append :
    (defaults xs ys names : List Text) (lists : List (List Text))
    → prepend_dirs defaults (xs ++ ys) names lists
      ≡ prepend_dirs defaults ys names (prepend_dirs defaults xs names lists)
unfolding prepend_dirs
prepend_dirs-append defaults [] ys names lists = refl
prepend_dirs-append defaults (x ∷ xs) ys names lists =
    prepend_dirs-append defaults xs ys names (prepend_dir defaults x names lists)

-- The fallback is the feedback that the part of the name before the dash names.
fallback_index-index_of_text :
    (names : List Text) (n : Text) (k : ℕ)
    → fallback_index names n ≡ some k
    → index_of_text (first_section_skip_empty b'-' n) names ≡ some k
unfolding fallback_index
fallback_index-index_of_text names n k e = ground (arith, e)

index_of_text-get_elem? :
    (n : Text) (j : ℕ) (names : List Text)
    → index_of_text n names ≡ some j
    → get_elem? names j ≡ some n
index_of_text-get_elem? n j [] at = cc
index_of_text-get_elem? n zero (m ∷ names) at =
    ap (λ (t : Text). some t) (index_of_text-zero n m names at)
index_of_text-get_elem? n (suc j) (m ∷ names) at =
    index_of_text-get_elem? n j names (index_of_text-suc n m names j at).1

module _ (p : Platform) (app_name theme_dir : Text) (theme_dirs : List Text) where
  -- The directories of the themes after the default one, in the order of the chain.
  abbrev pub dirs_of_themes : List Text → List Text
  dirs_of_themes [] = []
  dirs_of_themes (t ∷ ts) = get_feedback_dirs_of_a_theme p t app_name ++ dirs_of_themes ts

  -- What the default theme has for the j-th feedback.
  abbrev pub default_dirs : ℕ → List Text
  default_dirs j =
      get_or
        (initial_lists (get_feedback_dirs_from_path p (theme_feedbacks_dir theme_dir))
          (get_feedback_dirs_of_a_theme p theme_dir app_name))
        j []

  -- The own directories of the feedback n, the j-th: those of the last theme of the chain first.
  abbrev pub own_dirs : Text → ℕ → List Text
  own_dirs n j =
      gathered
        (default_names (get_feedback_dirs_from_path p (theme_feedbacks_dir theme_dir))
          (get_feedback_dirs_of_a_theme p theme_dir app_name))
        n (dirs_of_themes theme_dirs)
      ++ default_dirs j

  add_themes-prepend_dirs :
      (defaults names : List Text) (lists : List (List Text)) (ts : List Text)
      → add_themes p app_name defaults names lists ts
        ≡ prepend_dirs defaults (dirs_of_themes ts) names lists
  unfolding add_themes prepend_dirs
  add_themes-prepend_dirs defaults names lists [] = refl
  add_themes-prepend_dirs defaults names lists (t ∷ ts) =
      add_themes-prepend_dirs defaults names
        (prepend_dirs defaults (get_feedback_dirs_of_a_theme p t app_name) names lists) ts
      ∙ sym (
          prepend_dirs-append defaults (get_feedback_dirs_of_a_theme p t app_name)
            (dirs_of_themes ts) names lists)

  own_lists-own_dirs :
      (n : Text) (j : ℕ)
      → index_of_text n (feedback_names p app_name theme_dir) ≡ some j
      → get_or (own_lists p app_name theme_dir theme_dirs) j [] ≡ own_dirs n j
  own_lists-own_dirs n j at =
      ap (λ (l : List (List Text)). get_or l j []) (add_themes-prepend_dirs _ _ _ theme_dirs)
      ∙ prepend_dirs-get_or _ (dirs_of_themes theme_dirs) n j (feedback_names p app_name theme_dir)
          _
          (initial_lists-AllNamed _ _ (get_feedback_dirs_of_a_theme-HeadNames p theme_dir app_name))
          at

  abbrev pub with_fallback : List Text → Option ℕ → (ℕ → List Text) → List Text
  with_fallback own none dirs = own
  with_fallback own (some k) dirs = own ++ dirs k

  -- The list of a feedback of the default theme, the j-th and the first of its name, has the
  -- directories of that name of the last theme of the chain first, then those of the themes before
  -- it, then that of the default theme; and behind them, if it has a fallback, the directories of the
  -- fallback in the same order. The fallback is the feedback whose name is the first of the parts
  -- between dashes that is not empty: for "-press", too, it is "press".
  pub dir_lists-own_dirs :
      (n : Text) (j : ℕ)
      → index_of_text n (feedback_names p app_name theme_dir) ≡ some j
      → get_or (dir_lists p app_name theme_dir theme_dirs) j []
        ≡ with_fallback
            (own_dirs n j)
            (fallback_index (feedback_names p app_name theme_dir) n)
            (own_dirs (first_section_skip_empty b'-' n))
  dir_lists-own_dirs n j at =
      let names = feedback_names p app_name theme_dir in
      (dir_lists-AllNamed p app_name theme_dir theme_dirs j n
        (index_of_text-get_elem? n j names at)).1
      ∙ from (fallback_index names n) refl
    where
      from :
          (o : Option ℕ)
          → fallback_index (feedback_names p app_name theme_dir) n ≡ o
          → followed_by (own_lists p app_name theme_dir theme_dirs) j o
            ≡ with_fallback (own_dirs n j) o (own_dirs (first_section_skip_empty b'-' n))
      from none e = own_lists-own_dirs n j at
      from (some k) e =
          rw
            (
              own_lists-own_dirs n j at,
              own_lists-own_dirs (first_section_skip_empty b'-' n) k
                  (fallback_index-index_of_text (feedback_names p app_name theme_dir) n k e),
            )
            refl
