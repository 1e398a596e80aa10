-- ===== src/Theme.antt =====
-- src/lib/mfutil.cpp: which directories hold an application's feedbacks under a theme. `fatal`
-- stands for qFatal, which ends the process, and `endless` for a recursion that used up its fuel.
pub mod Chain
pub mod Names
pub mod Order
pub mod Fallback
pub mod Default
use touch_feedback.Base.{
  ℕ, zero, suc, ◌≡◌, Bool, true, false, not, ◌&&◌, ◌||◌, Option, none, some, List, [], ◌∷◌, ◌++◌,
  map, ◌==◌, leb, if◌then◌else◌, is_empty, length, get_or, set, keep, any, every, contains,
}
use touch_feedback.Base.Text.{
  Text, codes, text_eq, first_section_skip_empty, last_section, third_last_section,
}
use touch_feedback.World.{Platform}

pub data Outcome {ℓ} (A : Type ℓ) : Type ℓ where
  done : A → Outcome A
  fatal endless : Outcome A

infixl 5 ◌>>=◌
abbrev pub ◌>>=◌ {ℓ κ} : {A : Type ℓ} {B : Type κ} → Outcome A → (A → Outcome B) → Outcome B
done a >>= f = f a
fatal >>= f = fatal
endless >>= f = endless

abbrev pub default_theme : Text
default_theme = codes "base"

-- `dir += QDir::separator(); dir += name;`
abbrev pub join : Text → Text → Text
join dir name = dir ++ b'/' ∷ name

-- The name of the feedback in a directory.
abbrev pub name_of : Text → Text
name_of dir = last_section b'/' dir

abbrev pub has_text : Text → List Text → Bool
has_text t ts = any (λ s. text_eq s t) ts

-- `list.indexOf(t)`
abbrev pub index_of_text : Text → List Text → Option ℕ
index_of_text t [] = none
index_of_text t (s ∷ ts) =
    if text_eq s t
    then some 0
    else (elim (index_of_text t ts) [ none ↦ none | some i ↦ some (suc i) ])

-- "^[a-z0-9_.-]+$"
unfoldable pub is_name_char : ℕ → Bool
is_name_char c =
    (leb b'a' c && leb c b'z') || (leb b'0' c && leb c b'9') || c == b'_' || c == b'.' || c == b'-'

unfoldable pub is_valid_name : Text → Bool
unfolding is_name_char
is_valid_name s = not (is_empty s) && every is_name_char s

-- "<theme>/meegotouch/feedbacks/"
abbrev pub theme_feedbacks_dir : Text → Text
theme_feedbacks_dir theme_dir =
    join (join (join theme_dir (codes "meegotouch")) (codes "feedbacks")) []

-- "<theme>/meegotouch/<application>/feedbacks/"
abbrev pub app_feedbacks_dir : Text → Text → Text
app_feedbacks_dir theme_dir app_name =
    join (join (join (join theme_dir (codes "meegotouch")) app_name) (codes "feedbacks")) []

-- The first directory of the same name gives way to the application's, if there is one.
unfoldable pub override_first : Text → List Text → Option (List Text)
override_first a [] = none
override_first a (d ∷ ds) =
    if text_eq (name_of a) (name_of d)
    then some (a ∷ ds)
    else (elim (override_first a ds) [ none ↦ none | some es ↦ some (d ∷ es) ])

-- The loop for the default theme: an application's directory overrides or is added at the end.
unfoldable pub override_dirs : List Text → List Text → List Text
unfolding override_first
override_dirs [] dirs = dirs
override_dirs (a ∷ app_dirs) dirs =
    override_dirs app_dirs (elim (override_first a dirs) [ none ↦ dirs ++ a ∷ [] | some ds ↦ ds ])

-- The lists at first: the default theme's directory, and behind it the common one that it overrides.
unfoldable pub initial_lists : List Text → List Text → List (List Text)
initial_lists defaults [] = []
initial_lists [] (f ∷ finals) = (f ∷ []) ∷ initial_lists [] finals
initial_lists (d ∷ defaults) (f ∷ finals) =
    (if text_eq d f then f ∷ [] else f ∷ d ∷ []) ∷ initial_lists defaults finals

-- The default directories, those below the length of the other list cut down to their names.
unfoldable pub default_names : List Text → List Text → List Text
default_names [] finals = []
default_names (d ∷ defaults) [] = d ∷ defaults
default_names (d ∷ defaults) (f ∷ finals) = name_of d ∷ default_names defaults finals

-- The innermost loop: a directory goes to the front of the list of its name, but a common one only
-- where the default theme has a common feedback of that name.
unfoldable pub prepend_dir : List Text → Text → List Text → List (List Text) → List (List Text)
prepend_dir defaults dir [] lists = lists
prepend_dir defaults dir (n ∷ names) [] = []
prepend_dir defaults dir (n ∷ names) (l ∷ lists) =
    let rest = l ∷ prepend_dir defaults dir names lists in
    if not (has_text n defaults) && text_eq (third_last_section b'/' dir) (codes "meegotouch")
    then rest
    else if text_eq (name_of dir) n
    then (dir ∷ l) ∷ lists
    else rest

unfoldable pub prepend_dirs :
    List Text → List Text → List Text → List (List Text) → List (List Text)
unfolding prepend_dir
prepend_dirs defaults [] names lists = lists
prepend_dirs defaults (dir ∷ dirs) names lists =
    prepend_dirs defaults dirs names (prepend_dir defaults dir names lists)

-- The feedback that stands in for one whose name has a dash: that of the part before the dash.
unfoldable pub fallback_index : List Text → Text → Option ℕ
fallback_index names n =
    let base_name = first_section_skip_empty b'-' n in
    if contains b'-' n
    then (if is_empty base_name then none else index_of_text base_name names)
    else none

-- `feedbackDirLists[i] << feedbackDirLists[k]`
abbrev pub append_list : ℕ → Option ℕ → List (List Text) → List (List Text)
append_list i none lists = lists
append_list i (some k) lists = set lists i (get_or lists i [] ++ get_or lists k [])

-- The loop of `findFeedbackFallbackPaths` from the index i on, which writes to the lists in place.
unfoldable pub fallback_loop : List Text → ℕ → List Text → List (List Text) → List (List Text)
unfolding fallback_index
fallback_loop names i [] lists = lists
fallback_loop names i (n ∷ todo) lists =
    fallback_loop names (suc i) todo (append_list i (fallback_index names n) lists)

unfoldable pub find_feedback_fallback_paths : List Text → List (List Text) → List (List Text)
unfolding fallback_loop
find_feedback_fallback_paths names lists = fallback_loop names 0 names lists

module _ (p : Platform) where
  abbrev pub theme_root : Text → Text
  theme_root theme = join p.theme_dir_prefix theme

  abbrev pub theme_conf_file : Text → Text
  theme_conf_file theme = join (theme_root theme) (codes "index.theme")

  -- `getThemeInheritanceChain`. The empty list is its failure.
  unfoldable pub get_theme_inheritance_chain : ℕ → Text → Outcome (List Text)
  get_theme_inheritance_chain zero theme = endless
  get_theme_inheritance_chain (suc fuel) theme =
      if not (p.dir_exists (theme_root theme))
      then done []
      else if text_eq theme default_theme
      then done (theme_root theme ∷ [])
      else if not (p.file_exists (theme_conf_file theme))
      then done []
      else (elim (p.inherits (theme_conf_file theme)) [
        | none ↦ done []
        | some [] ↦ done []
        | some (c ∷ parent) ↦ elim (get_theme_inheritance_chain fuel (c ∷ parent)) [
          | done [] ↦ done []
          | done (d ∷ dirs) ↦ done (d ∷ dirs ++ theme_root theme ∷ [])
          | fatal ↦ fatal
          | endless ↦ endless
        ]
      ])

  unfoldable pub get_feedback_dirs_from_path : Text → List Text
  unfolding is_valid_name
  get_feedback_dirs_from_path path = map (◌++◌ path) (keep is_valid_name (p.sub_dirs path))

  unfoldable pub get_feedback_dirs_of_a_theme : Text → Text → List Text
  unfolding get_feedback_dirs_from_path override_dirs
  get_feedback_dirs_of_a_theme theme_dir app_name =
      let dirs = get_feedback_dirs_from_path (theme_feedbacks_dir theme_dir) in
      let app_dir = app_feedbacks_dir theme_dir app_name in
      if not (p.dir_exists app_dir)
      then dirs
      else if text_eq (name_of theme_dir) default_theme
      then override_dirs (get_feedback_dirs_from_path app_dir) dirs
      else dirs ++ get_feedback_dirs_from_path app_dir

  unfoldable pub get_feedback_names : Text → Outcome (List Text)
  unfolding get_feedback_dirs_of_a_theme
  get_feedback_names app_name =
      if not (p.dir_exists (theme_root default_theme))
      then fatal
      else done (map name_of (get_feedback_dirs_of_a_theme (theme_root default_theme) app_name))

  -- The loop over the themes above the default one.
  unfoldable pub add_themes :
      Text → List Text → List Text → List (List Text) → List Text → List (List Text)
  unfolding prepend_dirs get_feedback_dirs_of_a_theme
  add_themes app_name defaults names lists [] = lists
  add_themes app_name defaults names lists (theme_dir ∷ theme_dirs) =
      add_themes app_name defaults names
        (prepend_dirs defaults (get_feedback_dirs_of_a_theme theme_dir app_name) names lists)
        theme_dirs

  -- What `getFeedbackDirLists` does for the directories of a chain, the default theme's first.
  unfoldable pub dir_lists : Text → Text → List Text → List (List Text)
  unfolding add_themes initial_lists default_names find_feedback_fallback_paths
  dir_lists app_name theme_dir theme_dirs =
      let defaults = get_feedback_dirs_from_path (theme_feedbacks_dir theme_dir) in
      let finals = get_feedback_dirs_of_a_theme theme_dir app_name in
      let names = map name_of finals in
      find_feedback_fallback_paths names (
        add_themes app_name (default_names defaults finals) names (initial_lists defaults finals)
          theme_dirs)

  -- The chain of the theme, or that of the default theme if the theme has none.
  unfoldable pub theme_dirs_or_default : ℕ → Text → Outcome (Text × List Text)
  unfolding get_theme_inheritance_chain
  theme_dirs_or_default fuel theme = do
    dirs ← get_theme_inheritance_chain fuel theme
    elim dirs [
      | d ∷ ds ↦ done (d, ds)
      | [] ↦ do
        defaults ← get_theme_inheritance_chain fuel default_theme
        elim defaults [ d ∷ ds ↦ done (d, ds) | [] ↦ fatal ]
    ]

  unfoldable pub get_feedback_dir_lists : ℕ → Text → Text → Outcome (List (List Text))
  unfolding theme_dirs_or_default dir_lists
  get_feedback_dir_lists fuel theme app_name = do
    (d, ds) ← theme_dirs_or_default fuel theme
    done (dir_lists app_name d ds)
