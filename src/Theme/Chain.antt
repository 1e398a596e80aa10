-- ===== src/Theme/Chain.antt =====
-- `getThemeInheritanceChain` against the inheritance that the themes' files declare.
use touch_feedback.Base.{
  ℕ, zero, suc, ◌+◌, ◌≡◌, refl, ◌∙◌, ap, true, false, Option, none, some, List, [], ◌∷◌, ◌++◌,
  arith, length, length-append, Bool-cases, inl, inr,
}
use touch_feedback.Base.Text.{Text, text_eq, text_eq_iff}
use touch_feedback.World.{Platform}
use touch_feedback.Theme.{
  Outcome, done, fatal, endless, default_theme, theme_root, theme_conf_file,
  get_theme_inheritance_chain,
}

module _ (p : Platform) where
  -- The directories of a theme and of its ancestors, the default theme first: each theme but the
  -- default one has a directory and an index file that names its parent.
  pub data IsChain : Text → List Text → Type 0 where
    base :
        (theme : Text) (dirs : List Text)
        → theme ≡ default_theme
        → dirs ≡ theme_root p theme ∷ []
        → p.dir_exists (theme_root p theme) ≡ true
        → IsChain theme dirs
    derived :
        (theme : Text) (c : ℕ) (parent : Text) (d : Text) (rest dirs : List Text)
        → text_eq theme default_theme ≡ false
        → p.dir_exists (theme_root p theme) ≡ true
        → p.file_exists (theme_conf_file p theme) ≡ true
        → p.inherits (theme_conf_file p theme) ≡ some (c ∷ parent)
        → IsChain (c ∷ parent) (d ∷ rest)
        → dirs ≡ d ∷ rest ++ theme_root p theme ∷ []
        → IsChain theme dirs

  -- How the list of a theme comes about from its parent's.
  data Round (fuel : ℕ) (theme : Text) (dirs : List Text) : Type 0 where
    at_base :
        p.dir_exists (theme_root p theme) ≡ true
        → text_eq theme default_theme ≡ true
        → dirs ≡ theme_root p theme ∷ []
        → Round fuel theme dirs
    at_derived :
        (c : ℕ) (parent : Text) (d : Text) (rest : List Text)
        → text_eq theme default_theme ≡ false
        → p.dir_exists (theme_root p theme) ≡ true
        → p.file_exists (theme_conf_file p theme) ≡ true
        → p.inherits (theme_conf_file p theme) ≡ some (c ∷ parent)
        → get_theme_inheritance_chain p fuel (c ∷ parent) ≡ done (d ∷ rest)
        → dirs ≡ d ∷ rest ++ theme_root p theme ∷ []
        → Round fuel theme dirs

  round_lem :
      (fuel : ℕ) (theme : Text) (d : Text) (dirs : List Text)
      → get_theme_inheritance_chain p (suc fuel) theme ≡ done (d ∷ dirs)
      → Round fuel theme (d ∷ dirs)
  unfolding get_theme_inheritance_chain
  round_lem fuel theme d dirs h = elim (Bool-cases (text_eq theme default_theme)) [
    | inl is_base ↦ at_base (ground arith) is_base (ground arith)
    | inr not_base ↦ from not_base (p.inherits (theme_conf_file p theme)) refl
  ]
    where
      from_parent :
          (c : ℕ) (parent : Text) (r : Outcome (List Text))
          → text_eq theme default_theme ≡ false
          → p.inherits (theme_conf_file p theme) ≡ some (c ∷ parent)
          → get_theme_inheritance_chain p fuel (c ∷ parent) ≡ r
          → Round fuel theme (d ∷ dirs)
      from_parent c parent (done []) n e g = absurd (ground arith)
      from_parent c parent (done (a ∷ rest)) n e g =
          at_derived c parent a rest n (ground arith) (ground arith) e g (ground arith)
      from_parent c parent fatal n e g = absurd (ground arith)
      from_parent c parent endless n e g = absurd (ground arith)

      from :
          text_eq theme default_theme ≡ false
          → (o : Option Text) → p.inherits (theme_conf_file p theme) ≡ o
          → Round fuel theme (d ∷ dirs)
      from n none e = absurd (ground arith)
      from n (some []) e = absurd (ground arith)
      from n (some (c ∷ parent)) e =
          from_parent c parent (get_theme_inheritance_chain p fuel (c ∷ parent)) n e refl

  -- A list that is returned and not empty is the theme's chain.
  pub get_theme_inheritance_chain-IsChain :
      (fuel : ℕ) (theme : Text) (d : Text) (dirs : List Text)
      → get_theme_inheritance_chain p fuel theme ≡ done (d ∷ dirs)
      → IsChain theme (d ∷ dirs)
  unfolding get_theme_inheritance_chain
  get_theme_inheritance_chain-IsChain zero theme d dirs h = cc
  get_theme_inheritance_chain-IsChain (suc fuel) theme d dirs h =
      from (round_lem fuel theme d dirs h) (get_theme_inheritance_chain-IsChain fuel)
    where
      from :
          Round fuel theme (d ∷ dirs)
          → ((t e : Text) (es : List Text)
              → get_theme_inheritance_chain p fuel t ≡ done (e ∷ es)
              → IsChain t (e ∷ es))
          → IsChain theme (d ∷ dirs)
      from (at_base x y z) ih = base theme (d ∷ dirs) ((text_eq_iff theme default_theme).0 y) z x
      from (at_derived c parent a rest n x y z g e) ih =
          derived theme c parent a rest (d ∷ dirs) n x y z (ih (c ∷ parent) a rest g) e

  -- The chain of a theme is returned, with its length as fuel or with more.
  pub get_theme_inheritance_chain_complete :
      (theme : Text) (dirs : List Text)
      → IsChain theme dirs
      → (n : ℕ) → get_theme_inheritance_chain p (length dirs + n) theme ≡ done dirs
  unfolding get_theme_inheritance_chain
  get_theme_inheritance_chain_complete theme dirs (base _ _ e f x) n =
      rw f (ground (arith, text_eq_iff theme default_theme))
  get_theme_inheritance_chain_complete theme dirs (derived _ c parent d rest _ differs x y z w e)
        n =
      rw e (
        let k : length (d ∷ rest ++ theme_root p theme ∷ []) + n ≡ suc (length (d ∷ rest) + n) =
          omega (arith, length-append rest (theme_root p theme ∷ [])) in
        rw k (ground (arith, get_theme_inheritance_chain_complete (c ∷ parent) (d ∷ rest) w n)))

  -- A chain begins with the default theme's directory and ends with the theme's own.
  pub IsChain-ends :
      (theme : Text) (dirs : List Text)
      → IsChain theme dirs
      → ((rest : List Text) × (dirs ≡ theme_root p default_theme ∷ rest))
        × ((front : List Text) × (dirs ≡ front ++ theme_root p theme ∷ []))
  IsChain-ends theme dirs (base _ _ e f x) =
      (([], f ∙ ap (λ (t : Text). theme_root p t ∷ []) e), ([], f))
  IsChain-ends theme dirs (derived _ c parent d rest _ differs x y z w e) =
      let first = (IsChain-ends (c ∷ parent) (d ∷ rest) w).0 in
      (
        (
          first.0 ++ theme_root p theme ∷ [],
          e ∙ ap (λ (l : List Text). l ++ theme_root p theme ∷ []) first.1,
        ),
        (d ∷ rest, e),
      )

  -- A list that is returned and not empty begins with the default theme's directory and ends with
  -- the theme's own.
  get_theme_inheritance_chain-ends :
      (fuel : ℕ) (theme : Text) (d : Text) (dirs : List Text)
      → get_theme_inheritance_chain p fuel theme ≡ done (d ∷ dirs)
      → (d ≡ theme_root p default_theme)
        × ((front : List Text) × (Path (List Text) (d ∷ dirs) (front ++ theme_root p theme ∷ [])))
  get_theme_inheritance_chain-ends fuel theme d dirs h =
      let ends =
        IsChain-ends theme (d ∷ dirs) (get_theme_inheritance_chain-IsChain fuel theme d dirs h) in
      (cc (ends.0.1), ends.1)

  -- What a theme file may say to make the recursion go on: the theme is there and is not the
  -- default one, and names a parent of the same kind.
  pub record GoesOn (Bad : Text → Type 0) (theme : Text) : Type 0 where
    pub first : ℕ
    pub parent : Text
    pub not_default : text_eq theme default_theme ≡ false
    pub has_dir : p.dir_exists (theme_root p theme) ≡ true
    pub has_file : p.file_exists (theme_conf_file p theme) ≡ true
    pub names_parent : p.inherits (theme_conf_file p theme) ≡ some (first ∷ parent)
    pub parent_bad : Bad (first ∷ parent)

  -- Among themes that each name another of them as parent, as in a cycle, the recursion does not
  -- end: no number of calls is enough for any of them.
  pub get_theme_inheritance_chain_endless :
      (Bad : Text → Type 0)
      → ((t : Text) → Bad t → GoesOn Bad t)
      → (fuel : ℕ) (theme : Text) → Bad theme
      → get_theme_inheritance_chain p fuel theme ≡ endless
  unfolding get_theme_inheritance_chain
  get_theme_inheritance_chain_endless Bad goes_on zero theme bad = refl
  get_theme_inheritance_chain_endless Bad goes_on (suc fuel) theme bad =
      let g = goes_on theme bad in
      let ih =
        get_theme_inheritance_chain_endless Bad goes_on fuel (g.first ∷ g.parent) g.parent_bad in
      rw (g.has_dir, g.not_default, g.has_file, g.names_parent, ih)
