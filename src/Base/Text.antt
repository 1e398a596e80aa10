-- ===== src/Base/Text.antt =====
-- QString as the list of its characters, with the few operations on it that the source uses, by
-- their documented behaviour. Conversions between text and numbers, and comparison without case,
-- are parameters (`Qt`).
use Prim.Native.Nat.{ℕ, zero, suc, ◌-◌}
use Prim.Native.Char.{code}
use Prim.Native.String.{String}
use mathlib.Core.Path.{◌≡◌, refl}
use mathlib.Core.Logic.{◌↔◌, ◌≢◌}
use mathlib.Core.Bool.{Bool, true, false, ◌&&◌, ◌||◌}
use mathlib.Core.Option.{Option}
use mathlib.Core.List.{List, [], ◌∷◌, ◌++◌}
use native.Mathlib.Omega.{arith}
use touch_feedback.Base.Tests.{◌==◌, if◌then◌else◌}
use touch_feedback.Base.Lists.{length, contains, drop}
use touch_feedback.Base.Int.{ℤ}

abbrev pub Text : Type 0
Text = List ℕ

abbrev pub codes : String → Text
codes String.[] = []
codes (String.◌∷◌ c s) = code c ∷ codes s

-- Sealed except for tests: proofs go by `text_eq_iff`.
unfoldable pub text_eq : Text → Text → Bool
text_eq [] [] = true
text_eq [] (d ∷ t) = false
text_eq (c ∷ s) [] = false
text_eq (c ∷ s) (d ∷ t) = c == d && text_eq s t

pub text_eq_iff : (s t : Text) → (text_eq s t ≡ true) ↔ (s ≡ t)
unfolding text_eq
text_eq_iff [] [] = (λ _. refl, λ _. refl)
text_eq_iff [] (d ∷ t) = (λ h. cc, λ h. cc)
text_eq_iff (c ∷ s) [] = (λ h. cc, λ h. cc)
text_eq_iff (c ∷ s) (d ∷ t) = ground (arith, text_eq_iff s t)

pub text_eq_refl : (s : Text) → text_eq s s ≡ true
text_eq_refl s = (text_eq_iff s s).1 refl

pub text_eq-false : (s t : Text) → s ≢ t → text_eq s t ≡ false
text_eq-false s t h = ground (arith, text_eq_iff s t)

-- `s.startsWith(prefix)` and `s.endsWith(suffix)`
abbrev pub starts_with : Text → Text → Bool
starts_with s [] = true
starts_with [] (p ∷ ps) = false
starts_with (c ∷ s) (p ∷ ps) = c == p && starts_with s ps

unfoldable pub ends_with : Text → Text → Bool
unfolding text_eq
ends_with [] suffix = text_eq [] suffix
ends_with (c ∷ s) suffix = text_eq (c ∷ s) suffix || ends_with s suffix

-- `s.contains(part)`
unfoldable pub contains_text : Text → Text → Bool
contains_text [] part = starts_with [] part
contains_text (c ∷ s) part = starts_with (c ∷ s) part || contains_text s part

-- `s.remove(part)`: every occurrence, from the left. `skip` characters of one are still to go.
remove_loop : Text → ℕ → Text → Text
remove_loop part skip [] = []
remove_loop part (suc skip) (c ∷ s) = remove_loop part skip s
remove_loop part zero (c ∷ s) = elim (starts_with (c ∷ s) part) [
  | true ↦ remove_loop part (length part - 1) s
  | false ↦ c ∷ remove_loop part zero s
]

unfoldable pub remove : Text → Text → Text
unfolding remove_loop
remove s [] = s
remove s (p ∷ ps) = remove_loop (p ∷ ps) zero s

-- `s.section(sep, -1)`: what stands behind the last separator.
unfoldable pub last_section : ℕ → Text → Text
last_section sep [] = []
last_section sep (c ∷ s) =
    if contains sep s then last_section sep s else if c == sep then s else c ∷ s

-- What stands before the last separator, nothing if there is none.
unfoldable pub before_last : ℕ → Text → Text
before_last sep [] = []
before_last sep (c ∷ s) = if contains sep s then c ∷ before_last sep s else []

-- `s.section(sep, -3, -3)`
unfoldable pub third_last_section : ℕ → Text → Text
unfolding last_section before_last
third_last_section sep s = last_section sep (before_last sep (before_last sep s))

-- `s.section(sep, 0, 0)`
unfoldable pub first_section : ℕ → Text → Text
first_section sep [] = []
first_section sep (c ∷ s) = if c == sep then [] else c ∷ first_section sep s

-- `s.section(sep, 0, 0, QString::SectionSkipEmpty)`
unfoldable pub first_section_skip_empty : ℕ → Text → Text
unfolding first_section
first_section_skip_empty sep [] = []
first_section_skip_empty sep (c ∷ s) =
    if c == sep then first_section_skip_empty sep s else c ∷ first_section sep s

-- `s.split(sep)`: the text before the first separator, and the other parts.
unfoldable pub split_parts : ℕ → Text → Text × List Text
split_parts sep [] = ([], [])
split_parts sep (c ∷ s) =
    let (part, parts) = split_parts sep s in
    if c == sep then ([], part ∷ parts) else (c ∷ part, parts)

unfoldable pub split : ℕ → Text → List Text
unfolding split_parts
split sep s = (split_parts sep s).0 ∷ (split_parts sep s).1

-- What the program uses of Qt's conversions: `toInt` (`none` where `ok` is false), `number` in
-- base 10 and 16, `compare` without case.
pub record Qt : Type 0 where
  pub to_int : Text → Option ℤ
  pub number : ℕ → Text
  pub number_hex : ℤ → Text
  pub equal_any_case : Text → Text → Bool

pub contains-append : (a : ℕ) (s t : Text) → contains a (s ++ t) ≡ (contains a s || contains a t)
contains-append a [] t = refl
contains-append a (c ∷ s) t = ground (arith, contains-append a s t)

-- The name behind a path's last separator.
pub last_section-append :
    (sep : ℕ) (s t : Text) → contains sep t ≡ false → last_section sep (s ++ sep ∷ t) ≡ t
unfolding last_section
last_section-append sep [] t h = ground arith
last_section-append sep (c ∷ s) t h =
    ground (arith, last_section-append sep s t h, contains-append sep s (sep ∷ t))

pub starts_with-drop : (s p : Text) → starts_with s p ≡ true → p ++ drop (length p) s ≡ s
starts_with-drop s [] h = refl
starts_with-drop [] (c ∷ p) h = cc
starts_with-drop (d ∷ s) (c ∷ p) h = ground (arith, starts_with-drop s p)

pub drop-append : (p s : Text) → drop (length p) (p ++ s) ≡ s
drop-append [] s = refl
drop-append (c ∷ p) s = drop-append p s

pub first_section-append :
    (sep : ℕ) (s t : Text) → contains sep s ≡ false → first_section sep (s ++ sep ∷ t) ≡ s
unfolding first_section
first_section-append sep [] t h = ground arith
first_section-append sep (c ∷ s) t h = ground (arith, first_section-append sep s t)

first_section-contains : (sep : ℕ) (s : Text) → contains sep (first_section sep s) ≡ false
unfolding first_section
first_section-contains sep [] = refl
first_section-contains sep (c ∷ s) = ground (arith, first_section-contains sep s)

pub first_section_skip_empty-contains :
    (sep : ℕ) (s : Text) → contains sep (first_section_skip_empty sep s) ≡ false
unfolding first_section_skip_empty
first_section_skip_empty-contains sep [] = refl
first_section_skip_empty-contains sep (c ∷ s) =
    ground (arith, first_section_skip_empty-contains sep s, first_section-contains sep s)

pub split_absent : (sep : ℕ) (s : Text) → contains sep s ≡ false → split_parts sep s ≡ (s, [])
unfolding split_parts
split_absent sep [] h = refl
split_absent sep (c ∷ s) h = ground (arith, split_absent sep s)

pub split-one :
    (sep : ℕ) (s t : Text)
    → contains sep s ≡ false
    → contains sep t ≡ false
    → split_parts sep (s ++ sep ∷ t) ≡ (s, t ∷ [])
unfolding split_parts
split-one sep [] t hs ht = ground (arith, split_absent sep t ht)
split-one sep (c ∷ s) t hs ht = ground (arith, split-one sep s t)
