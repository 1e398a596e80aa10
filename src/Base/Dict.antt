-- ===== src/Base/Dict.antt =====
-- QMap and QHash over text keys, as association lists with at most one entry for a key.
use mathlib.Core.Path.{◌≡◌, refl}
use mathlib.Core.Bool.{Bool, true, false}
use mathlib.Core.Option.{Option, none, some}
use mathlib.Core.List.{List, [], ◌∷◌}
use native.Mathlib.Omega.{arith}
use touch_feedback.Base.Tests.{if◌then◌else◌}
use touch_feedback.Base.Text.{Text, text_eq, text_eq_iff}

abbrev pub Dict {ℓ} : Type ℓ → Type ℓ
Dict V = List (Text × V)

module _ {ℓ} {V : Type ℓ} where
  -- `map.value(k)`, with `none` for a missing key
  unfoldable pub lookup : Text → Dict V → Option V
  unfolding text_eq
  lookup k [] = none
  lookup k ((j, v) ∷ d) = if text_eq j k then some v else lookup k d

  -- `map[k] = v` and `map.insert(k, v)`
  unfoldable pub insert : Text → V → Dict V → Dict V
  unfolding text_eq
  insert k v [] = (k, v) ∷ []
  insert k v ((j, w) ∷ d) = if text_eq j k then (k, v) ∷ d else (j, w) ∷ insert k v d

  -- `map.remove(k)`
  unfoldable pub erase : Text → Dict V → Dict V
  unfolding text_eq
  erase k [] = []
  erase k ((j, w) ∷ d) = let rest = erase k d in if text_eq j k then rest else (j, w) ∷ rest

  -- `map.contains(k)`
  abbrev pub is_some : Option V → Bool
  is_some none = false
  is_some (some v) = true

  abbrev pub value : V → Option V → V
  value d none = d
  value d (some v) = v

  pub lookup-insert :
      (k j : Text) (v : V) (d : Dict V)
      → lookup j (insert k v d) ≡ (if text_eq k j then some v else lookup j d)
  unfolding lookup insert
  lookup-insert k j v [] = refl
  lookup-insert k j v ((i, w) ∷ d) =
      ground (arith, text_eq_iff k j, text_eq_iff i k, text_eq_iff i j, lookup-insert k j v d)

  pub lookup-erase :
      (k j : Text) (d : Dict V) → lookup j (erase k d) ≡ (if text_eq k j then none else lookup j d)
  unfolding lookup erase
  lookup-erase k j [] = ground arith
  lookup-erase k j ((i, w) ∷ d) =
      ground (arith, text_eq_iff k j, text_eq_iff i k, text_eq_iff i j, lookup-erase k j d)

  -- No key stands twice.
  unfoldable pub Keyed : Dict V → Type ℓ
  unfolding lookup
  Keyed [] = Unit
  Keyed ((k, v) ∷ d) = (lookup k d ≡ none) × Keyed d

  pub insert-Keyed : (k : Text) (v : V) (d : Dict V) → Keyed d → Keyed (insert k v d)
  unfolding insert lookup Keyed
  insert-Keyed k v [] keyed = (refl, tt)
  insert-Keyed k v ((j, w) ∷ d) keyed =
      ground
        (arith, text_eq_iff j k, text_eq_iff k j, insert-Keyed k v d keyed.1, lookup-insert k j v d)

  pub erase-Keyed : (k : Text) (d : Dict V) → Keyed d → Keyed (erase k d)
  unfolding erase Keyed
  erase-Keyed k [] keyed = keyed
  erase-Keyed k ((j, w) ∷ d) keyed =
      ground (arith, text_eq_iff j k, erase-Keyed k d keyed.1, lookup-erase k j d)
