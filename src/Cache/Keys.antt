-- ===== src/Cache/Keys.antt =====
-- The keys of the cache, and the backends that they stand for.
use touch_feedback.Base.{
  ℕ, ◌<◌, ◌≡◌, refl, ◌∙◌, sym, ap, false, Option, none, some, List, [], ◌∷◌, arith, Option-cases,
  Bool-cases, inl, inr, ◌==◌, length, contains, get_elem?, index_of,
}
use touch_feedback.Base.Int.{ℤ, pos, negsuc}
use touch_feedback.Base.Text.{Text, last_section, last_section-append}
use touch_feedback.World.{Platform, Handle}
use touch_feedback.Cache.{key_value, backend_index, handle_key}

-- The numbers that indexOf gives in a list of n: its positions, and -1.
abbrev pub IsIndex : ℕ → ℤ → Type 0
IsIndex n (pos i) = i < n
IsIndex n (negsuc i) = i ≡ 0

-- QString::number(i, 16) tells the indices of a list of n apart, and writes no '#'.
pub record TellsIndexes (p : Platform) (n : ℕ) : Type 0 where
  pub no_hash : (i : ℤ) → IsIndex n i → contains b'#' (p.number_hex i) ≡ false
  pub injective : (i j : ℤ) → IsIndex n i → IsIndex n j → p.number_hex i ≡ p.number_hex j → i ≡ j

index_of-lt :
    (bs : List ℕ) (b j : ℕ) → index_of b bs ≡ some j → (j < length bs) × (get_elem? bs j ≡ some b)
index_of-lt [] b j e = cc
index_of-lt (x ∷ bs) b j e = elim (Bool-cases (x == b)) [
  | inl hit ↦ ground arith
  | inr miss ↦ elim (Option-cases (index_of b bs)) [
    | inl gone ↦ ground arith
    | inr (k, at) ↦ ground (arith, index_of-lt bs b k at)
  ]
]

backend_index_cases :
    (bs : List ℕ) (o : Option ℕ)
    → IsIndex (length bs) (backend_index bs o)
      × ((i : ℕ) → backend_index bs o ≡ pos i → o ≡ get_elem? bs i)
unfolding backend_index
backend_index_cases bs none = (refl, λ i e. cc)
backend_index_cases bs (some b) = elim (Option-cases (index_of b bs)) [
  | inl gone ↦ rw (gone, backend_index) (refl, λ i e. cc)
  | inr (j, at) ↦
      rw (at, backend_index)
        ((index_of-lt bs b j at).0, λ i e. ground (arith, (index_of-lt bs b j at).1))
]

module _ (p : Platform) where
  key_value-last :
      (dir : Text) (i : ℤ)
      → contains b'#' (p.number_hex i) ≡ false
      → last_section b'#' (key_value p dir i) ≡ p.number_hex i
  unfolding key_value
  key_value-last dir i none_there = last_section-append b'#' _ (p.number_hex i) none_there

  pub handle_key-backend :
      (bs : List ℕ) (h : Handle) (dir : Text) (i : ℕ)
      → TellsIndexes p (length bs)
      → i < length bs
      → handle_key p bs h ≡ key_value p dir (pos i)
      → h.backend_if ≡ get_elem? bs i
  unfolding handle_key
  handle_key-backend bs h dir i tells fits e =
      let (is_index, at) = backend_index_cases bs h.backend_if in
      let j = backend_index bs h.backend_if in
      at i (
        tells.injective j (pos i) is_index fits (
          sym (key_value-last h.feedback_dir_path j (tells.no_hash j is_index))
          ∙ ap (last_section b'#') e
          ∙ key_value-last dir (pos i) (tells.no_hash (pos i) fits)))
