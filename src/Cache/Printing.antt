-- ===== src/Cache/Printing.antt =====
-- `printCache` of src/lib/mfmanager.cpp, which a build for debugging has: what it prints, without the
-- texts around it.
use touch_feedback.Base.{
  ℕ, suc, ◌+◌, ◌≡◌, ◌≢◌, refl, Bool, true, false, none, some, List, [], ◌∷◌, arith, ◌==◌,
  if◌then◌else◌, Bool-cases, Option-cases, inl, inr, is_empty, ◌<◌,
}
use touch_feedback.Base.Int.{ℤ, pos, negsuc}
use touch_feedback.Base.Text.{Text}
use touch_feedback.Base.Dict.{Dict}
use touch_feedback.World.{HandleState, Handle, World}
use touch_feedback.Cache.{backend_index}

-- The state, the count and the path of a handle.
abbrev pub Line : Type 0
Line = HandleState × ℕ × Text

abbrev pub line : Handle → Line
line h = (h.current_state, h.ref_cnt, h.feedback_dir_path)

abbrev pub is_position : ℕ → ℤ → Bool
is_position i (pos n) = n == i
is_position i (negsuc n) = false

-- `backendList.indexOf(handle->backend()) == i`
abbrev pub is_at : World → ℕ → Handle → Bool
is_at w i h = is_position i (backend_index w.backend_list h.backend_if)

abbrev pub values : Dict ℕ → List ℕ
values [] = []
values ((k, o) ∷ d) = o ∷ values d

-- The inner loop, with the pointers that no round has erased: the lines for the backend at `i`, the
-- pointers that it leaves, and how many null ones it has erased.
unfoldable pub print_round : World → ℕ → List ℕ → List Line × List ℕ × ℕ
print_round w i [] = ([], [], 0)
print_round w i (o ∷ pointers) =
    let (lines, rest, nulls) = print_round w i pointers in
    elim (w.object o) [
      | none ↦ (lines, rest, suc nulls)
      | some h ↦ if is_at w i h then (line h ∷ lines, rest, nulls) else (lines, o ∷ rest, nulls)
    ]

-- The outer loop over the positions from `i` on.
unfoldable pub print_rounds : World → ℕ → List ℕ → List ℕ → List (List Line) × ℕ
unfolding print_round
print_rounds w i [] pointers = ([], 0)
print_rounds w i (b ∷ backends) pointers =
    let (lines, rest, nulls) = print_round w i pointers in
    let (all_lines, all_nulls) = print_rounds w (suc i) backends rest in
    (lines ∷ all_lines, nulls + all_nulls)

unfoldable pub print_cache : World → List (List Line) × ℕ
unfolding print_rounds
print_cache w = print_rounds w 0 w.backend_list (values w.feedback_handle_hash)

-- The lines for the live handles of the backend at a position.
abbrev lines_at : World → ℕ → List ℕ → List Line
lines_at w i [] = []
lines_at w i (o ∷ pointers) =
    let rest = lines_at w i pointers in
    elim (w.object o) [ none ↦ rest | some h ↦ if is_at w i h then line h ∷ rest else rest ]

abbrev nulls_in : World → List ℕ → ℕ
nulls_in w [] = 0
nulls_in w (o ∷ pointers) =
    let rest = nulls_in w pointers in elim (w.object o) [ none ↦ suc rest | some h ↦ rest ]

-- The lines for each backend from a position on.
abbrev lines_from : World → ℕ → List ℕ → List ℕ → List (List Line)
lines_from w i [] pointers = []
lines_from w i (b ∷ backends) pointers =
    lines_at w i pointers ∷ lines_from w (suc i) backends pointers

is_position_once : (i j : ℕ) (n : ℤ) → is_position i n ≡ true → i ≢ j → is_position j n ≡ false
is_position_once i j (pos n) h differ = ground arith
is_position_once i j (negsuc n) h differ = refl

print_round_lem :
    (w : World) (i : ℕ) (pointers : List ℕ)
    → ((print_round w i pointers).0 ≡ lines_at w i pointers)
      × ((print_round w i pointers).2 ≡ nulls_in w pointers)
      × (nulls_in w (print_round w i pointers).1 ≡ 0)
      × ((j : ℕ) → i ≢ j → lines_at w j (print_round w i pointers).1 ≡ lines_at w j pointers)
unfolding print_round
print_round_lem w i [] = (refl, refl, refl, λ j differ. refl)
print_round_lem w i (o ∷ pointers) =
    let (lines, nulls, none_left, others) = print_round_lem w i pointers in
    elim (Option-cases (w.object o)) [
      | inl gone ↦ (
        ground (arith, gone, lines),
        ground (arith, gone, nulls),
        ground (arith, gone, none_left),
        λ j differ. ground (arith, gone, others j differ),
      )
      | inr (h, live) ↦ elim (Bool-cases (is_at w i h)) [
        | inl hit ↦ (
          ground (arith, live, hit, lines),
          ground (arith, live, hit, nulls),
          ground (arith, live, hit, none_left),
          λ j differ.
              let other =
                is_position_once i j (backend_index w.backend_list h.backend_if) hit differ in
              ground (arith, live, hit, other, others j differ),
        )
        | inr miss ↦ (
          ground (arith, live, miss, lines),
          ground (arith, live, miss, nulls),
          ground (arith, live, miss, none_left),
          λ j differ. ground (arith, live, miss, others j differ),
        )
      ]
    ]

-- A round leaves what the later rounds print.
lines_from-round :
    (w : World) (i j : ℕ) (backends pointers : List ℕ)
    → i < j
    → lines_from w j backends (print_round w i pointers).1 ≡ lines_from w j backends pointers
lines_from-round w i j [] pointers before = refl
lines_from-round w i j (b ∷ backends) pointers before =
    let rest = lines_from-round w i (suc j) backends pointers (omega (arith, before)) in
    let differ : i ≢ j = λ e. omega (arith, before, e) in
    cc (rest, (print_round_lem w i pointers).3 j differ)

print_rounds_lem :
    (w : World) (i : ℕ) (backends pointers : List ℕ)
    → ((print_rounds w i backends pointers).0 ≡ lines_from w i backends pointers)
      × ((print_rounds w i backends pointers).1
          ≡ (if is_empty backends then 0 else nulls_in w pointers))
unfolding print_rounds
print_rounds_lem w i [] pointers = (refl, refl)
print_rounds_lem w i (b ∷ backends) pointers =
    let (lines, nulls, none_left, others) = print_round_lem w i pointers in
    let rest = (print_round w i pointers).1 in
    let (all_lines, all_nulls) = print_rounds_lem w (suc i) backends rest in
    let same = lines_from-round w i (suc i) backends pointers (omega arith) in
    (cc (lines, all_lines, same), ground (arith, nulls, none_left, all_nulls))

-- Although the loops erase from the list that they run over, the output has for each backend in turn
-- the live handles of that backend in the cache, each once and in the order of the cache, and then the
-- number of the null pointers in it, if there is a backend.
print_cache_lem :
    (w : World)
    → print_cache w ≡ (
      lines_from w 0 w.backend_list (values w.feedback_handle_hash),
      if is_empty w.backend_list then 0 else nulls_in w (values w.feedback_handle_hash),
    )
unfolding print_cache
print_cache_lem w =
    let (lines, nulls) = print_rounds_lem w 0 w.backend_list (values w.feedback_handle_hash) in
    λ i. (lines i, nulls i)
