-- ===== src/Theme/Fallback.antt =====
-- `findFeedbackFallbackPaths`: the loop reads lists that it has itself written to, and still gives
-- what a single pass over the lists as they were would give.
use touch_feedback.Base.{
  ℕ, zero, ◌+◌, ◌≤◌, ◌<◌, ◌≡◌, refl, ◌≢◌, ◌∙◌, ap, Option, none, some, List, [], ◌∷◌, ◌++◌, arith,
  ◌==◌, ltb, if◌then◌else◌, length, length-set, get_elem?, get_or, set, Bool-cases, inl, inr,
  ltb→lt, ltb→le, sym, suc, ◌-◌,
}
use touch_feedback.Base.Text.{
  Text, text_eq_iff, first_section_skip_empty, first_section_skip_empty-contains,
}
use touch_feedback.Theme.{
  append_list, index_of_text, fallback_index, fallback_loop, find_feedback_fallback_paths,
}

-- A feedback's own directories, and behind them those of the list that it falls back to.
abbrev pub followed_by : List (List Text) → ℕ → Option ℕ → List Text
followed_by lists i none = get_or lists i []
followed_by lists i (some k) = get_or lists i [] ++ get_or lists k []

get_or-set_self :
    (lists : List (List Text)) (i : ℕ) (v : List Text)
    → i < length lists
    → get_or (set lists i v) i [] ≡ v
get_or-set_self [] i v h = elim h [ ]
get_or-set_self (l ∷ lists) zero v h = refl
get_or-set_self (l ∷ lists) (suc i) v h = get_or-set_self lists i v (omega arith)

get_or-set_ne :
    (lists : List (List Text)) (i j : ℕ) (v : List Text)
    → i ≢ j
    → get_or (set lists i v) j [] ≡ get_or lists j []
get_or-set_ne [] i j v h = refl
get_or-set_ne (l ∷ lists) zero zero v h = absurd (h refl)
get_or-set_ne (l ∷ lists) zero (suc j) v h = refl
get_or-set_ne (l ∷ lists) (suc i) zero v h = refl
get_or-set_ne (l ∷ lists) (suc i) (suc j) v h = get_or-set_ne lists i j v (λ e. h (ap suc e))

-- The name at the index of a text is that text.
index_of_text-get :
    (t : Text) (names : List Text) (k : ℕ)
    → index_of_text t names ≡ some k
    → get_elem? names k ≡ some t
index_of_text-get t [] k h = cc
index_of_text-get t (n ∷ names) zero h = ground (arith, text_eq_iff n t)
index_of_text-get t (n ∷ names) (suc k) h =
    ground (arith, text_eq_iff n t, index_of_text-get t names k)

-- A fallback has no fallback itself: its name has no dash.
fallback_index_final :
    (names : List Text) (n m : Text) (k : ℕ)
    → fallback_index names n ≡ some k
    → get_elem? names k ≡ some m
    → fallback_index names m ≡ none
unfolding fallback_index
fallback_index_final names n m k h e = ground (
  arith,
  index_of_text-get (first_section_skip_empty b'-' n) names k,
  first_section_skip_empty-contains b'-' n,
)

abbrev IsSuffixAt : ℕ → List Text → List Text → Type 0
IsSuffixAt i todo names = (j : ℕ) → get_elem? todo j ≡ get_elem? names (i + j)

length-append_list :
    (i : ℕ) (o : Option ℕ) (lists : List (List Text))
    → length (append_list i o lists) ≡ length lists
length-append_list i none lists = refl
length-append_list i (some k) lists = length-set lists i _

append_list_ne :
    (i j : ℕ) (o : Option ℕ) (lists : List (List Text))
    → i ≢ j
    → get_or (append_list i o lists) j [] ≡ get_or lists j []
append_list_ne i j none lists h = refl
append_list_ne i j (some k) lists h = get_or-set_ne lists i j _ h

append_list_self :
    (i : ℕ) (o : Option ℕ) (lists : List (List Text))
    → i < length lists
    → get_or (append_list i o lists) i [] ≡ followed_by lists i o
append_list_self i none lists h = refl
append_list_self i (some k) lists h = get_or-set_self lists i _ h

-- A round changes no list that a fallback is taken from.
append_list_source :
    (names : List Text) (i k : ℕ) (n m : Text) (lists : List (List Text))
    → get_elem? names i ≡ some n
    → fallback_index names m ≡ some k
    → get_or (append_list i (fallback_index names n) lists) k [] ≡ get_or lists k []
append_list_source names i k n m lists at e = elim (Bool-cases (i == k)) [
  | inl same ↦ rw (fallback_index_final names m n k e (ground arith))
  | inr differ ↦ append_list_ne i k (fallback_index names n) lists (ground arith)
]

append_list_later :
    (names : List Text) (i j : ℕ) (n m : Text) (o : Option ℕ) (lists : List (List Text))
    → get_elem? names i ≡ some n
    → i ≢ j
    → fallback_index names m ≡ o
    → followed_by (append_list i (fallback_index names n) lists) j o ≡ followed_by lists j o
append_list_later names i j n m none lists at h e = append_list_ne i j _ lists h
append_list_later names i j n m (some k) lists at h e = cc (
  append_list_ne i j (fallback_index names n) lists h,
  append_list_source names i k n m lists at e,
)

-- Nothing is left to do at or above i, so that a name stands below i.
suffix_end :
    (names : List Text) (i j : ℕ) (n : Text)
    → IsSuffixAt i [] names
    → get_elem? names j ≡ some n
    → j < i
suffix_end names i j n suffix at = elim (Bool-cases (ltb j i)) [
  | inl below ↦ ltb→lt j i below
  | inr above ↦
      let e : i + (j - i) ≡ j = omega (arith, ltb→le j i above) in
      absurd (cc (suffix (j - i), ap (get_elem? names) e))
]

suffix_next :
    (names todo : List Text) (i : ℕ) (m : Text)
    → IsSuffixAt i (m ∷ todo) names
    → IsSuffixAt (suc i) todo names
suffix_next names todo i m suffix j =
    let e : i + suc j ≡ suc i + j = omega arith in suffix (suc j) ∙ ap (get_elem? names) e

suffix_head :
    (names todo : List Text) (i : ℕ) (m : Text)
    → IsSuffixAt i (m ∷ todo) names
    → get_elem? names i ≡ some m
suffix_head names todo i m suffix =
    let e : i ≡ i + 0 = omega arith in ap (get_elem? names) e ∙ sym (suffix 0)

loop_lem :
    (names : List Text) (i : ℕ) (todo : List Text) (lists : List (List Text))
    → IsSuffixAt i todo names
    → i + length todo ≤ length lists
    → (j : ℕ) (n : Text) → get_elem? names j ≡ some n
    → get_or (fallback_loop names i todo lists) j []
      ≡ (if ltb j i then get_or lists j [] else followed_by lists j (fallback_index names n))
unfolding fallback_loop
loop_lem names i [] lists suffix fits j n at = ground (arith, suffix_end names i j n suffix at)
loop_lem names i (m ∷ todo) lists suffix fits j n at =
    let o = fallback_index names m in
    let lists' = append_list i o lists in
    let head = suffix_head names todo i m suffix in
    let ih =
      loop_lem names (suc i) todo lists' (suffix_next names todo i m suffix)
        (omega (arith, length-append_list i o lists)) j n at in
    elim (Bool-cases (i == j)) [
      | inl same ↦ ground (arith, ih, head, append_list_self i o lists (omega arith))
      | inr differ ↦ ground (
        arith,
        ih,
        append_list_ne i j o lists,
        append_list_later names i j m n (fallback_index names n) lists head,
      )
    ]

-- The loop that works in place gives at each position what the lists before it determine: the
-- feedback's own list, and behind it, if its name has a dash and the part before the dash names a
-- feedback, that feedback's list as it was.
pub find_feedback_fallback_paths_lem :
    (names : List Text) (lists : List (List Text)) (j : ℕ) (n : Text)
    → length names ≤ length lists
    → get_elem? names j ≡ some n
    → get_or (find_feedback_fallback_paths names lists) j []
      ≡ followed_by lists j (fallback_index names n)
unfolding find_feedback_fallback_paths
find_feedback_fallback_paths_lem names lists j n fits at = ground (
  arith,
  loop_lem names 0 names lists (λ k. let e : k ≡ 0 + k = omega arith in ap (get_elem? names) e)
      (omega arith) j n at,
)
