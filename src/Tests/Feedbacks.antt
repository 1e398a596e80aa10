-- ===== src/Tests/Feedbacks.antt =====
-- The theorems on handles, feedbacks and themes at concrete inputs, and runs.
use touch_feedback.Base.{◌≡◌, refl, some, List, [], ◌∷◌, arith, get_or}
use touch_feedback.Base.Text.{
  Text, codes, text_eq, contains_text, last_section, first_section_skip_empty,
}
use touch_feedback.Base.Dict.{lookup, Keyed}
use touch_feedback.Cache.Invariant
use touch_feedback.Feedback.{new_feedback, load_feedback}
use touch_feedback.Feedback.References.{bump_all, load_feedback-Inv, new_feedback-Inv}
use touch_feedback.Theme.{
  done, endless, get_theme_inheritance_chain, find_feedback_fallback_paths, fallback_index,
  index_of_text, dir_lists, get_feedback_dirs_of_a_theme,
}
use touch_feedback.Theme.Fallback.{followed_by, find_feedback_fallback_paths_lem}
use touch_feedback.Theme.Chain.{
  IsChain, base, derived, get_theme_inheritance_chain-IsChain, get_theme_inheritance_chain_complete,
  GoesOn, get_theme_inheritance_chain_endless,
}
use touch_feedback.Theme.Names.{feedback_names}
use touch_feedback.Theme.Order.{own_dirs, with_fallback, dir_lists-own_dirs}
use touch_feedback.Tests.Data.{demo, two_backends, nobody}
use touch_feedback.Handle.{load, new_handle, attach}
use touch_feedback.Cache.{search_from_cache, add_to_cache, handle_key, key_value}
use touch_feedback.Feedback.{load_handle, make_handle}
use touch_feedback.Base.Text.{remove}
use touch_feedback.Base.Dict.{insert}

pub two_backends-Inv : Invariant.Inv demo two_backends nobody
unfolding lookup Keyed
two_backends-Inv = record {
  distinct = (refl, (refl, tt));
  keyed = tt;
  fresh = λ o h. (refl, refl);
  counted = λ o h x. absurd (cc);
  cached = λ o h x. absurd (cc);
  alive = λ k o x. absurd (cc);
}

abbrev pub press_dirs : List Text
press_dirs =
    codes "/t/blue/meegotouch/feedbacks/press" ∷ codes "/t/base/meegotouch/feedbacks/press" ∷ []

-- The world that the removal starts from.
pub loaded-Inv :
    Invariant.Inv demo (load_feedback demo press_dirs (new_feedback two_backends) two_backends).1 (
      bump_all
        (load_feedback demo press_dirs (new_feedback two_backends) two_backends).0.feedback_handles
        nobody)
loaded-Inv =
    load_feedback-Inv demo press_dirs (new_feedback two_backends) two_backends nobody
      (new_feedback-Inv demo two_backends nobody two_backends-Inv)

load_feedback-Inv_example :
    Invariant.Inv demo (load_feedback demo press_dirs (new_feedback two_backends) two_backends).1 (
      bump_all
        (load_feedback demo press_dirs (new_feedback two_backends) two_backends).0.feedback_handles
        nobody)
load_feedback-Inv_example =
    load_feedback-Inv demo press_dirs (new_feedback two_backends) two_backends nobody
      (new_feedback-Inv demo two_backends nobody two_backends-Inv)

-- Both slots get a handle, and both handles are counted once.
load_feedback_run :
    (load_feedback demo press_dirs (new_feedback two_backends) two_backends).0.feedback_handles
    ≡ some 0 ∷ some 1 ∷ []
unfolding load_feedback new_feedback load_handle make_handle load new_handle search_from_cache
    add_to_cache handle_key key_value remove lookup insert attach
load_feedback_run = refl

abbrev names : List Text
names = codes "press" ∷ codes "press-big" ∷ []

abbrev lists : List (List Text)
lists = (codes "/b/press" ∷ []) ∷ (codes "/b/press-big" ∷ []) ∷ []

find_feedback_fallback_paths_lem_example :
    get_or (find_feedback_fallback_paths names lists) 1 []
    ≡ followed_by lists 1 (fallback_index names (codes "press-big"))
find_feedback_fallback_paths_lem_example =
    find_feedback_fallback_paths_lem names lists 1 (codes "press-big") (omega arith) refl

pub blue-IsChain : IsChain demo (codes "blue") (codes "/t/base" ∷ codes "/t/blue" ∷ [])
unfolding text_eq contains_text
blue-IsChain =
    derived (codes "blue") b'b' (codes "ase") (codes "/t/base") [] _ refl refl refl refl
      (base (codes "base") _ refl refl refl) refl

get_theme_inheritance_chain_complete_example :
    get_theme_inheritance_chain demo 5 (codes "blue")
    ≡ done (codes "/t/base" ∷ codes "/t/blue" ∷ [])
get_theme_inheritance_chain_complete_example =
    get_theme_inheritance_chain_complete demo (codes "blue")
      (codes "/t/base" ∷ codes "/t/blue" ∷ []) blue-IsChain 3

-- The chain that the search finds.
blue-searched :
    get_theme_inheritance_chain demo 5 (codes "blue")
    ≡ done (codes "/t/base" ∷ codes "/t/blue" ∷ [])
blue-searched =
    get_theme_inheritance_chain_complete demo (codes "blue")
      (codes "/t/base" ∷ codes "/t/blue" ∷ []) blue-IsChain 3

get_theme_inheritance_chain-IsChain_example :
    IsChain demo (codes "blue") (codes "/t/base" ∷ codes "/t/blue" ∷ [])
get_theme_inheritance_chain-IsChain_example =
    get_theme_inheritance_chain-IsChain demo 5 (codes "blue") (codes "/t/base")
      (codes "/t/blue" ∷ []) blue-searched

abbrev Loops : Text → Type 0
Loops t = t ≡ codes "loop"

loop-GoesOn : (t : Text) → Loops t → GoesOn demo Loops t
unfolding text_eq contains_text
loop-GoesOn t e = rw e (record {
  first = b'l';
  parent = codes "oop";
  not_default = refl;
  has_dir = refl;
  has_file = refl;
  names_parent = refl;
  parent_bad = refl;
})

get_theme_inheritance_chain_endless_example :
    get_theme_inheritance_chain demo 100 (codes "loop") ≡ endless
get_theme_inheritance_chain_endless_example =
    get_theme_inheritance_chain_endless demo Loops loop-GoesOn 100 (codes "loop") refl

press_big_at :
    index_of_text (codes "press-big") (feedback_names demo (codes "app") (codes "/t/base")) ≡ some 1
unfolding get_feedback_dirs_of_a_theme text_eq last_section
press_big_at = refl

dir_lists-own_dirs_example :
    get_or (dir_lists demo (codes "app") (codes "/t/base") (codes "/t/blue" ∷ [])) 1 []
    ≡ with_fallback demo
        (codes "app")
        (codes "/t/base")
        (codes "/t/blue" ∷ [])
        (own_dirs demo (codes "app") (codes "/t/base") (codes "/t/blue" ∷ []) (codes "press-big") 1)
        (fallback_index (feedback_names demo (codes "app") (codes "/t/base")) (codes "press-big"))
        (own_dirs demo
          (codes "app")
          (codes "/t/base")
          (codes "/t/blue" ∷ [])
          (first_section_skip_empty b'-' (codes "press-big")))
dir_lists-own_dirs_example =
    dir_lists-own_dirs demo (codes "app") (codes "/t/base") (codes "/t/blue" ∷ [])
      (codes "press-big") 1 press_big_at
