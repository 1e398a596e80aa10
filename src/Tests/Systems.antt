-- ===== src/Tests/Systems.antt =====
-- The theorems on the whole of src/lib at concrete inputs.
use touch_feedback.Base.{
  ℕ, ◌≡◌, refl, true, false, Option, none, some, [], ◌∷◌, arith, contains, get_elem?,
}
use touch_feedback.Base.Int.{ℤ, pos, negsuc}
use touch_feedback.Base.Text.{
  remove, codes, text_eq, last_section, first_section, first_section_skip_empty,
}
use touch_feedback.Base.Dict.{lookup, insert}
use touch_feedback.Backend.Ledger.{held, Clean, IsTidy}
use touch_feedback.World.{Handle}
use touch_feedback.Feedback.{
  Feedback, new_feedback, load_feedback, load_slots, load_slot, load_first, load_handle,
  make_handle, release, volume_priority,
}
use touch_feedback.Session.{new_session, destroy_session, map_feedbacks, add_feedback}
use touch_feedback.Theme.{
  override_first, override_dirs, initial_lists, default_names, prepend_dir, prepend_dirs,
  add_themes, fallback_index, fallback_loop, find_feedback_fallback_paths, is_name_char,
  is_valid_name, get_feedback_dirs_from_path, get_feedback_dirs_of_a_theme, dir_lists,
}
use touch_feedback.System.{
  System, IsStart, connects, sets_up, changes_theme, ends, Reach, start, next,
}
use touch_feedback.System.Invariant.{Sound}
use touch_feedback.System.Themes
use touch_feedback.System.Themes.{Follower, Followers, set_up_in}
use touch_feedback.System.Placing.{Reach-placed}
use touch_feedback.Cache.Keys.{TellsIndexes, IsIndex}
use touch_feedback.Handle
use touch_feedback.Handle.{new_handle}
use touch_feedback.Cache.{search_from_cache, add_to_cache, key_value}
use touch_feedback.System.Outcomes.{Reach-Sound}
use touch_feedback.Tests.Data.{demo, two_backends, hex}
use touch_feedback.System.Ending.{shut_down, Reach-shut_down}
use touch_feedback.Plugins.{Manager}
use touch_feedback.Plugins.Lists
use touch_feedback.Feedback.Fitting.{SameBackends, SameBackends-refl, SameBackends-Keeps}
use touch_feedback.Session.Keeping.{map_feedbacks-Keeps}
use touch_feedback.Tests.Sessions.{
  blue_lists, phone, ready_phone, ready_world, phone-mapped, reloaded, same_app,
}

pub demo-IsTidy : IsTidy demo.plugin
demo-IsTidy calls b dir failed = cc

pub two_backends-IsStart : IsStart two_backends
two_backends-IsStart = record {
  backends = (refl, (refl, tt));
  direct = omega arith;
  no_object = λ o. refl;
  no_entry = refl;
  no_call = refl;
}

abbrev with_phone : System
with_phone = record { world = two_backends; sessions = phone ∷ [] }

abbrev with_ready_phone : System
with_ready_phone = record { world = ready_world; sessions = ready_phone ∷ [] }

abbrev phone_gone : System
phone_gone = record { world = destroy_session demo ready_phone ready_world; sessions = [] }

with_phone-Reach : Reach demo with_phone
unfolding new_session
with_phone-Reach =
    next (record { world = two_backends; sessions = [] }) with_phone
      (start two_backends two_backends-IsStart) (connects [] [] (codes "app") refl refl)

with_ready_phone-Reach : Reach demo with_ready_phone
with_ready_phone-Reach =
    next with_phone with_ready_phone with_phone-Reach
      (sets_up [] [] phone ready_phone ready_world 2 false false true refl phone-mapped refl)

phone_gone-Reach : Reach demo phone_gone
phone_gone-Reach =
    next with_ready_phone phone_gone with_ready_phone-Reach (ends [] [] ready_phone refl refl)

abbrev with_new_theme : System
with_new_theme = record { world = reloaded.1; sessions = reloaded.0 ∷ [] }

with_new_theme-Reach : Reach demo with_new_theme
with_new_theme-Reach =
    next with_ready_phone with_new_theme with_ready_phone-Reach
      (changes_theme [] [] ready_phone reloaded.0 reloaded.1 2 (codes "blue") refl same_app refl)

Reach-Sound_example : Sound demo with_new_theme
Reach-Sound_example = Reach-Sound demo demo-IsTidy with_new_theme with_new_theme-Reach

abbrev feedback_or : Option Feedback → Feedback
feedback_or none = record {
  feedback_name = [];
  feedback_volume_priority = pos 0;
  feedback_handles = [];
  concurrent_players = 0;
}
feedback_or (some f) = f

abbrev pub press : Feedback
press = feedback_or (lookup (codes "press") ready_phone.feedback_hash)

pub press-found :
    (lookup (codes "press") ready_phone.feedback_hash ≡ some press)
    × (press.feedback_volume_priority ≡ pos 0)
unfolding lookup map_feedbacks add_feedback new_feedback load_feedback load_slots load_slot
    load_first load_handle release volume_priority insert override_first override_dirs initial_lists
    default_names prepend_dir prepend_dirs add_themes fallback_index fallback_loop
    find_feedback_fallback_paths is_name_char is_valid_name get_feedback_dirs_from_path
    get_feedback_dirs_of_a_theme dir_lists text_eq last_section first_section
    first_section_skip_empty
press-found = (refl, refl)

ready_world-SameBackends : SameBackends two_backends ready_world
ready_world-SameBackends =
    map_feedbacks-Keeps demo (SameBackends two_backends) (SameBackends-Keeps demo two_backends)
      blue_lists phone two_backends (SameBackends-refl two_backends)

abbrev running : Manager
running = record {
  world = ready_world;
  source_list = [];
  backend_loader_list = codes "a" ∷ codes "b" ∷ [];
  source_loader_list = [];
}

running-Inv : Lists.Inv running
running-Inv = record {
  backends = rw (ready_world-SameBackends.backends) (refl, (refl, tt));
  sources = tt;
  backend_loaders = rw (ready_world-SameBackends.backends) refl;
  source_loaders = refl;
  non_threaded =
      rw (ready_world-SameBackends.direct, ready_world-SameBackends.backends) (omega arith);
}

Reach-shut_down_example :
    (n : Manager) × (shut_down demo (ready_phone ∷ []) running ≡ some n)
    × ((o : ℕ) → n.world.object o ≡ none)
    × (n.world.feedback_handle_hash ≡ [])
    × (n.world.backend_list ≡ [])
    × ((c : ℕ)
        → contains c ready_world.backend_list ≡ true
        → ((n.world.connector c).timer ≡ none) × ((n.world.connector c).attempt ≡ false))
    × ((b v : ℕ) → held demo.plugin n.world.calls b v ≡ 0)
    × Clean demo.plugin n.world.calls
Reach-shut_down_example =
    Reach-shut_down demo demo-IsTidy (ready_phone ∷ []) running with_ready_phone-Reach running-Inv

demo-TellsIndexes : TellsIndexes demo 2
demo-TellsIndexes = record { no_hash = no_hash; injective = injective }
  where
    no_hash : (i : ℤ) → IsIndex 2 i → contains b'#' (hex i) ≡ false
    no_hash (pos n) below = ground arith
    no_hash (negsuc n) is = ground arith

    injective : (i j : ℤ) → IsIndex 2 i → IsIndex 2 j → hex i ≡ hex j → i ≡ j
    injective (pos n) (pos m) a b e = ground arith
    injective (pos n) (negsuc m) a b e = cc
    injective (negsuc n) (pos m) a b e = cc
    injective (negsuc n) (negsuc m) a b e = rw (a, b) refl

abbrev handle_or : Option Handle → Handle
handle_or none = new_handle
handle_or (some h) = h

abbrev press_handle : Handle
press_handle = handle_or (ready_world.object 1)

press-placed :
    (get_elem? press.feedback_handles 1 ≡ some (some 1))
    × (ready_world.object 1 ≡ some press_handle)
unfolding lookup map_feedbacks add_feedback new_feedback load_feedback load_slots load_slot
    load_first load_handle release volume_priority insert override_first override_dirs initial_lists
    default_names prepend_dir prepend_dirs add_themes fallback_index fallback_loop
    find_feedback_fallback_paths is_name_char is_valid_name get_feedback_dirs_from_path
    get_feedback_dirs_of_a_theme dir_lists text_eq last_section first_section
    first_section_skip_empty search_from_cache make_handle Handle.load Handle.attach add_to_cache
    key_value remove
press-placed = (refl, refl)

Reach-placed_example : press_handle.backend_if ≡ get_elem? ready_world.backend_list 1
Reach-placed_example =
    Reach-placed demo demo-IsTidy with_ready_phone [] [] ready_phone (codes "press") press 1 1
      press_handle (rw (ready_world-SameBackends.backends) demo-TellsIndexes) with_ready_phone-Reach
      refl press-found.0 press-placed.0 press-placed.1

abbrev app_waits : Follower
app_waits = record { session = phone; signals = []; loaded = none }

abbrev app_follows : Follower
app_follows = set_up_in two_backends true app_waits ready_phone

abbrev following : Followers
following = record { world = ready_world; followers = app_follows ∷ [] }
