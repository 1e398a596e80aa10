-- ===== src/Session.antt =====
-- src/lib/mfsession.cpp: the feedbacks of one application.
pub mod Exclusion
pub mod Counts
pub mod References
pub mod Ends
pub mod Keeping
pub mod Fitting
pub mod Knowing
pub mod Placing
pub mod Reloading
use touch_feedback.Base.{
  ℕ, Bool, true, false, Option, none, some, List, [], ◌∷◌, ◌++◌, if◌then◌else◌,
}
use touch_feedback.Base.Text.{Text, last_section}
use touch_feedback.Base.Dict.{Dict, lookup, insert}
use touch_feedback.World.{Platform, World}
use touch_feedback.Feedback.{Feedback, new_feedback, load_feedback, destroy_feedback}
use touch_feedback.Theme.{Outcome, done, fatal, endless, ◌>>=◌, get_feedback_dir_lists}

-- `orphans` are the feedbacks that another one of the same name has replaced in the hash; they
-- stay the session's children until it is deleted.
pub record Session : Type 0 where
  pub app_name : Text
  pub setup_finished : Bool
  pub feedback_hash : Dict Feedback
  pub orphans : List Feedback

-- The constructor. The timer that it starts for `setup` is an event of its own.
unfoldable pub new_session : Text → Session
new_session application_name = record {
  app_name = application_name;
  setup_finished = false;
  feedback_hash = [];
  orphans = [];
}

-- `feedbackHash[feedback->name()] = feedback`
unfoldable pub add_feedback : Feedback → Session → Session
add_feedback f s = record s {
  feedback_hash = insert f.feedback_name f s.feedback_hash;
  orphans = elim (lookup f.feedback_name s.feedback_hash) [
    | none ↦ s.orphans
    | some old ↦ old ∷ s.orphans
  ];
}

abbrev pub first_of_dirs : List Text → Option Text
first_of_dirs [] = none
first_of_dirs (d ∷ dirs) = some d

-- `setupInProgress.testAndSetAcquire(expected, new)`: the flag after it, and whether it was set.
unfoldable test_and_set : Bool → Bool → Bool → Bool × Bool
test_and_set false new false = (new, true)
test_and_set false new true = (true, false)
test_and_set true new true = (new, true)
test_and_set true new false = (false, false)

-- How `setup` begins: the flag after it, and whether the session goes on. If it does not, it only
-- starts another timer.
unfoldable pub setup_begin : Bool → Bool × Bool
unfolding test_and_set
setup_begin in_progress = test_and_set false true in_progress

-- How `setup` ends: the flag after it.
unfoldable pub setup_end : Bool → Bool
unfolding test_and_set
setup_end in_progress = (test_and_set true false in_progress).0

module _ (p : Platform) where
  -- The loop of `setup` that maps the feedbacks.
  unfoldable pub map_feedbacks : List (List Text) → Session → World → Session × World
  unfolding add_feedback new_feedback
  map_feedbacks [] s w = (s, w)
  map_feedbacks (dirs ∷ lists) s w =
      let (f, w') = load_feedback p dirs (new_feedback w) w in
      map_feedbacks lists (add_feedback f s) w'

  -- The body of `setup` once the flag is taken. `setupReady` is emitted in it.
  unfoldable pub setup_body : ℕ → Session → World → Outcome (Session × World)
  unfolding map_feedbacks
  setup_body fuel s w = do
    lists ← get_feedback_dir_lists p fuel w.current_theme_name s.app_name
    elim lists [
      | [] ↦ fatal
      | dirs ∷ more ↦
          let (s', w') = map_feedbacks (dirs ∷ more) s w in
          done (record s' { setup_finished = true }, w')
    ]

  -- `setup` with no other event in between: the flag, whether `setupReady` was emitted, and the
  -- session and state. With the flag taken it only waits for another timer.
  unfoldable pub setup : ℕ → Bool → Session → World → Outcome (Bool × Bool × Session × World)
  unfolding setup_body setup_begin setup_end
  setup fuel in_progress s w =
      let (flag, taken) = setup_begin in_progress in
      if taken
      then (do (s', w') ← setup_body fuel s w; done (setup_end flag, true, s', w'))
      else done (flag, false, s, w)

  -- The loop of `themeChanged`. A list is never empty; of an empty one the source would read past
  -- the end, and here nothing is done.
  unfoldable pub reload_feedbacks : List (List Text) → Session → World → Session × World
  reload_feedbacks [] s w = (s, w)
  reload_feedbacks ([] ∷ lists) s w = reload_feedbacks lists s w
  reload_feedbacks ((dir ∷ dirs) ∷ lists) s w =
      let name = last_section b'/' dir in
      let next : Session × World = elim (lookup name s.feedback_hash) [
        | none ↦ (s, w)
        | some f ↦
            let (f', w') = load_feedback p (dir ∷ dirs) f w in
            (record s { feedback_hash = insert name f' s.feedback_hash }, w')
      ] in
      reload_feedbacks lists next.0 next.1

  unfoldable pub theme_changed : ℕ → Text → Session → World → Outcome (Session × World)
  unfolding reload_feedbacks
  theme_changed fuel theme_name s w = do
    lists ← get_feedback_dir_lists p fuel theme_name s.app_name
    done (reload_feedbacks lists s w)

  -- The loop of the destructor over the hash.
  unfoldable pub destroy_hash : Dict Feedback → World → World
  unfolding destroy_feedback
  destroy_hash [] w = w
  destroy_hash ((k, f) ∷ fs) w = destroy_hash fs (destroy_feedback p f w)

  unfoldable pub destroy_children : List Feedback → World → World
  unfolding destroy_feedback
  destroy_children [] w = w
  destroy_children (f ∷ fs) w = destroy_children fs (destroy_feedback p f w)

  -- The destructor, and that of QObject, which deletes the other children.
  unfoldable pub destroy_session : Session → World → World
  unfolding destroy_hash destroy_children
  destroy_session s w = destroy_children s.orphans (destroy_hash s.feedback_hash w)
