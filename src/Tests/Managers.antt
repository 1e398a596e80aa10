-- ===== src/Tests/Managers.antt =====
-- The theorem on the disconnection of a backend at a concrete input: one feedback is loaded on two
-- backends.
use touch_feedback.Base.{ℕ, ◌≡◌}
use touch_feedback.Base.Text.{Text}
use touch_feedback.Base.Dict.{lookup}
use touch_feedback.World.{World}
use touch_feedback.Cache.{unload_handles_for_a_backend}
use touch_feedback.Cache.Invariant
use touch_feedback.Cache.Unloading.{object_left, entry_left, unload_handles_for_a_backend-Inv}
use touch_feedback.Feedback.{Feedback, new_feedback, load_feedback}
use touch_feedback.Feedback.References.{bump_all}
use touch_feedback.Tests.Data.{demo, two_backends, nobody}
use touch_feedback.Tests.Feedbacks.{press_dirs, loaded-Inv}

abbrev press : Feedback
press = (load_feedback demo press_dirs (new_feedback two_backends) two_backends).0

abbrev loaded : World
loaded = (load_feedback demo press_dirs (new_feedback two_backends) two_backends).1

unload_handles_for_a_backend-Inv_example :
    Invariant.Inv demo
      (unload_handles_for_a_backend 3 loaded)
      (bump_all press.feedback_handles nobody)
    × ((q : ℕ) → (unload_handles_for_a_backend 3 loaded).object q ≡ object_left 3 loaded q)
    × ((k : Text)
        → lookup k (unload_handles_for_a_backend 3 loaded).feedback_handle_hash
          ≡ entry_left 3 loaded (lookup k loaded.feedback_handle_hash))
unload_handles_for_a_backend-Inv_example =
    unload_handles_for_a_backend-Inv demo 3 loaded (bump_all press.feedback_handles nobody)
      loaded-Inv
