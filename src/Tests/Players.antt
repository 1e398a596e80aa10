-- ===== src/Tests/Players.antt =====
-- The theorems on playing at concrete inputs: the first of two slots has a handle that is ready.
use touch_feedback.Base.{◌≡◌, refl, none, some, [], ◌∷◌, arith, ◌==◌, if◌then◌else◌}
use touch_feedback.Base.Int.{pos, negsuc}
use touch_feedback.Base.Text.{codes}
use touch_feedback.Base.Dict.{lookup}
use touch_feedback.Backend.{plays, volume_medium}
use touch_feedback.World.{Handle, World, ready, backend_state}
use touch_feedback.Feedback.{Feedback, volume_at, too_late, play_feedback}
use touch_feedback.Feedback.Playing.{
  played, volume_of, play_feedback-played, play_feedback-negative,
}
use touch_feedback.Handle.{play}
use touch_feedback.Tests.Data.{demo, two_backends}

abbrev click : Handle
click = record {
  backend_if = some 3;
  handle = some 7;
  feedback_dir_path = codes "/t/base/press";
  ref_cnt = 1;
  current_state = ready;
}

abbrev with_click : World
with_click = record two_backends { object = λ o. if o == 0 then some click else none }

abbrev press_at_0 : Feedback
press_at_0 = record {
  feedback_name = codes "press";
  feedback_volume_priority = pos 0;
  feedback_handles = some 0 ∷ none ∷ [];
  concurrent_players = 1;
}

play_feedback-played_example :
    play_feedback demo (pos 100) (pos 5) (pos 3) press_at_0 with_click
    ≡ some (
        if too_late (pos 100) (pos 5) (pos 3) then with_click else record with_click {
          calls =
              played with_click.object
                (backend_state with_click)
                (volume_of demo 0 with_click)
                0
                press_at_0.feedback_handles
                with_click.calls;
        })
play_feedback-played_example =
    play_feedback-played demo (pos 100) (pos 5) (pos 3) press_at_0 0 with_click refl (omega arith)
      (omega arith) (omega arith)

-- One call, for the backend that is connected.
played_run :
    played with_click.object
      (backend_state with_click)
      (volume_of demo 0 with_click)
      0
      press_at_0.feedback_handles
      []
    ≡ plays 3 7 volume_medium ∷ []
unfolding play volume_at lookup
played_run = refl

play_feedback-negative_example :
    play_feedback demo
      (pos 100)
      (pos 5)
      (pos 3)
      (record press_at_0 { feedback_volume_priority = negsuc 4 })
      with_click
    ≡ none
play_feedback-negative_example =
    play_feedback-negative demo (pos 100) (pos 5) (pos 3)
      (record press_at_0 { feedback_volume_priority = negsuc 4 }) 4 with_click refl refl refl
