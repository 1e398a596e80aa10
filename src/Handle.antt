-- ===== src/Handle.antt =====
-- src/lib/mffeedbackhandle.cpp. `load`, `unload` and `play` act on one object and on the calls of
-- the plugins; `attach`, `detach` and the destructor act on the store of objects.
pub mod Ledger
use touch_feedback.Base.{ℕ, suc, ◌-◌, not, ◌&&◌, Option, none, some, List, [], leb, if◌then◌else◌}
use touch_feedback.Base.Text.{Text}
use touch_feedback.Backend.{
  State, PlaybackVolume, is_connected, is_off, Call, load_handle_wrapper, unload_handle_wrapper,
  play_wrapper,
}
use touch_feedback.World.{
  Platform, HandleState, empty, ready, ignored, is_ready, Handle, World, update,
}

unfoldable pub new_handle : Handle
new_handle = record {
  backend_if = none;
  handle = none;
  feedback_dir_path = [];
  ref_cnt = 0;
  current_state = empty;
}

abbrev unload_calls : Option ℕ → Option ℕ → List Call → List Call
unload_calls none handle calls = calls
unload_calls (some b) handle calls = unload_handle_wrapper b handle calls

-- The reference to the backend stays.
unfoldable pub unload : Handle → List Call → Handle × List Call
unfolding unload_handle_wrapper
unload h calls = (
  record h { handle = none; feedback_dir_path = []; current_state = empty },
  unload_calls h.backend_if h.handle calls,
)

-- `if (currentState == Ready) unload()`
unfoldable pub unload_if_ready : Handle → List Call → Handle × List Call
unfolding unload
unload_if_ready h calls = if is_ready h.current_state then unload h calls else (h, calls)

abbrev pub state_of : Option ℕ → HandleState
state_of none = ignored
state_of (some v) = ready

module _ (p : Platform) (states : ℕ → State) where
  -- The rest of `load`, once the backend is there, the directory exists and no old handle is loaded.
  unfoldable pub load_content : ℕ → Text → Handle → List Call → Handle × List Call
  unfolding load_handle_wrapper
  load_content b path h calls =
      let (done, loaded, calls') = load_handle_wrapper p.plugin b (states b) path h.handle calls in
      if done
      then (
        record h {
          handle = loaded;
          feedback_dir_path = path;
          backend_if = some b;
          current_state = state_of loaded;
        },
        calls',
      )
      else (record h { handle = loaded }, calls')

  unfoldable pub load : Text → Option ℕ → Handle → List Call → Handle × List Call
  unfolding load_content unload_if_ready
  load path none h calls = (h, calls)
  load path (some b) h calls =
      if p.dir_exists path
      then (let (h', calls') = unload_if_ready h calls in load_content b path h' calls')
      else (h, calls)

-- `play`
unfoldable pub play : (ℕ → State) → PlaybackVolume → Handle → List Call → List Call
unfolding play_wrapper
play states volume h calls = elim h.backend_if [
  | none ↦ calls
  | some b ↦ elim h.handle [
    | none ↦ calls
    | some r ↦
        if is_connected (states b) && not (is_off volume)
        then play_wrapper b (states b) (some r) volume calls
        else calls
  ]
]

-- `delete`: the destructor, and the memory goes.
unfoldable pub delete : ℕ → World → World
unfolding unload_if_ready
delete o w = elim (w.object o) [
  | none ↦ w
  | some h ↦
      let (h', calls') = unload_if_ready h w.calls in
      record w { object = update w.object o none; calls = calls' }
]

unfoldable pub attach : ℕ → World → World
attach o w = elim (w.object o) [
  | none ↦ w
  | some h ↦ record w { object = update w.object o (some (record h { ref_cnt = suc h.ref_cnt })) }
]

-- The count falls by one, and the object goes when it is then 0 or less.
unfoldable pub detach : ℕ → World → World
unfolding delete
detach o w = elim (w.object o) [
  | none ↦ w
  | some h ↦
      if leb h.ref_cnt 1
      then delete o w
      else record w { object = update w.object o (some (record h { ref_cnt = h.ref_cnt - 1 })) }
]
