-- ===== src/Feedback.antt =====
-- src/lib/mffeedback.cpp. A feedback keeps one QPointer to a handle for each backend.
pub mod Later
pub mod Placing
pub mod Release
pub mod LoadHandle
pub mod References
pub mod Playing
pub mod Keeping
pub mod Owning
pub mod Fitting
use touch_feedback.Base.{
  ℕ, zero, suc, ◌+◌, ◌-◌, Bool, true, false, not, ◌&&◌, Option, none, some, List, [], ◌∷◌, ltb, leb,
  if◌then◌else◌, length, replicate, get_elem?, drop,
}
use touch_feedback.Base.Int.{ℤ, pos, negsuc, ◌-ℤ◌, ltb_ℤ}
use touch_feedback.Base.Text.{Text, codes, starts_with, first_section, last_section}
use touch_feedback.Base.Dict.{Dict, lookup, value}
use touch_feedback.Backend.{PlaybackVolume, volume_medium}
use touch_feedback.World.{
  Platform, HandleState, empty, ready, ignored, is_ready, is_empty_state, Handle, World,
  backend_state, deref, update,
}
use touch_feedback.Handle.{new_handle, load, play, delete, attach, detach}
use touch_feedback.Cache.{search_from_cache, add_to_cache, remove_from_cache}

-- `concurrent_players` counts the QFuture placeholders.
pub record Feedback : Type 0 where
  pub feedback_name : Text
  pub feedback_volume_priority : ℤ
  pub feedback_handles : List (Option ℕ)
  pub concurrent_players : ℕ

abbrev pub volume_priority_prefix : Text
volume_priority_prefix = codes "priority"

-- The constructor.
unfoldable pub new_feedback : World → Feedback
new_feedback w = record {
  feedback_name = [];
  feedback_volume_priority = pos 0;
  feedback_handles = replicate (length w.backend_list) none;
  concurrent_players = length w.backend_list - w.non_threaded_backend_count;
}

abbrev pub priority_of : Option ℤ → ℤ
priority_of none = pos 0
priority_of (some n) = n

-- What `load` makes of the priority when it is `old`.
unfoldable pub volume_priority : Platform → Text → ℤ → ℤ
volume_priority p name old =
    let s = first_section b'_' name in
    if starts_with s volume_priority_prefix
    then priority_of (p.to_int (drop (length volume_priority_prefix) s))
    else old

-- `timestamp` -1 stands for no timestamp.
abbrev pub too_late : ℤ → ℤ → ℤ → Bool
too_late limit now (negsuc zero) = false
too_late limit now timestamp = ltb_ℤ limit (now -ℤ timestamp)

module _ (p : Platform) where
  -- `new MfFeedbackHandle(manager)` and its `load`: the state with the object at `next_object`.
  unfoldable pub make_handle : Text → ℕ → World → World
  make_handle dir i w =
      let (h, calls') =
        load p (backend_state w) dir (get_elem? w.backend_list i) new_handle w.calls in
      record w {
        object = update w.object w.next_object (some h);
        next_object = suc w.next_object;
        calls = calls';
      }

  abbrev pub has_content : ℕ → World → Bool
  has_content o w = elim (w.object o) [
    | none ↦ false
    | some h ↦ not (is_empty_state h.current_state)
  ]

  -- `loadHandle`: the pointer that it returns.
  unfoldable pub load_handle : Text → ℕ → World → Option ℕ × World
  load_handle dir i w = elim (search_from_cache p dir i w) [
    | some o ↦ (some o, attach o w)
    | none ↦
        let o = w.next_object in
        let w' = make_handle dir i w in
        if has_content o w' then (some o, attach o (add_to_cache p o w')) else (none, delete o w')
  ]

  -- The inner loop of `load`: the first directory that gives a handle.
  unfoldable pub load_first : List Text → ℕ → World → Option ℕ × World
  unfolding load_handle
  load_first [] i w = (none, w)
  load_first (dir ∷ dirs) i w =
      let found = load_handle dir i w in
      let rest = load_first dirs i found.1 in elim found.0 [ some o ↦ found | none ↦ rest ]

  -- The dereference of a handle, out of the cache first if it is about to be deleted.
  unfoldable pub release : Option ℕ → World → World
  release none w = w
  release (some o) w = elim (w.object o) [
    | none ↦ w
    | some h ↦ detach o (if leb h.ref_cnt 1 then remove_from_cache p o w else w)
  ]

  -- One round of the outer loop of `load`: the new pointer of the slot, and the state.
  unfoldable pub load_slot : List Text → ℕ → Option ℕ → World → Option ℕ × World
  unfolding load_first release
  load_slot dirs i old w =
      let (new, w') = load_first dirs i w in
      (new, release (elim (deref w old) [ none ↦ none | some h ↦ old ]) w')

  unfoldable pub load_slots : List Text → ℕ → List (Option ℕ) → World → List (Option ℕ) × World
  unfolding load_slot
  load_slots dirs i [] w = ([], w)
  load_slots dirs i (old ∷ slots) w =
      let (new, w') = load_slot dirs i old w in
      let (rest, w'') = load_slots dirs (suc i) slots w' in (new ∷ rest, w'')

  unfoldable pub load_feedback : List Text → Feedback → World → Feedback × World
  unfolding load_slots volume_priority
  load_feedback [] f w = (f, w)
  load_feedback (dir ∷ dirs) f w =
      let name = last_section b'/' dir in
      let (slots, w') = load_slots (dir ∷ dirs) 0 f.feedback_handles w in
      (
        record f {
          feedback_name = name;
          feedback_volume_priority = volume_priority p name f.feedback_volume_priority;
          feedback_handles = slots;
        },
        w',
      )

  -- The loop of `unload`.
  unfoldable pub unload_slots : List (Option ℕ) → World → World
  unfolding release
  unload_slots [] w = w
  unload_slots (o ∷ slots) w = unload_slots slots (release o w)

  -- The destructor: `unload`, and the lists are cleared.
  unfoldable pub destroy_feedback : Feedback → World → World
  unfolding unload_slots
  destroy_feedback f w = unload_slots f.feedback_handles w

  -- The volume for a feedback of this priority on the backend of this index. `none` is an access
  -- out of the list's range.
  unfoldable pub volume_at : ℤ → ℕ → World → Option PlaybackVolume
  volume_at (negsuc n) i w = none
  volume_at (pos n) i w = elim (get_elem? w.backend_volumes n) [
    | none ↦ some volume_medium
    | some volumes ↦ elim (get_elem? w.backend_list i) [
      | none ↦ none
      | some b ↦ some (value volume_medium (lookup (p.name b) volumes))
    ]
  ]

  -- Both loops of `play` from the index i on: the number of players that were started, and the
  -- state. The calls of the threads stand in the order in which the threads are started. `none`
  -- is an access out of a list's range.
  unfoldable pub play_slots : Feedback → ℕ → List (Option ℕ) → ℕ → World → Option (ℕ × World)
  unfolding volume_at
  play_slots f i [] players w = some (players, w)
  play_slots f i (s ∷ slots) players w =
      let idle = play_slots f (suc i) slots players w in
      elim (deref w s) [
        | none ↦ idle
        | some h ↦ elim (is_ready h.current_state) [
          | false ↦ idle
          | true ↦ elim (volume_at f.feedback_volume_priority i w) [
            | none ↦ none
            | some v ↦
                let w' : World = record w { calls = play (backend_state w) v h w.calls } in
                let direct = play_slots f (suc i) slots players w' in
                let threaded = play_slots f (suc i) slots (suc players) w' in
                elim (ltb i w.non_threaded_backend_count) [
                  | true ↦ direct
                  | false ↦ elim (ltb players f.concurrent_players) [
                    | true ↦ threaded
                    | false ↦ none
                  ]
                ]
          ]
        ]
      ]

  -- The slot `play`, at the time `now`, under the latency limit. The first loop reads one handle
  -- for each backend without a thread.
  unfoldable pub play_feedback : ℤ → ℤ → ℤ → Feedback → World → Option World
  unfolding play_slots
  play_feedback limit now timestamp f w =
      if too_late limit now timestamp
      then some w
      else if ltb (length f.feedback_handles) w.non_threaded_backend_count
      then none
      else (elim (play_slots f 0 f.feedback_handles 0 w) [
        | none ↦ none
        | some (players, w') ↦ some w'
      ])
