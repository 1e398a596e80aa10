-- ===== src/Feedback/Playing.antt =====
-- `MfFeedback::play`: that it stays within its lists, and what it plays.
use touch_feedback.Base.{
  ℕ, suc, ◌+◌, ◌-◌, ◌≤◌, ◌<◌, ◌≡◌, refl, Bool, true, false, Option, none, some, List, [], ◌∷◌,
  arith, if◌then◌else◌, length, get_elem?-lt, ltb, Option-cases, inl, inr, Bool-cases,
}
use touch_feedback.Base.Int.{ℤ, pos, negsuc}
use touch_feedback.Backend.{State, PlaybackVolume, volume_medium, Call}
use touch_feedback.World.{Platform, Handle, World, backend_state, is_ready}
use touch_feedback.Handle.{play}
use touch_feedback.Feedback.{Feedback, volume_at, play_slots, play_feedback, too_late}

-- The handle that a slot plays: one that is there and ready.
abbrev ready_handle : Option Handle → Option Handle
ready_handle none = none
ready_handle (some h) = if is_ready h.current_state then some h else none

abbrev pub slot_handle : (ℕ → Option Handle) → Option ℕ → Option Handle
slot_handle object none = none
slot_handle object (some o) = ready_handle (object o)

abbrev played_slot : (ℕ → State) → PlaybackVolume → Option Handle → List Call → List Call
played_slot states v none calls = calls
played_slot states v (some h) calls = play states v h calls

-- The calls after every ready slot from the index i on is played at the volume of its index.
abbrev pub played :
    (ℕ → Option Handle)
    → (ℕ → State)
    → (ℕ → PlaybackVolume)
    → ℕ
    → List (Option ℕ)
    → List Call
    → List Call
played object states volume i [] calls = calls
played object states volume i (s ∷ slots) calls =
    played object states volume (suc i) slots
      (played_slot states (volume i) (slot_handle object s) calls)

-- Is there a slot to play?
abbrev pub some_ready : (ℕ → Option Handle) → List (Option ℕ) → Bool
some_ready object [] = false
some_ready object (s ∷ slots) = elim (slot_handle object s) [
  | none ↦ some_ready object slots
  | some h ↦ true
]

abbrev volume_or : Option PlaybackVolume → PlaybackVolume
volume_or none = volume_medium
volume_or (some v) = v

module _ (p : Platform) where
  abbrev pub volume_of : ℕ → World → ℕ → PlaybackVolume
  volume_of n w i = volume_or (volume_at p (pos n) i w)

  volume_at-some :
      (n i : ℕ) (w : World)
      → i < length w.backend_list
      → volume_at p (pos n) i w ≡ some (volume_of n w i)
  unfolding volume_at
  volume_at-some n i w lt = ground (arith, (get_elem?-lt w.backend_list i lt).1)

  play_slots_lem :
      (f : Feedback) (n i : ℕ) (slots : List (Option ℕ)) (players : ℕ) (w : World)
      → f.feedback_volume_priority ≡ pos n
      → f.concurrent_players ≡ length w.backend_list - w.non_threaded_backend_count
      → i + length slots ≤ length w.backend_list
      → players ≤ i - w.non_threaded_backend_count
      → (m : ℕ) × (play_slots p f i slots players w
          ≡ some (
            m,
            record w { calls = played w.object (backend_state w) (volume_of n w) i slots w.calls },
          ))
  unfolding play_slots volume_at
  play_slots_lem f n i [] players w e c fits few = (players, refl)
  play_slots_lem f n i (none ∷ slots) players w e c fits few =
      play_slots_lem f n (suc i) slots players w e c (omega arith) (omega arith)
  play_slots_lem f n i (some o ∷ slots) players w e c fits few = elim (Option-cases (w.object o)) [
    | inl gone ↦
        let idle = play_slots_lem f n (suc i) slots players w e c (omega arith) (omega arith) in
        (idle.0, rw (gone, play_slots) (idle.1))
    | inr (h, live) ↦ elim (Bool-cases (is_ready h.current_state)) [
      | inr busy ↦
          let idle = play_slots_lem f n (suc i) slots players w e c (omega arith) (omega arith) in
          (idle.0, rw (live, play_slots, busy) (idle.1))
      | inl is ↦
          let v = volume_of n w i in
          let w' : World = record w { calls = play (backend_state w) v h w.calls } in
          elim (Bool-cases (ltb i w.non_threaded_backend_count)) [
            | inl direct ↦
                let rest =
                  play_slots_lem f n (suc i) slots players w' e c (omega arith) (omega arith) in
                (
                  rest.0,
                  ground (arith, live, is, e, volume_at-some n i w (omega arith), direct, rest.1),
                )
            | inr threaded ↦
                let rest =
                  play_slots_lem f n (suc i) slots (suc players) w' e c (omega arith)
                    (ground arith) in
                (
                  rest.0,
                  ground (arith, live, is, e, volume_at-some n i w (omega arith), threaded, rest.1),
                )
          ]
    ]
  ]

  -- For a priority that is not negative, a feedback with one player for each backend that has a
  -- thread, and slots for the backends without one and for no more backends than there are: `play`
  -- reads no list out of its range. Unless it is too late, in which case it does nothing, it plays
  -- each slot whose handle is there and ready, in order, at the volume of the priority and backend,
  -- and changes nothing else.
  pub play_feedback-played :
      (limit now timestamp : ℤ) (f : Feedback) (n : ℕ) (w : World)
      → f.feedback_volume_priority ≡ pos n
      → f.concurrent_players ≡ length w.backend_list - w.non_threaded_backend_count
      → length f.feedback_handles ≤ length w.backend_list
      → w.non_threaded_backend_count ≤ length f.feedback_handles
      → play_feedback p limit now timestamp f w
        ≡ some (
            if too_late limit now timestamp then w else record w {
              calls =
                  played w.object (backend_state w) (volume_of n w) 0 f.feedback_handles w.calls;
            })
  unfolding play_feedback
  play_feedback-played limit now timestamp f n w e c fits direct =
      let loop = play_slots_lem f n 0 f.feedback_handles 0 w e c (omega arith) (omega arith) in
      elim (Bool-cases (too_late limit now timestamp)) [
        | inl late ↦ rw (late, play_feedback) refl
        | inr early ↦ rw (early, play_feedback) (ground (arith, loop.1))
      ]

  play_slots-negative :
      (f : Feedback) (n i : ℕ) (slots : List (Option ℕ)) (players : ℕ) (w : World)
      → f.feedback_volume_priority ≡ negsuc n
      → some_ready w.object slots ≡ true
      → play_slots p f i slots players w ≡ none
  unfolding play_slots volume_at
  play_slots-negative f n i [] players w e ready = cc
  play_slots-negative f n i (none ∷ slots) players w e ready =
      play_slots-negative f n (suc i) slots players w e ready
  play_slots-negative f n i (some o ∷ slots) players w e ready =
      ground (arith, e, play_slots-negative f n (suc i) slots players w e)

  -- With a negative priority `play` indexes the list of volumes out of its range as soon as one of
  -- the slots has a handle that is ready.
  pub play_feedback-negative :
      (limit now timestamp : ℤ) (f : Feedback) (n : ℕ) (w : World)
      → f.feedback_volume_priority ≡ negsuc n
      → too_late limit now timestamp ≡ false
      → some_ready w.object f.feedback_handles ≡ true
      → play_feedback p limit now timestamp f w ≡ none
  unfolding play_feedback
  play_feedback-negative limit now timestamp f n w e early ready =
      rw (early, play_feedback)
        (ground (arith, play_slots-negative f n 0 f.feedback_handles 0 w e ready))
