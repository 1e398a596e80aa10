-- ===== src/Feedback/Owning.antt =====
-- The owners of what is handed out, over loading, unloading and playing.
use touch_feedback.Base.{
  ℕ, suc, ◌≡◌, refl, ◌∙◌, true, Option, none, some, List, [], ◌∷◌, arith, Bool-cases, Option-cases,
  inl, inr, get_elem?, subst, ltb, length,
}
use touch_feedback.Base.Int.{ℤ}
use touch_feedback.Base.Text.{Text}
use touch_feedback.Backend.{Call, PlaybackVolume, play_wrapper}
use touch_feedback.Backend.Ledger.{held, Clean, IsTidy}
use touch_feedback.World.{Platform, Handle, World, update, is_ready, backend_state}
use touch_feedback.Handle.{new_handle, unload, unload_if_ready, load, delete, play}
use touch_feedback.Handle.Ledger.{
  IsIdle, Ledger, owners-update, owners-update_above, owns-le-held, held-unload, unload-Clean,
  held-load, load-Clean, load-IsIdle, held-unload_if_ready, unload_if_ready-Clean, gone-Ledger,
}
use touch_feedback.Cache.{unload_and_delete}
use touch_feedback.Feedback.{Feedback, make_handle, play_slots, play_feedback, volume_at, too_late}
use touch_feedback.Feedback.Keeping.{Keeps}

module _ (p : Platform) where
  recounted-Ledger :
      (o : ℕ) (h : Handle) (n : ℕ) (w : World)
      → w.object o ≡ some h
      → Ledger p w
      → Ledger p (record w { object = update w.object o (some (record h { ref_cnt = n })) })
  recounted-Ledger o h n w live v = record {
    fresh = λ q above. ground (arith, v.fresh q above);
    idle = λ q g x. ground (arith, v.idle q g, v.idle o h live);
    settled = λ b r. ground (
      arith,
      live,
      v.fresh o,
      v.settled b r,
      owners-update b r w.object o (some (record h { ref_cnt = n })) w.next_object,
    );
    clean = v.clean;
  }

  made-Ledger :
      IsTidy p.plugin
      → (dir : Text) (i : ℕ) (w : World) → Ledger p w
      → Ledger p (make_handle p dir i w)
  unfolding make_handle
  made-Ledger tidy dir i w v =
      let backend = get_elem? w.backend_list i in
      let states = backend_state w in
      let h = (load p states dir backend new_handle w.calls).0 in
      record {
        fresh = λ q above. ground (arith, v.fresh q);
        idle = λ q g x. ground (arith, v.idle q g, load-IsIdle p states dir backend w.calls tidy);
        settled = λ b r. ground (
          arith,
          held-load p states dir backend w.calls b r tidy,
          v.settled b r,
          owners-update_above b r w.object w.next_object (some h) w.next_object,
        );
        clean = load-Clean p states dir backend w.calls v.clean;
      }

  deleted-Ledger : (o : ℕ) (w : World) → Ledger p w → Ledger p (delete o w)
  unfolding delete
  deleted-Ledger o w v = elim (Option-cases (w.object o)) [
    | inl gone ↦ rw (gone, delete) v
    | inr (h, live) ↦
        rw (live, delete)
          (gone-Ledger p o h none w (unload_if_ready h w.calls).1 live (λ g x. cc) (λ b r. refl)
            (λ b r. held-unload_if_ready p h w.calls b r (v.idle o h live))
            (unload_if_ready-Clean p h w.calls (v.idle o h live)
              (λ b r. owns-le-held p o h w b r live v) v.clean)
            v)
  ]

  unloaded-IsIdle :
      (h : Handle) (calls : List Call) (g : Handle) → some (unload h calls).0 ≡ some g → IsIdle g
  unfolding unload
  unloaded-IsIdle h calls g x = ground arith

  unloaded-Ledger : (o : ℕ) (w : World) → Ledger p w → Ledger p (unload_and_delete o w)
  unfolding unload_and_delete unload
  unloaded-Ledger o w v = elim (Option-cases (w.object o)) [
    | inl gone ↦ rw (gone, unload_and_delete) v
    | inr (h, live) ↦
        rw (live, unload_and_delete)
          (deleted-Ledger o _ (
            gone-Ledger p o h (some (unload h w.calls).0) w (unload h w.calls).1 live
              (λ g x. unloaded-IsIdle h w.calls g x) (λ b r. refl)
              (λ b r. held-unload p h w.calls b r (v.idle o h live))
              (unload-Clean p h w.calls (v.idle o h live) (λ b r. owns-le-held p o h w b r live v)
                v.clean)
              v))
  ]

  -- The ledger is kept by everything that is built from the handles' operations.
  pub Ledger-Keeps : IsTidy p.plugin → Keeps p (Ledger p)
  Ledger-Keeps tidy = record {
    recached =
        λ d w v. record { fresh = v.fresh; idle = v.idle; settled = v.settled; clean = v.clean };
    recounted = recounted-Ledger;
    made = made-Ledger tidy;
    deleted = deleted-Ledger;
    unloaded = unloaded-Ledger;
  }

  -- A ready handle plays what it owns.
  play-Clean :
      (o : ℕ) (h : Handle) (w : World) (volume : PlaybackVolume)
      → w.object o ≡ some h
      → is_ready h.current_state ≡ true
      → Ledger p w
      → Clean p.plugin (play (backend_state w) volume h w.calls)
        × ((b r : ℕ)
            → held p.plugin (play (backend_state w) volume h w.calls) b r
              ≡ held p.plugin w.calls b r)
  unfolding play play_wrapper
  play-Clean o h w volume live is v = elim (Option-cases h.backend_if) [
    | inl no_backend ↦ rw (no_backend, play) (v.clean, λ b r. refl)
    | inr (c, at) ↦ elim (Option-cases h.handle) [
      | inl no_handle ↦ rw (at, play, no_handle) (v.clean, λ b r. refl)
      | inr (x, e) ↦ (
        ground (arith, at, e, v.clean, owns-le-held p o h w c x live v),
        λ b r. ground (arith, at, e),
      )
    ]
  ]

  -- The calls of a loop over slots: only `calls` changes, and the ledger is kept.
  Played : World → World → Type 0
  Played w w' = (w' ≡ record w { calls = w'.calls }) × Ledger p w'

  recalled-Ledger :
      (o : ℕ) (h : Handle) (w : World) (volume : PlaybackVolume)
      → w.object o ≡ some h
      → is_ready h.current_state ≡ true
      → Ledger p w
      → Ledger p (record w { calls = play (backend_state w) volume h w.calls })
  recalled-Ledger o h w volume live is v =
      let played = play-Clean o h w volume live is v in
      record {
        fresh = v.fresh;
        idle = v.idle;
        settled = λ b r. played.1 b r ∙ v.settled b r;
        clean = played.0;
      }

  play_slots-Ledger :
      (f : Feedback) (i : ℕ) (slots : List (Option ℕ)) (players m : ℕ) (w w' : World)
      → play_slots p f i slots players w ≡ some (m, w')
      → Ledger p w
      → Played w w'
  unfolding play_slots Played
  play_slots-Ledger f i [] players m w w' e v =
      let same : w ≡ w' = ground arith in
      subst (λ (u : World). (u ≡ record w { calls = u.calls }) × Ledger p u) same (refl, v)
  play_slots-Ledger f i (none ∷ slots) players m w w' e v =
      play_slots-Ledger f (suc i) slots players m w w' e v
  play_slots-Ledger f i (some o ∷ slots) players m w w' e v = elim (Option-cases (w.object o)) [
    | inl gone ↦ play_slots-Ledger f (suc i) slots players m w w' (rw (play_slots, gone) at e) v
    | inr (h, live) ↦ elim (Bool-cases (is_ready h.current_state)) [
      | inr busy ↦
          play_slots-Ledger f (suc i) slots players m w w' (rw (play_slots, live, busy) at e) v
      | inl is ↦ elim (Option-cases (volume_at p f.feedback_volume_priority i w)) [
        | inl fault ↦ cc (rw (play_slots, live, is, fault) at e)
        | inr (volume, at) ↦
            let u : World = record w { calls = play (backend_state w) volume h w.calls } in
            let u-ok = recalled-Ledger o h w volume live is v in
            elim (Bool-cases (ltb i w.non_threaded_backend_count)) [
              | inl direct ↦
                  let rest =
                    play_slots-Ledger f (suc i) slots players m u w'
                      (rw (play_slots, live, is, at, direct) at e) u-ok in
                  (rest.0, rest.1)
              | inr threaded ↦ elim (Bool-cases (ltb players f.concurrent_players)) [
                | inr full ↦ cc (rw (play_slots, live, is, at, threaded, full) at e)
                | inl room ↦
                    let rest =
                      play_slots-Ledger f (suc i) slots (suc players) m u w'
                        (rw (play_slots, live, is, at, threaded, room) at e) u-ok in
                    (rest.0, rest.1)
              ]
            ]
      ]
    ]
  ]

  pub play_feedback-Ledger :
      (limit now timestamp : ℤ) (f : Feedback) (w w' : World)
      → play_feedback p limit now timestamp f w ≡ some w'
      → Ledger p w
      → (w' ≡ record w { calls = w'.calls }) × Ledger p w'
  unfolding play_feedback Played
  play_feedback-Ledger limit now timestamp f w w' e v =
      elim (Bool-cases (too_late limit now timestamp)) [
        | inl late ↦
            let same : w ≡ w' = ground (arith, late) in
            subst (λ (u : World). (u ≡ record w { calls = u.calls }) × Ledger p u) same (refl, v)
        | inr early ↦
            elim (Bool-cases (ltb (length f.feedback_handles) w.non_threaded_backend_count)) [
              | inl short ↦ cc (rw (play_feedback, early, short) at e)
              | inr long ↦ elim (Option-cases (play_slots p f 0 f.feedback_handles 0 w)) [
                | inl fault ↦ cc (rw (play_feedback, early, long, fault) at e)
                | inr (r, ran) ↦
                    let same : r.1 ≡ w' =
                      ground (arith, rw (play_feedback, early, long, ran) at e) in
                    subst (λ (u : World). (u ≡ record w { calls = u.calls }) × Ledger p u) same
                      (play_slots-Ledger f 0 f.feedback_handles 0 r.0 w r.1 ran v)
              ]
            ]
      ]
