-- ===== src/Feedback/Release.antt =====
-- Giving up a pointer to a handle: `detach`, and the removal from the cache before it.
use touch_feedback.Base.{
  ℕ, ◌-◌, ◌≡◌, refl, ◌∙◌, sym, subst, true, false, Option, none, some, arith, leb, Bool-cases, inl,
  inr,
}
use touch_feedback.Base.Dict.{erase}
use touch_feedback.World.{Platform, Handle, World, update}
use touch_feedback.Handle.{delete, detach, unload_if_ready}
use touch_feedback.Cache.{handle_key, remove_from_cache}
use touch_feedback.Cache.Invariant.{
  bump, Inv, Inv-drop, count_to, count_to-Inv, without, without-Inv,
}
use touch_feedback.Feedback.{release}

module _ (p : Platform) where
  pub delete_lem :
      (w : World) (o : ℕ) (h : Handle)
      → w.object o ≡ some h
      → delete o w
        ≡ record w { object = update w.object o none; calls = (unload_if_ready h w.calls).1 }
  unfolding delete
  delete_lem w o h live = rw (live, delete)

  remove_from_cache_lem :
      (w : World) (o : ℕ) (h : Handle)
      → w.object o ≡ some h
      → remove_from_cache p o w ≡ record w {
        feedback_handle_hash = erase (handle_key p w.backend_list h) w.feedback_handle_hash;
      }
  unfolding remove_from_cache
  remove_from_cache_lem w o h live = rw (live, remove_from_cache)

  detach_last :
      (w : World) (o : ℕ) (h : Handle)
      → w.object o ≡ some h
      → leb h.ref_cnt 1 ≡ true
      → detach o w ≡ delete o w
  unfolding detach
  detach_last w o h live low = rw (live, detach, low)

  release_last :
      (w : World) (o : ℕ) (h : Handle)
      → w.object o ≡ some h
      → leb h.ref_cnt 1 ≡ true
      → release p (some o) w ≡ without p w o h (unload_if_ready h w.calls).1
  unfolding release
  release_last w o h live low =
      let w' : World = record w {
        feedback_handle_hash = erase (handle_key p w.backend_list h) w.feedback_handle_hash;
      } in
      rw (live, release, low, remove_from_cache_lem w o h live)
        (detach_last w' o h live low ∙ delete_lem w' o h live)

  release_other :
      (w : World) (o : ℕ) (h : Handle)
      → w.object o ≡ some h
      → leb h.ref_cnt 1 ≡ false
      → release p (some o) w ≡ count_to p w o h (h.ref_cnt - 1)
  unfolding release detach
  release_other w o h live high = rw (live, release, high) (rw (live, detach, high))

  release_gone : (w : World) (o : ℕ) → w.object o ≡ none → release p (some o) w ≡ w
  unfolding release
  release_gone w o gone = rw (gone, release)

  pub release-Inv :
      (w : World) (r : ℕ → ℕ) (o : ℕ) → Inv p w (bump (some o) r) → Inv p (release p (some o) w) r
  release-Inv w r o v = from (w.object o) refl
    where
      from : (x : Option Handle) → w.object o ≡ x → Inv p (release p (some o) w) r
      from none e =
          subst (λ (x : World). Inv p x r) (sym (release_gone w o e)) (Inv-drop p w r o e v)
      from (some h) e = elim (Bool-cases (leb h.ref_cnt 1)) [
        | inl low ↦ rw (release_last w o h e low) (
            without-Inv p w (bump (some o) r) r o h _ e (λ q differ. ground arith) (ground arith) v)
        | inr high ↦ rw (release_other w o h e high) (
            count_to-Inv p w (bump (some o) r) r o h (h.ref_cnt - 1) e
              (ground (arith, v.counted o h e)) (ground arith) (λ q differ. ground arith) v)
      ]
