-- ===== src/Feedback/References.antt =====
-- Loading and unloading feedbacks keeps the cache's invariant and the counts of the handles.
use touch_feedback.Base.{
  ℕ, zero, suc, ◌≡◌, refl, ◌∙◌, sym, Option, none, some, List, [], ◌∷◌, arith, length, replicate,
}
use touch_feedback.Base.Text.{Text}
use touch_feedback.World.{Platform, Handle, World}
use touch_feedback.Cache.Invariant.{bump, Inv, Inv-ext, Inv-drop}
use touch_feedback.Feedback.Release.{release-Inv}
use touch_feedback.Feedback.LoadHandle.{load_handle-Inv}
use touch_feedback.Feedback.{
  Feedback, new_feedback, load_handle, load_first, release, load_slot, load_slots, load_feedback,
  unload_slots, destroy_feedback,
}

-- The pointers of the slots, on top of those that are counted already.
abbrev pub bump_all : List (Option ℕ) → (ℕ → ℕ) → ℕ → ℕ
bump_all [] refs = refs
bump_all (s ∷ slots) refs = bump s (bump_all slots refs)

bump-ext : (s : Option ℕ) (r t : ℕ → ℕ) (q : ℕ) → r q ≡ t q → bump s r q ≡ bump s t q
bump-ext none r t q e = e
bump-ext (some o) r t q e = ground arith

bump-bump : (s t : Option ℕ) (r : ℕ → ℕ) (q : ℕ) → bump s (bump t r) q ≡ bump t (bump s r) q
bump-bump none t r q = bump-ext t r (bump none r) q refl
bump-bump (some o) none r q = refl
bump-bump (some o) (some u) r q = ground arith

pub bump_all-bump :
    (slots : List (Option ℕ)) (s : Option ℕ) (r : ℕ → ℕ) (q : ℕ)
    → bump_all slots (bump s r) q ≡ bump s (bump_all slots r) q
bump_all-bump [] s r q = refl
bump_all-bump (t ∷ slots) s r q =
    bump-ext t (bump_all slots (bump s r)) (bump s (bump_all slots r)) q (bump_all-bump slots s r q)
    ∙ bump-bump t s (bump_all slots r) q

pub bump_all-ext :
    (slots : List (Option ℕ)) (r t : ℕ → ℕ)
    → ((q : ℕ) → r q ≡ t q)
    → (q : ℕ) → bump_all slots r q ≡ bump_all slots t q
bump_all-ext [] r t e q = e q
bump_all-ext (s ∷ slots) r t e q =
    bump-ext s (bump_all slots r) (bump_all slots t) q (bump_all-ext slots r t e q)

pub bump_all-bump_all :
    (slots others : List (Option ℕ)) (r : ℕ → ℕ) (q : ℕ)
    → bump_all slots (bump_all others r) q ≡ bump_all others (bump_all slots r) q
bump_all-bump_all [] others r q = refl
bump_all-bump_all (s ∷ slots) others r q =
    bump-ext s (bump_all slots (bump_all others r)) (bump_all others (bump_all slots r)) q
      (bump_all-bump_all slots others r q)
    ∙ sym (bump_all-bump others s (bump_all slots r) q)

bump_all-replicate : (n : ℕ) (r : ℕ → ℕ) (q : ℕ) → bump_all (replicate n none) r q ≡ r q
bump_all-replicate zero r q = refl
bump_all-replicate (suc n) r q = bump_all-replicate n r q

module _ (p : Platform) where
  pub load_first-Inv :
      (dirs : List Text) (i : ℕ) (w : World) (r : ℕ → ℕ)
      → Inv p w r
      → Inv p (load_first p dirs i w).1 (bump (load_first p dirs i w).0 r)
  unfolding load_first
  load_first-Inv [] i w r v = Inv-ext p w r (bump none r) (λ q. refl) v
  load_first-Inv (dir ∷ dirs) i w r v =
      from (load_handle p dir i w).0 refl (load_handle-Inv p dir i w r v)
        (load_first-Inv dirs i (load_handle p dir i w).1 r)
    where
      from :
          (x : Option ℕ)
          → (load_handle p dir i w).0 ≡ x
          → Inv p (load_handle p dir i w).1 (bump (load_handle p dir i w).0 r)
          → (Inv p (load_handle p dir i w).1 r
              → Inv p
                  (load_first p dirs i (load_handle p dir i w).1).1
                  (bump (load_first p dirs i (load_handle p dir i w).1).0 r))
          → Inv p (load_first p (dir ∷ dirs) i w).1 (bump (load_first p (dir ∷ dirs) i w).0 r)
      from none e found ih =
          rw (e, load_first) (ih (Inv-ext p _ (bump none r) r (λ q. refl) (rw e at found)))
      from (some o) e found ih = rw (e, load_first) found

  pub load_slot-Inv :
      (dirs : List Text) (i : ℕ) (old : Option ℕ) (w : World) (r : ℕ → ℕ)
      → Inv p w (bump old r)
      → Inv p (load_slot p dirs i old w).1 (bump (load_slot p dirs i old w).0 r)
  unfolding load_slot
  load_slot-Inv dirs i none w r v =
      load_first-Inv dirs i w r (Inv-ext p w (bump none r) r (λ q. refl) v)
  load_slot-Inv dirs i (some o) w r v = from (w.object o) refl
    where
      from :
          (x : Option Handle)
          → w.object o ≡ x
          → Inv p (load_slot p dirs i (some o) w).1 (bump (load_slot p dirs i (some o) w).0 r)
      from none e = rw (e, load_slot) (load_first-Inv dirs i w r (Inv-drop p w r o e v))
      from (some h) e =
          let new = (load_first p dirs i w).0 in
          let w' = (load_first p dirs i w).1 in
          rw (e, load_slot)
            (release-Inv p w' (bump new r) o (
              Inv-ext p w' (bump new (bump (some o) r)) (bump (some o) (bump new r))
                (λ q. bump-bump new (some o) r q) (load_first-Inv dirs i w (bump (some o) r) v)))

  load_slots-Inv :
      (dirs : List Text) (i : ℕ) (slots : List (Option ℕ)) (w : World) (r : ℕ → ℕ)
      → Inv p w (bump_all slots r)
      → Inv p (load_slots p dirs i slots w).1 (bump_all (load_slots p dirs i slots w).0 r)
  unfolding load_slots
  load_slots-Inv dirs i [] w r v = v
  load_slots-Inv dirs i (old ∷ slots) w r v =
      let new = (load_slot p dirs i old w).0 in
      let w' = (load_slot p dirs i old w).1 in
      let rest = load_slots p dirs (suc i) slots w' in
      Inv-ext p rest.1 (bump_all rest.0 (bump new r)) (bump new (bump_all rest.0 r))
        (λ q. bump_all-bump rest.0 new r q)
        (load_slots-Inv dirs (suc i) slots w' (bump new r) (
          Inv-ext p w' (bump new (bump_all slots r)) (bump_all slots (bump new r))
            (λ q. sym (bump_all-bump slots new r q))
            (load_slot-Inv dirs i old w (bump_all slots r) v)))

  -- Loading a feedback, or loading it anew from other directories, keeps the invariant, where the
  -- pointers of its slots are counted on top of those of all other feedbacks: the cache then holds
  -- exactly the live handles, each under its own key, and each live handle's reference count is the
  -- number of pointers to it, which is not 0.
  pub load_feedback-Inv :
      (dirs : List Text) (f : Feedback) (w : World) (others : ℕ → ℕ)
      → Inv p w (bump_all f.feedback_handles others)
      → Inv p
          (load_feedback p dirs f w).1
          (bump_all (load_feedback p dirs f w).0.feedback_handles others)
  unfolding load_feedback
  load_feedback-Inv [] f w others v = v
  load_feedback-Inv (dir ∷ dirs) f w others v =
      load_slots-Inv (dir ∷ dirs) 0 f.feedback_handles w others v

  unload_slots-Inv :
      (slots : List (Option ℕ)) (w : World) (r : ℕ → ℕ)
      → Inv p w (bump_all slots r)
      → Inv p (unload_slots p slots w) r
  unfolding unload_slots release
  unload_slots-Inv [] w r v = v
  unload_slots-Inv (none ∷ slots) w r v =
      unload_slots-Inv slots w r
        (Inv-ext p w (bump none (bump_all slots r)) (bump_all slots r) (λ q. refl) v)
  unload_slots-Inv (some o ∷ slots) w r v =
      unload_slots-Inv slots (release p (some o) w) r (release-Inv p w (bump_all slots r) o v)

  -- Deleting a feedback keeps the invariant for the pointers of the other feedbacks: a handle to
  -- which none of them points is deleted and taken out of the cache.
  pub destroy_feedback-Inv :
      (f : Feedback) (w : World) (others : ℕ → ℕ)
      → Inv p w (bump_all f.feedback_handles others)
      → Inv p (destroy_feedback p f w) others
  unfolding destroy_feedback
  destroy_feedback-Inv f w others v = unload_slots-Inv f.feedback_handles w others v

  -- A new feedback has no pointers.
  pub new_feedback-Inv :
      (w : World) (others : ℕ → ℕ)
      → Inv p w others
      → Inv p w (bump_all (new_feedback w).feedback_handles others)
  unfolding new_feedback
  new_feedback-Inv w others v =
      Inv-ext p w others (bump_all (replicate (length w.backend_list) none) others)
        (λ q. sym (bump_all-replicate (length w.backend_list) others q)) v
