-- ===== src/Feedback/Keeping.antt =====
-- A predicate on the state (`Keeps`) over the few ways in which the handles, their cache and the calls
-- change, and over what is built from them: loading and unloading feedbacks, and clearing the cache.
use touch_feedback.Base.{
  ℕ, suc, ◌-◌, ◌≡◌, Option, none, some, List, [], ◌∷◌, leb, Bool-cases, Option-cases, inl, inr,
}
use touch_feedback.Base.Text.{Text}
use touch_feedback.Base.Dict.{Dict, lookup, is_some}
use touch_feedback.World.{Platform, Handle, World, update}
use touch_feedback.Handle.{attach, detach, delete}
use touch_feedback.Cache.{
  handle_key, search_from_cache, add_to_cache, remove_from_cache, delete_entries, delete_cache,
  unload_and_delete, belongs, unload_entries, unload_handles_for_a_backend,
}
use touch_feedback.Feedback.{
  Feedback, make_handle, has_content, load_handle, load_first, release, load_slot, load_slots,
  load_feedback, unload_slots, destroy_feedback,
}

-- `P` is kept by a change of the cache and of the count of a live handle, by the making of a handle,
-- and by its deletion, whether it was unloaded before or not.
pub record Keeps (p : Platform) (P : World → Type 0) : Type 0 where
  pub recached : (d : Dict ℕ) (w : World) → P w → P (record w { feedback_handle_hash = d })
  pub recounted :
      (o : ℕ) (h : Handle) (n : ℕ) (w : World)
      → w.object o ≡ some h
      → P w
      → P (record w { object = update w.object o (some (record h { ref_cnt = n })) })
  pub made : (dir : Text) (i : ℕ) (w : World) → P w → P (make_handle p dir i w)
  pub deleted : (o : ℕ) (w : World) → P w → P (delete o w)
  pub unloaded : (o : ℕ) (w : World) → P w → P (unload_and_delete o w)

module _ (p : Platform) (P : World → Type 0) (k : Keeps p P) where
  pub attach-Keeps : (o : ℕ) (w : World) → P w → P (attach o w)
  unfolding attach
  attach-Keeps o w v = elim (Option-cases (w.object o)) [
    | inl gone ↦ rw (gone, attach) v
    | inr (h, live) ↦ rw (live, attach) (k.recounted o h (suc h.ref_cnt) w live v)
  ]

  detach-Keeps : (o : ℕ) (w : World) → P w → P (detach o w)
  unfolding detach
  detach-Keeps o w v = elim (Option-cases (w.object o)) [
    | inl gone ↦ rw (gone, detach) v
    | inr (h, live) ↦ elim (Bool-cases (leb h.ref_cnt 1)) [
      | inl low ↦ rw (live, detach, low) (k.deleted o w v)
      | inr high ↦ rw (live, detach, high) (k.recounted o h (h.ref_cnt - 1) w live v)
    ]
  ]

  pub add_to_cache-Keeps : (o : ℕ) (w : World) → P w → P (add_to_cache p o w)
  unfolding add_to_cache
  add_to_cache-Keeps o w v = elim (Option-cases (w.object o)) [
    | inl gone ↦ rw (gone, add_to_cache) v
    | inr (h, live) ↦
        elim (Bool-cases
          (is_some (lookup (handle_key p w.backend_list h) w.feedback_handle_hash))) [
            | inl there ↦ rw (live, add_to_cache, there) v
            | inr free ↦ rw (live, add_to_cache, free) (k.recached _ w v)
          ]
  ]

  remove_from_cache-Keeps : (o : ℕ) (w : World) → P w → P (remove_from_cache p o w)
  unfolding remove_from_cache
  remove_from_cache-Keeps o w v = elim (Option-cases (w.object o)) [
    | inl gone ↦ rw (gone, remove_from_cache) v
    | inr (h, live) ↦ rw (live, remove_from_cache) (k.recached _ w v)
  ]

  pub load_handle-Keeps : (dir : Text) (i : ℕ) (w : World) → P w → P (load_handle p dir i w).1
  unfolding load_handle
  load_handle-Keeps dir i w v = elim (Option-cases (search_from_cache p dir i w)) [
    | inr (o, found) ↦ rw (found, load_handle) (attach-Keeps o w v)
    | inl lost ↦
        let w' = make_handle p dir i w in
        let v' = k.made dir i w v in
        elim (Bool-cases (has_content p w.next_object w')) [
          | inl full ↦
              rw (lost, load_handle, full)
                (attach-Keeps w.next_object (add_to_cache p w.next_object w')
                  (add_to_cache-Keeps w.next_object w' v'))
          | inr bare ↦ rw (lost, load_handle, bare) (k.deleted w.next_object w' v')
        ]
  ]

  pub load_first-Keeps : (dirs : List Text) (i : ℕ) (w : World) → P w → P (load_first p dirs i w).1
  unfolding load_first
  load_first-Keeps [] i w v = v
  load_first-Keeps (dir ∷ dirs) i w v =
      let found = load_handle-Keeps dir i w v in
      let rest = load_first-Keeps dirs i (load_handle p dir i w).1 found in
      elim (Option-cases (load_handle p dir i w).0) [
        | inl lost ↦ rw (lost, load_first) rest
        | inr (o, got) ↦ rw (got, load_first) found
      ]

  pub release-Keeps : (s : Option ℕ) (w : World) → P w → P (release p s w)
  unfolding release
  release-Keeps none w v = v
  release-Keeps (some o) w v = elim (Option-cases (w.object o)) [
    | inl gone ↦ rw (gone, release) v
    | inr (h, live) ↦ elim (Bool-cases (leb h.ref_cnt 1)) [
      | inl low ↦
          rw (live, release, low)
            (detach-Keeps o (remove_from_cache p o w) (remove_from_cache-Keeps o w v))
      | inr high ↦ rw (live, release, high) (detach-Keeps o w v)
    ]
  ]

  pub load_slots-Keeps :
      (dirs : List Text) (i : ℕ) (slots : List (Option ℕ)) (w : World)
      → P w
      → P (load_slots p dirs i slots w).1
  unfolding load_slots load_slot
  load_slots-Keeps dirs i [] w v = v
  load_slots-Keeps dirs i (old ∷ slots) w v =
      load_slots-Keeps dirs (suc i) slots (load_slot p dirs i old w).1
        (release-Keeps _ (load_first p dirs i w).1 (load_first-Keeps dirs i w v))

  pub load_feedback-Keeps :
      (dirs : List Text) (f : Feedback) (w : World) → P w → P (load_feedback p dirs f w).1
  unfolding load_feedback
  load_feedback-Keeps [] f w v = v
  load_feedback-Keeps (dir ∷ dirs) f w v = load_slots-Keeps (dir ∷ dirs) 0 f.feedback_handles w v

  unload_slots-Keeps : (slots : List (Option ℕ)) (w : World) → P w → P (unload_slots p slots w)
  unfolding unload_slots
  unload_slots-Keeps [] w v = v
  unload_slots-Keeps (o ∷ slots) w v =
      unload_slots-Keeps slots (release p o w) (release-Keeps o w v)

  pub destroy_feedback-Keeps : (f : Feedback) (w : World) → P w → P (destroy_feedback p f w)
  unfolding destroy_feedback
  destroy_feedback-Keeps f w v = unload_slots-Keeps f.feedback_handles w v

  unload_entries-Keeps : (b : ℕ) (es : Dict ℕ) (w : World) → P w → P (unload_entries b es w).1
  unfolding unload_entries
  unload_entries-Keeps b [] w v = v
  unload_entries-Keeps b ((key, o) ∷ es) w v = elim (Bool-cases (belongs b o w)) [
    | inl hit ↦
        rw (hit, unload_entries)
          (unload_entries-Keeps b es (unload_and_delete o w) (k.unloaded o w v))
    | inr miss ↦ rw (miss, unload_entries) (unload_entries-Keeps b es w v)
  ]

  pub unload_handles_for_a_backend-Keeps :
      (b : ℕ) (w : World) → P w → P (unload_handles_for_a_backend b w)
  unfolding unload_handles_for_a_backend
  unload_handles_for_a_backend-Keeps b w v =
      k.recached _ (unload_entries b w.feedback_handle_hash w).1
        (unload_entries-Keeps b w.feedback_handle_hash w v)

  delete_entries-Keeps : (es : Dict ℕ) (w : World) → P w → P (delete_entries es w)
  unfolding delete_entries
  delete_entries-Keeps [] w v = v
  delete_entries-Keeps ((key, o) ∷ es) w v = delete_entries-Keeps es (delete o w) (k.deleted o w v)

  pub delete_cache-Keeps : (w : World) → P w → P (delete_cache w)
  unfolding delete_cache
  delete_cache-Keeps w v =
      k.recached [] (delete_entries w.feedback_handle_hash w)
        (delete_entries-Keeps w.feedback_handle_hash w v)
