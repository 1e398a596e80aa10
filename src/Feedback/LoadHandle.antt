-- ===== src/Feedback/LoadHandle.antt =====
-- `MfFeedback::loadHandle`: what it does in each case, and that it keeps the cache's invariant and the
-- counts of the handles.
use touch_feedback.Base.{
  ℕ, suc, ◌≡◌, refl, ◌≢◌, ◌∙◌, true, false, not, Option, none, some, List, arith, ==_refl,
  Bool-cases, Option-cases, inl, inr, Distinct, get_elem?, index_of-get_elem?,
}
use touch_feedback.Base.Int.{pos}
use touch_feedback.Base.Text.{Text}
use touch_feedback.Base.Dict.{lookup, insert}
use touch_feedback.Backend.{State, Call}
use touch_feedback.World.{Platform, Handle, World, backend_state, is_empty_state}
use touch_feedback.Handle.{new_handle, load, delete, attach}
use touch_feedback.Cache.{key_value, backend_index, handle_key, search_from_cache, add_to_cache}
use touch_feedback.Cache.Invariant.{bump, Inv, count_to, attach-Inv, added-Inv, discarded-Inv}
use touch_feedback.Feedback.{make_handle, has_content, load_handle}
use touch_feedback.Feedback.Release.{delete_lem}

module _ (p : Platform) where
  -- A handle that is loaded for the first time has no pointers yet, and unless it stayed empty it
  -- has the directory and the backend that were given.
  pub load_new :
      (states : ℕ → State) (dir : Text) (backend : Option ℕ) (calls : List Call)
      → ((load p states dir backend new_handle calls).0.ref_cnt ≡ 0)
        × (is_empty_state (load p states dir backend new_handle calls).0.current_state ≡ false
            → ((load p states dir backend new_handle calls).0.feedback_dir_path ≡ dir)
              × ((load p states dir backend new_handle calls).0.backend_if ≡ backend)
              × (backend ≢ none))
  unfolding load new_handle
  load_new states dir none calls = ground arith
  load_new states dir (some b) calls = ground arith

  search_live :
      (w : World) (dir : Text) (i o : ℕ) (h : Handle)
      → lookup (key_value p dir (pos i)) w.feedback_handle_hash ≡ some o
      → w.object o ≡ some h
      → search_from_cache p dir i w ≢ none
  unfolding search_from_cache
  search_live w dir i o h e live gone = ground arith

  search_none :
      (w : World) (r : ℕ → ℕ) (dir : Text) (i : ℕ)
      → Inv p w r
      → search_from_cache p dir i w ≡ none
      → lookup (key_value p dir (pos i)) w.feedback_handle_hash ≡ none
  search_none w r dir i v e = from (lookup (key_value p dir (pos i)) w.feedback_handle_hash) refl
    where
      from :
          (x : Option ℕ)
          → lookup (key_value p dir (pos i)) w.feedback_handle_hash ≡ x
          → lookup (key_value p dir (pos i)) w.feedback_handle_hash ≡ none
      from none f = f
      from (some o) f = absurd (search_live w dir i o (v.alive _ o f).0 f (v.alive _ o f).1 e)

  pub search_some :
      (w : World) (dir : Text) (i o : ℕ)
      → search_from_cache p dir i w ≡ some o
      → (h : Handle) × (w.object o ≡ some h)
  unfolding search_from_cache
  search_some w dir i o e = elim (Option-cases (w.object o)) [
    | inl gone ↦ absurd (ground arith)
    | inr (h, live) ↦ (h, live)
  ]

  add_to_cache_lem :
      (w : World) (o : ℕ) (h : Handle)
      → w.object o ≡ some h
      → lookup (handle_key p w.backend_list h) w.feedback_handle_hash ≡ none
      → add_to_cache p o w ≡ record w {
        feedback_handle_hash = insert (handle_key p w.backend_list h) o w.feedback_handle_hash;
      }
  unfolding add_to_cache
  add_to_cache_lem w o h live free = rw (live, add_to_cache, free)

  attach_lem :
      (w : World) (o : ℕ) (h : Handle)
      → w.object o ≡ some h
      → attach o w ≡ count_to p w o h (suc h.ref_cnt)
  unfolding attach
  attach_lem w o h live = rw (live, attach)

  backend_index_lem :
      (bs : List ℕ) (i b : ℕ)
      → Distinct bs
      → get_elem? bs i ≡ some b
      → backend_index bs (some b) ≡ pos i
  unfolding backend_index
  backend_index_lem bs i b d at = rw (index_of-get_elem? bs i b d at, backend_index)

  handle_key_new :
      (bs : List ℕ) (h : Handle) (dir : Text) (i b : ℕ)
      → Distinct bs
      → get_elem? bs i ≡ some b
      → h.feedback_dir_path ≡ dir
      → h.backend_if ≡ some b
      → handle_key p bs h ≡ key_value p dir (pos i)
  unfolding handle_key
  handle_key_new bs h dir i b d at e f = rw (e, f, backend_index_lem bs i b d at)

  -- The new handle of `loadHandle`.
  abbrev pub loaded : Text → ℕ → World → Handle × List Call
  loaded dir i w = load p (backend_state w) dir (get_elem? w.backend_list i) new_handle w.calls

  pub make_handle_object :
      (dir : Text) (i : ℕ) (w : World)
      → (make_handle p dir i w).object w.next_object ≡ some (loaded dir i w).0
  unfolding make_handle
  make_handle_object dir i w = rw (==_refl w.next_object)

  made_content :
      (dir : Text) (i : ℕ) (w : World)
      → has_content p w.next_object (make_handle p dir i w)
        ≡ not (is_empty_state (loaded dir i w).0.current_state)
  made_content dir i w = rw (make_handle_object dir i w, has_content)

  pub load_handle_found :
      (dir : Text) (i o : ℕ) (w : World)
      → search_from_cache p dir i w ≡ some o
      → load_handle p dir i w ≡ (some o, attach o w)
  unfolding load_handle
  load_handle_found dir i o w e = rw (e, load_handle)

  pub load_handle_kept :
      (dir : Text) (i : ℕ) (w : World)
      → search_from_cache p dir i w ≡ none
      → is_empty_state (loaded dir i w).0.current_state ≡ false
      → load_handle p dir i w ≡ (
        some w.next_object,
        attach w.next_object (add_to_cache p w.next_object (make_handle p dir i w)),
      )
  unfolding load_handle
  load_handle_kept dir i w e full = rw (e, load_handle, made_content dir i w, full)

  pub load_handle_refused :
      (dir : Text) (i : ℕ) (w : World)
      → search_from_cache p dir i w ≡ none
      → is_empty_state (loaded dir i w).0.current_state ≡ true
      → load_handle p dir i w ≡ (none, delete w.next_object (make_handle p dir i w))
  unfolding load_handle
  load_handle_refused dir i w e bare = rw (e, load_handle, made_content dir i w, bare)

  kept-Inv :
      (dir : Text) (i : ℕ) (w : World) (r : ℕ → ℕ)
      → Inv p w r
      → search_from_cache p dir i w ≡ none
      → is_empty_state (loaded dir i w).0.current_state ≡ false
      → Inv p
          (attach w.next_object (add_to_cache p w.next_object (make_handle p dir i w)))
          (bump (some w.next_object) r)
  unfolding make_handle load handle_key
  kept-Inv dir i w r v e full =
      from (get_elem? w.backend_list i) refl
        (load_new (backend_state w) dir (get_elem? w.backend_list i) w.calls)
    where
      from :
          (x : Option ℕ)
          → get_elem? w.backend_list i ≡ x
          → ((loaded dir i w).0.ref_cnt ≡ 0)
            × (is_empty_state (loaded dir i w).0.current_state ≡ false
                → ((loaded dir i w).0.feedback_dir_path ≡ dir)
                  × ((loaded dir i w).0.backend_if ≡ get_elem? w.backend_list i)
                  × (get_elem? w.backend_list i ≢ none))
          → Inv p
              (attach w.next_object (add_to_cache p w.next_object (make_handle p dir i w)))
              (bump (some w.next_object) r)
      from none at new = absurd ((new.1 full).2 at)
      from (some b) at new =
          let h = (loaded dir i w).0 in
          let w1 = make_handle p dir i w in
          let key =
            handle_key_new w.backend_list h dir i b v.distinct at (new.1 full).0
              ((new.1 full).1 ∙ at) in
          let free : lookup (handle_key p w.backend_list h) w.feedback_handle_hash ≡ none =
            rw key (search_none w r dir i v e) in
          let added = add_to_cache_lem w1 w.next_object h (make_handle_object dir i w) free in
          let w2 : World = record w1 {
            feedback_handle_hash =
                insert (handle_key p w.backend_list h) w.next_object w.feedback_handle_hash;
          } in
          rw (added, attach_lem w2 w.next_object h (make_handle_object dir i w))
            (added-Inv p w r (record h { ref_cnt = suc h.ref_cnt }) _ _ (ground arith)
              (λ q differ. ground arith) (omega (arith, new.0)) free v)

  refused-Inv :
      (dir : Text) (i : ℕ) (w : World) (r : ℕ → ℕ)
      → Inv p w r
      → Inv p (delete w.next_object (make_handle p dir i w)) r
  unfolding make_handle
  refused-Inv dir i w r v =
      rw
        (delete_lem p (make_handle p dir i w) w.next_object (loaded dir i w).0
          (make_handle_object dir i w))
        (discarded-Inv p w r _ _ (ground arith) (λ q differ. ground arith) v)

  -- The pointer that `loadHandle` returns is counted, and the invariant holds.
  pub load_handle-Inv :
      (dir : Text) (i : ℕ) (w : World) (r : ℕ → ℕ)
      → Inv p w r
      → Inv p (load_handle p dir i w).1 (bump (load_handle p dir i w).0 r)
  load_handle-Inv dir i w r v = from (search_from_cache p dir i w) refl
    where
      fresh :
          search_from_cache p dir i w ≡ none
          → Inv p (load_handle p dir i w).1 (bump (load_handle p dir i w).0 r)
      fresh e = elim (Bool-cases (is_empty_state (loaded dir i w).0.current_state)) [
        | inl bare ↦ rw (load_handle_refused dir i w e bare) (refused-Inv dir i w r v)
        | inr full ↦ rw (load_handle_kept dir i w e full) (kept-Inv dir i w r v e full)
      ]

      from :
          (x : Option ℕ)
          → search_from_cache p dir i w ≡ x
          → Inv p (load_handle p dir i w).1 (bump (load_handle p dir i w).0 r)
      from none e = fresh e
      from (some o) e =
          rw (load_handle_found dir i o w e)
            (attach-Inv p w r o (search_some w dir i o e).0 (search_some w dir i o e).1 v)
