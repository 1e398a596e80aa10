-- ===== src/Feedback/Placing.antt =====
-- Which backend the handle of a feedback's slot belongs to.
use touch_feedback.Base.{
  ℕ, zero, suc, ◌+◌, ◌≤◌, ◌<◌, ◌≡◌, refl, ◌∙◌, sym, ap, false, Option, none, some, List, [], ◌∷◌,
  arith, Option-cases, Bool-cases, inl, inr, length, replicate, get_elem?,
}
use touch_feedback.Base.Int.{pos}
use touch_feedback.Base.Text.{Text}
use touch_feedback.Base.Dict.{lookup}
use touch_feedback.World.{Platform, Handle, World, backend_state, is_empty_state}
use touch_feedback.Handle.{attach}
use touch_feedback.Cache.{key_value, search_from_cache, add_to_cache}
use touch_feedback.Cache.Invariant.{bump, Inv, Inv-ext}
use touch_feedback.Feedback.{
  Feedback, new_feedback, make_handle, load_handle, load_first, load_slot, load_slots,
  load_feedback,
}
use touch_feedback.Feedback.Keeping.{
  load_handle-Keeps, attach-Keeps, add_to_cache-Keeps, load_first-Keeps, release-Keeps,
  load_slots-Keeps,
}
use touch_feedback.Feedback.LoadHandle.{
  load_new, loaded, make_handle_object, load_handle_found, load_handle_kept, load_handle_refused,
  load_handle-Inv,
}
use touch_feedback.Feedback.References.{bump_all, bump_all-bump, load_slot-Inv}
use touch_feedback.Feedback.Later.{Later, Later-refl, Later-Keeps}
use touch_feedback.Cache.Keys.{TellsIndexes, handle_key-backend}

-- The handle at the address belongs to the backend at the position.
abbrev pub PlacedSlot : World → ℕ → Option ℕ → Type 0
PlacedSlot w i none = Unit {0}
PlacedSlot w i (some o) =
    (o < w.next_object)
    × ((h : Handle) → w.object o ≡ some h → h.backend_if ≡ get_elem? w.backend_list i)

abbrev pub PlacedSlots : World → ℕ → List (Option ℕ) → Type 0
PlacedSlots w i [] = Unit {0}
PlacedSlots w i (s ∷ slots) = PlacedSlot w i s × PlacedSlots w (suc i) slots

pub Later-PlacedSlot :
    (v w : World) (i : ℕ) (s : Option ℕ) → Later v w → PlacedSlot v i s → PlacedSlot w i s
Later-PlacedSlot v w i none l x = tt
Later-PlacedSlot v w i (some o) l x = (
  omega (arith, l.addresses, x.0),
  λ h live.
      let (g, there, eq) = l.stays o h x.0 live in
      eq ∙ x.1 g there ∙ ap (λ (bs : List ℕ). get_elem? bs i) (sym l.backends),
)

pub Later-PlacedSlots :
    (v w : World) (i : ℕ) (slots : List (Option ℕ))
    → Later v w
    → PlacedSlots v i slots
    → PlacedSlots w i slots
Later-PlacedSlots v w i [] l x = tt
Later-PlacedSlots v w i (s ∷ slots) l x =
    (Later-PlacedSlot v w i s l x.0, Later-PlacedSlots v w (suc i) slots l x.1)

same_backend :
    (x : Option Handle) (g h : Handle) (b : Option ℕ)
    → x ≡ some g
    → x ≡ some h
    → h.backend_if ≡ b
    → g.backend_if ≡ b
same_backend x g h b e f at = ground arith

module _ (p : Platform) where
  search_lookup :
      (w : World) (dir : Text) (i o : ℕ)
      → search_from_cache p dir i w ≡ some o
      → lookup (key_value p dir (pos i)) w.feedback_handle_hash ≡ some o
  unfolding search_from_cache
  search_lookup w dir i o e =
      elim (Option-cases (lookup (key_value p dir (pos i)) w.feedback_handle_hash)) [
        | inl gone ↦ cc (rw (search_from_cache, gone) at e)
        | inr (q, there) ↦ elim (Option-cases (w.object q)) [
          | inl dead ↦ cc (rw (search_from_cache, there, dead) at e)
          | inr (h, live) ↦ there ∙ rw (search_from_cache, there, live) at e
        ]
      ]

  live-lt :
      (w : World) (r : ℕ → ℕ) (o : ℕ) (h : Handle)
      → w.object o ≡ some h
      → Inv p w r
      → o < w.next_object
  live-lt w r o h live v = ground (arith, v.fresh o, live)

  found-PlacedSlot :
      (dir : Text) (i o : ℕ) (w : World) (r : ℕ → ℕ)
      → TellsIndexes p (length w.backend_list)
      → i < length w.backend_list
      → Inv p w r
      → search_from_cache p dir i w ≡ some o
      → PlacedSlot w i (some o)
  found-PlacedSlot dir i o w r tells fits v e =
      let (h, live, key) = v.alive (key_value p dir (pos i)) o (search_lookup w dir i o e) in
      (
        live-lt w r o h live v,
        λ g there.
            same_backend (w.object o) g h _ there live
              (handle_key-backend p w.backend_list h dir i tells fits key),
      )

  made-PlacedSlot :
      (dir : Text) (i : ℕ) (w : World)
      → is_empty_state (loaded p dir i w).0.current_state ≡ false
      → PlacedSlot (make_handle p dir i w) i (some w.next_object)
  unfolding make_handle
  made-PlacedSlot dir i w full = (
    omega arith,
    λ g there.
        let new = load_new p (backend_state w) dir (get_elem? w.backend_list i) w.calls in
        same_backend _ g _ _ there (make_handle_object p dir i w) ((new.1 full).1),
  )

  -- The pointer that `loadHandle` returns.
  load_handle-PlacedSlot :
      (dir : Text) (i : ℕ) (w : World) (r : ℕ → ℕ)
      → TellsIndexes p (length w.backend_list)
      → i < length w.backend_list
      → Inv p w r
      → PlacedSlot (load_handle p dir i w).1 i (load_handle p dir i w).0
  load_handle-PlacedSlot dir i w r tells fits v =
      elim (Option-cases (search_from_cache p dir i w)) [
        | inr (o, found) ↦ rw (load_handle_found p dir i o w found) (
            Later-PlacedSlot w (attach o w) i (some o)
              (attach-Keeps p (Later w) (Later-Keeps p w) o w (Later-refl w))
              (found-PlacedSlot dir i o w r tells fits v found))
        | inl lost ↦ elim (Bool-cases (is_empty_state (loaded p dir i w).0.current_state)) [
          | inl bare ↦ rw (load_handle_refused p dir i w lost bare) tt
          | inr full ↦
              let w1 = make_handle p dir i w in
              let w2 = add_to_cache p w.next_object w1 in
              let k = Later-Keeps p w1 in
              rw (load_handle_kept p dir i w lost full) (
                Later-PlacedSlot w1 (attach w.next_object w2) i (some w.next_object)
                  (attach-Keeps p (Later w1) k w.next_object w2
                    (add_to_cache-Keeps p (Later w1) k w.next_object w1 (Later-refl w1)))
                  (made-PlacedSlot dir i w full))
        ]
      ]

  load_handle-Later : (dir : Text) (i : ℕ) (w : World) → Later w (load_handle p dir i w).1
  load_handle-Later dir i w = load_handle-Keeps p (Later w) (Later-Keeps p w) dir i w (Later-refl w)

  load_first-PlacedSlot :
      (dirs : List Text) (i : ℕ) (w : World) (r : ℕ → ℕ)
      → TellsIndexes p (length w.backend_list)
      → i < length w.backend_list
      → Inv p w r
      → PlacedSlot (load_first p dirs i w).1 i (load_first p dirs i w).0
  unfolding load_first
  load_first-PlacedSlot [] i w r tells fits v = tt
  load_first-PlacedSlot (dir ∷ dirs) i w r tells fits v =
      let found = load_handle-PlacedSlot dir i w r tells fits v in
      let w1 = (load_handle p dir i w).1 in
      let same = (load_handle-Later dir i w).backends in
      let kept = load_handle-Inv p dir i w r v in
      elim (Option-cases (load_handle p dir i w).0) [
        | inr (o, got) ↦ rw (got, load_first) found
        | inl lost ↦
            rw (lost, load_first)
              (load_first-PlacedSlot dirs i w1 r (rw same tells) (rw same fits)
                (Inv-ext p w1 (bump none r) r (λ q. refl) (rw lost at kept)))
      ]

  -- The new pointer of a slot, once the old one is released.
  load_slot-PlacedSlot :
      (dirs : List Text) (i : ℕ) (old : Option ℕ) (w : World) (r : ℕ → ℕ)
      → TellsIndexes p (length w.backend_list)
      → i < length w.backend_list
      → Inv p w r
      → PlacedSlot (load_slot p dirs i old w).1 i (load_slot p dirs i old w).0
        × Later w (load_slot p dirs i old w).1
  unfolding load_slot
  load_slot-PlacedSlot dirs i old w r tells fits v =
      let (new, w1) = load_first p dirs i w in
      let first = load_first-Keeps p (Later w) (Later-Keeps p w) dirs i w (Later-refl w) in
      (
        Later-PlacedSlot w1 _ i new
            (release-Keeps p (Later w1) (Later-Keeps p w1) _ w1 (Later-refl w1))
            (load_first-PlacedSlot dirs i w r tells fits v),
        release-Keeps p (Later w) (Later-Keeps p w) _ w1 first,
      )

  load_slots-PlacedSlots :
      (dirs : List Text) (i : ℕ) (slots : List (Option ℕ)) (w : World) (r : ℕ → ℕ)
      → TellsIndexes p (length w.backend_list)
      → i + length slots ≤ length w.backend_list
      → Inv p w (bump_all slots r)
      → PlacedSlots (load_slots p dirs i slots w).1 i (load_slots p dirs i slots w).0
  unfolding load_slots
  load_slots-PlacedSlots dirs i [] w r tells fits v = tt
  load_slots-PlacedSlots dirs i (old ∷ slots) w r tells fits v =
      let (new, w1) = load_slot p dirs i old w in
      let (placed, later) =
        load_slot-PlacedSlot dirs i old w (bump old (bump_all slots r)) tells (omega (arith, fits))
          v in
      let kept =
        Inv-ext p w1 (bump new (bump_all slots r)) (bump_all slots (bump new r))
          (λ q. sym (bump_all-bump slots new r q))
          (load_slot-Inv p dirs i old w (bump_all slots r) v) in
      (
        Later-PlacedSlot w1 _ i new
            (load_slots-Keeps p (Later w1) (Later-Keeps p w1) dirs (suc i) slots w1 (Later-refl w1))
            placed,
        load_slots-PlacedSlots dirs (suc i) slots w1 (bump new r) (rw (later.backends) tells)
            (rw (later.backends) (omega (arith, fits))) kept,
      )

  -- Loading a feedback that has a slot for each backend at most leaves in each slot a handle of the
  -- slot's backend, or none.
  pub load_feedback-PlacedSlots :
      (dirs : List Text) (f : Feedback) (w : World) (others : ℕ → ℕ)
      → TellsIndexes p (length w.backend_list)
      → length f.feedback_handles ≤ length w.backend_list
      → Inv p w (bump_all f.feedback_handles others)
      → PlacedSlots w 0 f.feedback_handles
      → PlacedSlots (load_feedback p dirs f w).1 0 (load_feedback p dirs f w).0.feedback_handles
  unfolding load_feedback
  load_feedback-PlacedSlots [] f w others tells fits v placed = placed
  load_feedback-PlacedSlots (dir ∷ dirs) f w others tells fits v placed =
      load_slots-PlacedSlots (dir ∷ dirs) 0 f.feedback_handles w others tells (omega (arith, fits))
        v

pub new_feedback-PlacedSlots : (w : World) → PlacedSlots w 0 (new_feedback w).feedback_handles
unfolding new_feedback
new_feedback-PlacedSlots w = none_placed 0 (length w.backend_list)
  where
    none_placed : (i n : ℕ) → PlacedSlots w i (replicate n none)
    none_placed i zero = tt
    none_placed i (suc n) = (tt, none_placed (suc i) n)
