-- ===== src/Cache/Unloading.antt =====
-- `unloadHandlesForABackend`: which handles and which entries of the cache it leaves.
use touch_feedback.Base.{
  ℕ, ◌≡◌, refl, Bool, true, false, Option, none, some, [], ◌∷◌, arith, ◌==◌, if◌then◌else◌,
  Option-cases, inl, inr, sym, subst, Distinct,
}
use touch_feedback.Base.Text.{Text, text_eq_iff}
use touch_feedback.Base.Dict.{Dict, lookup, Keyed}
use touch_feedback.World.{Platform, Handle, World}
use touch_feedback.Handle.{unload, unload_if_ready, delete}
use touch_feedback.Cache.{
  handle_key, unload_and_delete, belongs, unload_entries, unload_handles_for_a_backend,
}
use touch_feedback.Cache.Invariant.{Inv}

-- Is the address among the entries?
abbrev pub listed : ℕ → Dict ℕ → Bool
listed q [] = false
listed q ((k, o) ∷ es) = if o == q then true else listed q es

-- The handles that stay, and the entry of a key that stays.
abbrev pub object_left : ℕ → World → ℕ → Option Handle
object_left b w q = if belongs b q w then none else w.object q

abbrev pub entry_left : ℕ → World → Option ℕ → Option ℕ
entry_left b w none = none
entry_left b w (some o) = if belongs b o w then none else some o

abbrev next_world : ℕ → ℕ → World → World
next_world b o w = if belongs b o w then unload_and_delete o w else w

object-next_world :
    (b o : ℕ) (w : World) (q : ℕ)
    → (next_world b o w).object q ≡ (if o == q then object_left b w q else w.object q)
unfolding belongs unload_and_delete unload unload_if_ready delete
object-next_world b o w q = ground arith

belongs-next_world :
    (b o : ℕ) (w : World) (q : ℕ)
    → belongs b q (next_world b o w) ≡ (if o == q then false else belongs b q w)
unfolding belongs
belongs-next_world b o w q = ground (arith, object-next_world b o w q)

object-unload_entries :
    (b : ℕ) (es : Dict ℕ) (w : World) (q : ℕ)
    → (unload_entries b es w).1.object q ≡ (if listed q es then object_left b w q else w.object q)
unfolding unload_entries
object-unload_entries b [] w q = refl
object-unload_entries b ((k, o) ∷ es) w q = ground (
  arith,
  object-unload_entries b es (next_world b o w) q,
  object-next_world b o w q,
  belongs-next_world b o w q,
)

-- Each entry's key is what `f` gives for its address.
abbrev Aimed : (ℕ → Text) → Dict ℕ → Type 0
Aimed f [] = Unit
Aimed f ((k, o) ∷ es) = (f o ≡ k) × Aimed f es

lookup-Aimed :
    (f : ℕ → Text) (es : Dict ℕ) (k : Text) (o : ℕ) → Aimed f es → lookup k es ≡ some o → f o ≡ k
unfolding lookup
lookup-Aimed f [] k o aimed h = cc
lookup-Aimed f ((j, q) ∷ es) k o aimed h =
    ground (arith, aimed.0, text_eq_iff j k, lookup-Aimed f es k o aimed.1)

lookup-unload_entries :
    (b : ℕ) (f : ℕ → Text) (es : Dict ℕ) (w : World) (k : Text)
    → Keyed es
    → Aimed f es
    → lookup k (unload_entries b es w).0 ≡ entry_left b w (lookup k es)
unfolding unload_entries lookup Keyed
lookup-unload_entries b f [] w k keyed aimed = refl
lookup-unload_entries b f ((j, o) ∷ es) w k keyed aimed = elim (Option-cases (lookup k es)) [
  | inl e ↦ ground (
    arith,
    e,
    text_eq_iff j k,
    keyed.0,
    lookup-unload_entries b f es (next_world b o w) k keyed.1 aimed.1,
  )
  | inr (q, e) ↦ ground (
    arith,
    e,
    text_eq_iff j k,
    keyed.0,
    aimed.0,
    lookup-Aimed f es k q aimed.1 e,
    belongs-next_world b o w q,
    lookup-unload_entries b f es (next_world b o w) k keyed.1 aimed.1,
  )
]

-- The fields that the loop does not touch.
unload_entries_frame :
    (b : ℕ) (es : Dict ℕ) (w : World)
    → ((unload_entries b es w).1.backend_list ≡ w.backend_list)
      × ((unload_entries b es w).1.next_object ≡ w.next_object)
unfolding unload_entries unload_and_delete unload unload_if_ready delete
unload_entries_frame b [] w = (refl, refl)
unload_entries_frame b ((k, o) ∷ es) w =
    ground (arith, unload_entries_frame b es (next_world b o w))

unload_entries-Keyed :
    (b : ℕ) (f : ℕ → Text) (es : Dict ℕ) (w : World)
    → Keyed es
    → Aimed f es
    → Keyed (unload_entries b es w).0
unfolding unload_entries Keyed
unload_entries-Keyed b f [] w keyed aimed = tt
unload_entries-Keyed b f ((k, o) ∷ es) w keyed aimed = ground (
  arith,
  keyed.0,
  unload_entries-Keyed b f es (next_world b o w) keyed.1 aimed.1,
  lookup-unload_entries b f es (next_world b o w) k keyed.1 aimed.1,
)

pub lookup-listed : (es : Dict ℕ) (k : Text) (o : ℕ) → lookup k es ≡ some o → listed o es ≡ true
unfolding lookup
lookup-listed [] k o h = cc
lookup-listed ((j, q) ∷ es) k o h = ground (arith, lookup-listed es k o)

module _ (p : Platform) where
  abbrev key_of : World → ℕ → Text
  key_of w o = elim (w.object o) [ none ↦ [] | some h ↦ handle_key p w.backend_list h ]

  all_Aimed :
      (f : ℕ → Text) (es : Dict ℕ)
      → Keyed es
      → ((k : Text) (o : ℕ) → lookup k es ≡ some o → f o ≡ k)
      → Aimed f es
  unfolding lookup Keyed
  all_Aimed f [] keyed aims = tt
  all_Aimed f ((k, o) ∷ es) keyed aims = (
    aims k o (ground (arith, text_eq_iff k k)),
    all_Aimed f es keyed.1 (λ j q h. aims j q (ground (arith, h, text_eq_iff k j, keyed.0))),
  )

  Inv-Aimed : (w : World) (r : ℕ → ℕ) → Inv p w r → Aimed (key_of w) w.feedback_handle_hash
  Inv-Aimed w r v =
      all_Aimed (key_of w) w.feedback_handle_hash v.keyed
        (λ k o h. ground (arith, (v.alive k o h).1, (v.alive k o h).2))

  object_lem :
      (b : ℕ) (w : World) (r : ℕ → ℕ) (q : ℕ)
      → Inv p w r
      → (unload_handles_for_a_backend b w).object q ≡ object_left b w q
  unfolding unload_handles_for_a_backend belongs
  object_lem b w r q v = elim (Option-cases (w.object q)) [
    | inl e ↦ ground (arith, e, object-unload_entries b w.feedback_handle_hash w q)
    | inr (h, e) ↦ ground (
      arith,
      e,
      object-unload_entries b w.feedback_handle_hash w q,
      lookup-listed w.feedback_handle_hash (handle_key p w.backend_list h) q (v.cached q h e),
    )
  ]

  entry_lem :
      (b : ℕ) (w : World) (r : ℕ → ℕ) (k : Text)
      → Inv p w r
      → lookup k (unload_handles_for_a_backend b w).feedback_handle_hash
        ≡ entry_left b w (lookup k w.feedback_handle_hash)
  unfolding unload_handles_for_a_backend
  entry_lem b w r k v =
      lookup-unload_entries b (key_of w) w.feedback_handle_hash w k v.keyed (Inv-Aimed w r v)

  -- When a backend is disconnected, exactly its handles are deleted and exactly their entries leave
  -- the cache; all other handles and entries stay as they were; and the invariant still holds with
  -- the same pointers, those to the deleted handles now being null.
  pub unload_handles_for_a_backend-Inv :
      (b : ℕ) (w : World) (r : ℕ → ℕ)
      → Inv p w r
      → Inv p (unload_handles_for_a_backend b w) r
        × ((q : ℕ) → (unload_handles_for_a_backend b w).object q ≡ object_left b w q)
        × ((k : Text)
            → lookup k (unload_handles_for_a_backend b w).feedback_handle_hash
              ≡ entry_left b w (lookup k w.feedback_handle_hash))
  unfolding unload_handles_for_a_backend belongs
  unload_handles_for_a_backend-Inv b w r v =
      let frame = unload_entries_frame b w.feedback_handle_hash w in
      (
        record {
          distinct = subst Distinct (sym frame.0) v.distinct;
          keyed =
              unload_entries-Keyed b (key_of w) w.feedback_handle_hash w v.keyed (Inv-Aimed w r v);
          fresh = λ q h. ground (arith, frame.1, v.fresh q, object_lem b w r q v);
          counted = λ q h x. ground (arith, v.counted q h, object_lem b w r q v);
          cached = λ q h x. ground (
            arith,
            frame.0,
            v.cached q h,
            object_lem b w r q v,
            entry_lem b w r (handle_key p w.backend_list h) v,
          );
          alive = λ k q x.
              let old : lookup k w.feedback_handle_hash ≡ some q =
                ground (arith, entry_lem b w r k v) in
              let a = v.alive k q old in
              (a.0, ground (arith, a.1, object_lem b w r q v, entry_lem b w r k v), rw frame.0 a.2);
        },
        (λ q. object_lem b w r q v),
        (λ k. entry_lem b w r k v),
      )
