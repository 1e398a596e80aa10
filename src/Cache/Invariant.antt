-- ===== src/Cache/Invariant.antt =====
-- What holds of the handles and of their cache between two calls: the cache holds exactly the live
-- handles, each under its own key, and a handle's count is the number of pointers to it.
use touch_feedback.Base.{
  ℕ, suc, ◌≤◌, ◌<◌, ◌≡◌, refl, ◌≢◌, Option, none, some, List, arith, ◌==◌, if◌then◌else◌,
  Bool-cases, inl, inr, Distinct,
}
use touch_feedback.Base.Text.{Text, text_eq, text_eq_iff}
use touch_feedback.Base.Dict.{
  lookup, insert, erase, lookup-insert, lookup-erase, Keyed, insert-Keyed, erase-Keyed,
}
use touch_feedback.Backend.{Call}
use touch_feedback.World.{Platform, Handle, World, update}
use touch_feedback.Handle.{attach}
use touch_feedback.Cache.{handle_key}

-- One more pointer, if there is one.
abbrev pub bump : Option ℕ → (ℕ → ℕ) → ℕ → ℕ
bump none refs q = refs q
bump (some o) refs q = if o == q then suc (refs q) else refs q

-- `refs` counts the pointers that the feedbacks hold.
pub record Inv (p : Platform) (w : World) (refs : ℕ → ℕ) : Type 0 where
  pub distinct : Distinct w.backend_list
  pub keyed : Keyed w.feedback_handle_hash
  pub fresh : (o : ℕ) → w.next_object ≤ o → (w.object o ≡ none) × (refs o ≡ 0)
  pub counted : (o : ℕ) (h : Handle) → w.object o ≡ some h → (h.ref_cnt ≡ refs o) × (0 < refs o)
  pub cached :
      (o : ℕ) (h : Handle)
      → w.object o ≡ some h
      → lookup (handle_key p w.backend_list h) w.feedback_handle_hash ≡ some o
  pub alive :
      (k : Text) (o : ℕ)
      → lookup k w.feedback_handle_hash ≡ some o
      → (h : Handle) × (w.object o ≡ some h) × (handle_key p w.backend_list h ≡ k)

module _ (p : Platform) where
  pub Inv-ext : (w : World) (r s : ℕ → ℕ) → ((q : ℕ) → r q ≡ s q) → Inv p w r → Inv p w s
  Inv-ext w r s e v = record {
    distinct = v.distinct;
    keyed = v.keyed;
    fresh = λ o h. ground (arith, v.fresh o h, e o);
    counted = λ o h x. ground (arith, v.counted o h x, e o);
    cached = v.cached;
    alive = v.alive;
  }

  -- A pointer to an object that is gone does not count.
  pub Inv-drop :
      (w : World) (r : ℕ → ℕ) (o : ℕ) → w.object o ≡ none → Inv p w (bump (some o) r) → Inv p w r
  Inv-drop w r o gone v = record {
    distinct = v.distinct;
    keyed = v.keyed;
    fresh = λ q h. ground (arith, v.fresh q h);
    counted = λ q h x. ground (arith, v.counted q h x);
    cached = v.cached;
    alive = v.alive;
  }

  handle_key-ref_cnt :
      (bs : List ℕ) (h : Handle) (n : ℕ)
      → handle_key p bs (record h { ref_cnt = n }) ≡ handle_key p bs h
  unfolding handle_key
  handle_key-ref_cnt bs h n = refl

  abbrev pub count_to : World → ℕ → Handle → ℕ → World
  count_to w o h n = record w { object = update w.object o (some (record h { ref_cnt = n })) }

  -- Only the count of a live object changes.
  pub count_to-Inv :
      (w : World) (r s : ℕ → ℕ) (o : ℕ) (h : Handle) (n : ℕ)
      → w.object o ≡ some h
      → s o ≡ n
      → 0 < n
      → ((q : ℕ) → o ≢ q → s q ≡ r q)
      → Inv p w r
      → Inv p (count_to w o h n) s
  count_to-Inv w r s o h n live e pos same v = record {
    distinct = v.distinct;
    keyed = v.keyed;
    fresh = λ q g. ground (arith, v.fresh q g, same q);
    counted = λ q g x. ground (arith, v.counted q g, same q);
    cached = λ q g x.
        ground (arith, v.cached q g, v.cached o h live, handle_key-ref_cnt w.backend_list h n);
    alive = λ k q x. elim (Bool-cases (o == q)) [
      | inl hit ↦ (
        record h { ref_cnt = n },
        ground arith,
        ground (arith, (v.alive k q x).1, (v.alive k q x).2, handle_key-ref_cnt w.backend_list h n),
      )
      | inr miss ↦ ((v.alive k q x).0, ground (arith, (v.alive k q x).1), (v.alive k q x).2)
    ];
  }

  abbrev pub without : World → ℕ → Handle → List Call → World
  without w o h calls = record w {
    object = update w.object o none;
    feedback_handle_hash = erase (handle_key p w.backend_list h) w.feedback_handle_hash;
    calls = calls;
  }

  -- A live object goes, and its entry with it.
  pub without-Inv :
      (w : World) (r s : ℕ → ℕ) (o : ℕ) (h : Handle) (calls : List Call)
      → w.object o ≡ some h
      → ((q : ℕ) → o ≢ q → s q ≡ r q)
      → s o ≤ r o
      → Inv p w r
      → Inv p (without w o h calls) s
  without-Inv w r s o h calls live same less v = record {
    distinct = v.distinct;
    keyed = erase-Keyed (handle_key p w.backend_list h) w.feedback_handle_hash v.keyed;
    fresh = λ q g. ground (arith, v.fresh q g, same q);
    counted = λ q g x. ground (arith, v.counted q g, same q);
    cached = λ q g x.
        let k = handle_key p w.backend_list g in
        let l = handle_key p w.backend_list h in
        ground (
          arith,
          v.cached q g,
          v.cached o h live,
          lookup-erase l k w.feedback_handle_hash,
          text_eq_iff l k,
        );
    alive = λ k q x.
        let l = handle_key p w.backend_list h in
        let old : lookup k w.feedback_handle_hash ≡ some q =
          ground (arith, lookup-erase l k w.feedback_handle_hash) in
        let a = v.alive k q old in
        (
          a.0,
          ground (arith, a.1, a.2, lookup-erase l k w.feedback_handle_hash, text_eq_iff l k),
          a.2,
        );
  }

  pub attach-Inv :
      (w : World) (r : ℕ → ℕ) (o : ℕ) (h : Handle)
      → w.object o ≡ some h
      → Inv p w r
      → Inv p (attach o w) (bump (some o) r)
  unfolding attach
  attach-Inv w r o h live v =
      rw (live, attach)
        (count_to-Inv w r (bump (some o) r) o h (suc h.ref_cnt) live
          (ground (arith, v.counted o h live)) (omega arith) (λ q differ. ground arith) v)

  -- A new object goes into the cache under its key, with one pointer to it.
  pub added-Inv :
      (w : World) (r : ℕ → ℕ) (h : Handle) (f : ℕ → Option Handle) (calls : List Call)
      → f w.next_object ≡ some h
      → ((q : ℕ) → w.next_object ≢ q → f q ≡ w.object q)
      → h.ref_cnt ≡ 1
      → lookup (handle_key p w.backend_list h) w.feedback_handle_hash ≡ none
      → Inv p w r
      → Inv p
          (record w {
            object = f;
            feedback_handle_hash =
                insert (handle_key p w.backend_list h) w.next_object w.feedback_handle_hash;
            next_object = suc w.next_object;
            calls = calls;
          })
          (bump (some w.next_object) r)
  added-Inv w r h f calls new old one free v = record {
    distinct = v.distinct;
    keyed =
        insert-Keyed (handle_key p w.backend_list h) w.next_object w.feedback_handle_hash v.keyed;
    fresh = λ q g. ground (arith, v.fresh q, old q);
    counted = λ q g x. ground (arith, v.counted q g, old q, v.fresh w.next_object);
    cached = λ q g x.
        let k = handle_key p w.backend_list g in
        let l = handle_key p w.backend_list h in
        ground (
          arith,
          v.cached q g,
          old q,
          lookup-insert l k w.next_object w.feedback_handle_hash,
          text_eq_iff l k,
        );
    alive = λ k q x.
        let l = handle_key p w.backend_list h in
        elim (Bool-cases (text_eq l k)) [
          | inl hit ↦ (
            h,
            ground (arith, lookup-insert l k w.next_object w.feedback_handle_hash),
            ground (arith, text_eq_iff l k),
          )
          | inr miss ↦
              let before : lookup k w.feedback_handle_hash ≡ some q =
                ground (arith, lookup-insert l k w.next_object w.feedback_handle_hash) in
              let a = v.alive k q before in
              (a.0, ground (arith, a.1, old q, v.fresh w.next_object), a.2)
        ];
  }

  -- A new object that is deleted again leaves nothing but its used address.
  pub discarded-Inv :
      (w : World) (r : ℕ → ℕ) (f : ℕ → Option Handle) (calls : List Call)
      → f w.next_object ≡ none
      → ((q : ℕ) → w.next_object ≢ q → f q ≡ w.object q)
      → Inv p w r
      → Inv p (record w { object = f; next_object = suc w.next_object; calls = calls }) r
  discarded-Inv w r f calls gone old v = record {
    distinct = v.distinct;
    keyed = v.keyed;
    fresh = λ q g. ground (arith, v.fresh q, old q);
    counted = λ q g x. ground (arith, v.counted q g, old q);
    cached = λ q g x. ground (arith, v.cached q g, old q);
    alive = λ k q x.
        let a = v.alive k q x in (a.0, ground (arith, a.1, old q, v.fresh w.next_object), a.2);
  }
