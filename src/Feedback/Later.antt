-- ===== src/Feedback/Later.antt =====
-- What stays of the handles while others are made, loaded and deleted.
use touch_feedback.Base.{
  ℕ, ◌≤◌, ◌<◌, ◌≡◌, refl, ◌∙◌, Option, none, some, arith, Option-cases, Bool-cases, inl, inr, ◌==◌,
}
use touch_feedback.World.{Platform, Handle, World, update}
use touch_feedback.Handle.{delete, unload}
use touch_feedback.Cache.{unload_and_delete}
use touch_feedback.Feedback.{make_handle}
use touch_feedback.Feedback.Keeping.{Keeps}

-- Of the handles of `v` some are gone in `w`, the others have their backend still, and the addresses
-- of new handles are new.
pub record Later (v w : World) : Type 0 where
  pub backends : w.backend_list ≡ v.backend_list
  pub addresses : v.next_object ≤ w.next_object
  pub stays :
      (o : ℕ) (h : Handle)
      → o < v.next_object
      → w.object o ≡ some h
      → (g : Handle) × (v.object o ≡ some g) × (h.backend_if ≡ g.backend_if)

pub Later-refl : (w : World) → Later w w
Later-refl w = record {
  backends = refl;
  addresses = omega arith;
  stays = λ o h below live. (h, live, refl);
}

-- The object at one address changes, and keeps its backend or goes.
changed-Later :
    (v w u : World) (q : ℕ) (x : Option Handle)
    → u.backend_list ≡ w.backend_list
    → w.next_object ≤ u.next_object
    → ((o : ℕ) → u.object o ≡ update w.object q x o)
    → ((h : Handle)
        → q < v.next_object
        → x ≡ some h
        → (g : Handle) × (w.object q ≡ some g) × (h.backend_if ≡ g.backend_if))
    → Later v w
    → Later v u
changed-Later v w u q x same more at keeps l = record {
  backends = same ∙ l.backends;
  addresses = omega (arith, l.addresses);
  stays = λ o h below live. elim (Bool-cases (q == o)) [
    | inl hit ↦
        let (g, there, eq) = keeps h (ground arith) (ground (arith, at o)) in
        let (f, first, eq') = l.stays o g below (ground (arith, there)) in (f, first, eq ∙ eq')
    | inr miss ↦ l.stays o h below (ground (arith, at o))
  ];
}

module _ (p : Platform) (v : World) where
  deleted-Later : (o : ℕ) (w : World) → Later v w → Later v (delete o w)
  unfolding delete
  deleted-Later o w l = elim (Option-cases (w.object o)) [
    | inl gone ↦ rw (gone, delete) l
    | inr (h, live) ↦
        rw (live, delete)
          (changed-Later v w _ o none refl (omega arith) (λ q. refl) (λ g below e. cc) l)
  ]

  unloaded-Later : (o : ℕ) (w : World) → Later v w → Later v (unload_and_delete o w)
  unfolding unload_and_delete unload
  unloaded-Later o w l = elim (Option-cases (w.object o)) [
    | inl gone ↦ rw (gone, unload_and_delete) l
    | inr (h, live) ↦
        rw (live, unload_and_delete)
          (deleted-Later o _ (
            changed-Later v w _ o (some (unload h w.calls).0) refl (omega arith) (λ q. refl)
              (λ g below e. (h, live, ground (arith, e))) l))
  ]

  pub Later-Keeps : Keeps p (Later v)
  unfolding make_handle
  Later-Keeps = record {
    recached = λ d w l. record { backends = l.backends; addresses = l.addresses; stays = l.stays };
    recounted = λ o h n w live l.
        changed-Later v w _ o _ refl (omega arith) (λ q. refl)
          (λ g below e. (h, live, ground (arith, e))) l;
    made = λ dir i w l.
        changed-Later v w _ w.next_object _ refl (omega arith) (λ q. refl)
          (λ g below e. absurd (omega (arith, l.addresses))) l;
    deleted = deleted-Later;
    unloaded = unloaded-Later;
  }
