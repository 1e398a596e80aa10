-- ===== src/Handle/Ledger.antt =====
-- Which handles own what the plugins have handed out.
use touch_feedback.Base.{
  ℕ, zero, suc, ◌+◌, ◌-◌, ◌≤◌, ◌<◌, ◌≡◌, refl, Bool, true, false, Option, none, some, List, arith,
  ◌==◌, Bool-cases, Option-cases, inl, inr,
}
use touch_feedback.Base.Text.{Text}
use touch_feedback.Backend.{State, Call, unload_handle_wrapper}
use touch_feedback.Backend.Ledger.{same, held, Clean, IsTidy}
use touch_feedback.World.{Platform, Handle, is_ready, World, update}
use touch_feedback.Handle.{new_handle, unload, unload_if_ready, load}

-- 1 if the handle is ready and has r of the backend b.
abbrev pub owned : ℕ → ℕ → Bool → Option ℕ → Option ℕ → ℕ
owned b r true (some c) handle = same b r c handle
owned b r _ _ handle = 0

abbrev pub owns : ℕ → ℕ → Option Handle → ℕ
owns b r none = 0
owns b r (some h) = owned b r (is_ready h.current_state) h.backend_if h.handle

-- The owners among the addresses below n.
abbrev pub owners : ℕ → ℕ → (ℕ → Option Handle) → ℕ → ℕ
owners b r object zero = 0
owners b r object (suc n) = owners b r object n + owns b r (object n)

pub owners-update_above :
    (b r : ℕ) (object : ℕ → Option Handle) (o : ℕ) (v : Option Handle) (n : ℕ)
    → n ≤ o
    → owners b r (update object o v) n ≡ owners b r object n
owners-update_above b r object o v zero above = refl
owners-update_above b r object o v (suc n) above =
    ground (arith, owners-update_above b r object o v n)

pub owners-update :
    (b r : ℕ) (object : ℕ → Option Handle) (o : ℕ) (v : Option Handle) (n : ℕ)
    → o < n
    → owners b r (update object o v) n + owns b r (object o) ≡ owners b r object n + owns b r v
owners-update b r object o v zero lt = absurd (omega arith)
owners-update b r object o v (suc n) lt = elim (Bool-cases (o == n)) [
  | inl last ↦
      let e : o ≡ n = ground arith in
      rw (← e) (ground (arith, owners-update_above b r object o v o))
  | inr other ↦ ground (arith, owners-update b r object o v n)
]

owns-le-owners :
    (b r : ℕ) (object : ℕ → Option Handle) (o n : ℕ)
    → o < n
    → owns b r (object o) ≤ owners b r object n
owns-le-owners b r object o zero lt = absurd (omega arith)
owns-le-owners b r object o (suc n) lt = elim (Bool-cases (o == n)) [
  | inl last ↦ let e : o ≡ n = ground arith in rw e (omega arith)
  | inr other ↦ ground (arith, owns-le-owners b r object o n)
]

pub owners-none :
    (b r : ℕ) (object : ℕ → Option Handle) (n : ℕ)
    → ((o : ℕ) → object o ≡ none)
    → owners b r object n ≡ 0
owners-none b r object zero gone = refl
owners-none b r object (suc n) gone = ground (arith, gone n, owners-none b r object n gone)

-- A handle that is not ready has nothing of a plugin.
abbrev pub IsIdle : Handle → Type 0
IsIdle h = is_ready h.current_state ≡ false → h.handle ≡ none

-- What is handed out is owned, one for one; the calls so far were clean; and an address that is
-- not used yet holds no handle.
pub record Ledger (p : Platform) (w : World) : Type 0 where
  pub fresh : (o : ℕ) → w.next_object ≤ o → w.object o ≡ none
  pub idle : (o : ℕ) (h : Handle) → w.object o ≡ some h → IsIdle h
  pub settled : (b r : ℕ) → held p.plugin w.calls b r ≡ owners b r w.object w.next_object
  pub clean : Clean p.plugin w.calls

module _ (p : Platform) where
  pub held-unload :
      (h : Handle) (calls : List Call) (b r : ℕ)
      → IsIdle h
      → held p.plugin (unload h calls).1 b r ≡ held p.plugin calls b r - owns b r (some h)
  unfolding unload unload_handle_wrapper
  held-unload h calls b r idle = ground (arith, idle)

  pub unload-Clean :
      (h : Handle) (calls : List Call)
      → IsIdle h
      → ((b r : ℕ) → owns b r (some h) ≤ held p.plugin calls b r)
      → Clean p.plugin calls
      → Clean p.plugin (unload h calls).1
  unfolding unload unload_handle_wrapper
  unload-Clean h calls idle has clean = elim (Option-cases h.backend_if) [
    | inl no_backend ↦ rw (no_backend, unload) clean
    | inr (c, at) ↦ elim (Option-cases h.handle) [
      | inl no_handle ↦ rw (at, unload, no_handle) clean
      | inr (v, e) ↦ rw (at, unload, e) (ground (arith, idle, has c v, at, e), clean)
    ]
  ]

  pub held-load :
      (states : ℕ → State) (dir : Text) (backend : Option ℕ) (calls : List Call) (b r : ℕ)
      → IsTidy p.plugin
      → held p.plugin (load p states dir backend new_handle calls).1 b r
        ≡ held p.plugin calls b r + owns b r (some (load p states dir backend new_handle calls).0)
  unfolding load new_handle
  held-load states dir none calls b r tidy = ground arith
  held-load states dir (some c) calls b r tidy = ground (arith, tidy calls c dir)

  pub load-Clean :
      (states : ℕ → State) (dir : Text) (backend : Option ℕ) (calls : List Call)
      → Clean p.plugin calls
      → Clean p.plugin (load p states dir backend new_handle calls).1
  unfolding load new_handle
  load-Clean states dir none calls clean = ground arith
  load-Clean states dir (some c) calls clean = ground arith

  pub load-IsIdle :
      (states : ℕ → State) (dir : Text) (backend : Option ℕ) (calls : List Call)
      → IsTidy p.plugin
      → IsIdle (load p states dir backend new_handle calls).0
  unfolding load new_handle
  load-IsIdle states dir none calls tidy = ground arith
  load-IsIdle states dir (some c) calls tidy = ground (arith, tidy calls c dir)

  pub held-unload_if_ready :
      (h : Handle) (calls : List Call) (b r : ℕ)
      → IsIdle h
      → held p.plugin (unload_if_ready h calls).1 b r ≡ held p.plugin calls b r - owns b r (some h)
  unfolding unload_if_ready
  held-unload_if_ready h calls b r idle = ground (arith, held-unload h calls b r idle)

  pub unload_if_ready-Clean :
      (h : Handle) (calls : List Call)
      → IsIdle h
      → ((b r : ℕ) → owns b r (some h) ≤ held p.plugin calls b r)
      → Clean p.plugin calls
      → Clean p.plugin (unload_if_ready h calls).1
  unfolding unload_if_ready
  unload_if_ready-Clean h calls idle has clean = elim (Bool-cases (is_ready h.current_state)) [
    | inl is ↦ rw (is, unload_if_ready) (unload-Clean h calls idle has clean)
    | inr not_ready ↦ rw (not_ready, unload_if_ready) clean
  ]

  -- A live handle's part of what is handed out.
  pub owns-le-held :
      (o : ℕ) (h : Handle) (w : World) (b r : ℕ)
      → w.object o ≡ some h
      → Ledger p w
      → owns b r (some h) ≤ held p.plugin w.calls b r
  owns-le-held o h w b r live v =
      let below : o < w.next_object = ground (arith, v.fresh o, live) in
      rw (v.settled b r) (rw live at (owns-le-owners b r w.object o w.next_object below))

  -- A handle gives back what it has, and something that has nothing takes its place.
  pub gone-Ledger :
      (o : ℕ) (h : Handle) (left : Option Handle) (w : World) (calls : List Call)
      → w.object o ≡ some h
      → ((g : Handle) → left ≡ some g → IsIdle g)
      → ((b r : ℕ) → owns b r left ≡ 0)
      → ((b r : ℕ) → held p.plugin calls b r ≡ held p.plugin w.calls b r - owns b r (some h))
      → Clean p.plugin calls
      → Ledger p w
      → Ledger p (record w { object = update w.object o left; calls = calls })
  gone-Ledger o h left w calls live idle bare gives clean v = record {
    fresh = λ q above. ground (arith, v.fresh q above, v.fresh o);
    idle = λ q g x. ground (arith, v.idle q g, idle g);
    settled = λ b r. ground (
      arith,
      gives b r,
      bare b r,
      v.settled b r,
      owns-le-held o h w b r live v,
      owners-update b r w.object o left w.next_object,
      v.fresh o,
      live,
    );
    clean = clean;
  }
