-- ===== src/Feedback/Fitting.antt =====
-- The slots and players of a feedback, against the list of backends.
use touch_feedback.Base.{
  ℕ, zero, suc, ◌-◌, ◌≡◌, refl, ◌∙◌, sym, Option, none, some, List, [], ◌∷◌, arith, length,
  replicate, Option-cases, inl, inr,
}
use touch_feedback.Base.Text.{Text}
use touch_feedback.Base.Dict.{Dict}
use touch_feedback.Backend.{Call}
use touch_feedback.World.{Platform, Handle, World, update}
use touch_feedback.Handle.{delete, unload}
use touch_feedback.Cache.{unload_and_delete}
use touch_feedback.Feedback.{Feedback, new_feedback, make_handle, load_slots, load_feedback}
use touch_feedback.Feedback.Keeping.{Keeps}

-- The backends are those of another state.
pub record SameBackends (w u : World) : Type 0 where
  pub backends : u.backend_list ≡ w.backend_list
  pub direct : u.non_threaded_backend_count ≡ w.non_threaded_backend_count

-- All else may change.
abbrev with_handles : World → Dict ℕ → (ℕ → Option Handle) → ℕ → List Call → World
with_handles u d object next calls = record u {
  feedback_handle_hash = d;
  object = object;
  next_object = next;
  calls = calls;
}

with_handles-SameBackends :
    (w u : World) (d : Dict ℕ) (object : ℕ → Option Handle) (next : ℕ) (calls : List Call)
    → SameBackends w u
    → SameBackends w (with_handles u d object next calls)
with_handles-SameBackends w u d object next calls s = record {
  backends = s.backends;
  direct = s.direct;
}

deleted-SameBackends : (w u : World) (o : ℕ) → SameBackends w u → SameBackends w (delete o u)
unfolding delete
deleted-SameBackends w u o s = elim (Option-cases (u.object o)) [
  | inl gone ↦ rw (gone, delete) s
  | inr (h, live) ↦ rw (live, delete) (with_handles-SameBackends w u _ _ _ _ s)
]

unloaded-SameBackends :
    (w u : World) (o : ℕ) → SameBackends w u → SameBackends w (unload_and_delete o u)
unfolding unload_and_delete
unloaded-SameBackends w u o s = elim (Option-cases (u.object o)) [
  | inl gone ↦ rw (gone, unload_and_delete) s
  | inr (h, live) ↦
      rw (live, unload_and_delete)
        (let (h', calls') = unload h u.calls in
          deleted-SameBackends w
            (with_handles u u.feedback_handle_hash (update u.object o (some h')) u.next_object
              calls')
            o (with_handles-SameBackends w u _ _ _ _ s))
]

pub SameBackends-Keeps : (p : Platform) (w : World) → Keeps p (SameBackends w)
unfolding make_handle
SameBackends-Keeps p w = record {
  recached = λ d u s. with_handles-SameBackends w u _ _ _ _ s;
  recounted = λ o h n u live s. with_handles-SameBackends w u _ _ _ _ s;
  made = λ dir i u s. with_handles-SameBackends w u _ _ _ _ s;
  deleted = λ o u s. deleted-SameBackends w u o s;
  unloaded = λ o u s. unloaded-SameBackends w u o s;
}

-- One slot for each backend, and one player for each that has a thread.
pub record Fits (w : World) (f : Feedback) : Type 0 where
  pub slots : length f.feedback_handles ≡ length w.backend_list
  pub players : f.concurrent_players ≡ length w.backend_list - w.non_threaded_backend_count

pub SameBackends-refl : (w : World) → SameBackends w w
SameBackends-refl w = record { backends = refl; direct = refl }

pub SameBackends-sym : {w u : World} → SameBackends w u → SameBackends u w
SameBackends-sym s = record { backends = sym s.backends; direct = sym s.direct }

pub Fits-SameBackends : (w u : World) (f : Feedback) → SameBackends w u → Fits w f → Fits u f
Fits-SameBackends w u f s v = record {
  slots = rw (s.backends) (v.slots);
  players = rw (s.backends, s.direct) (v.players);
}

length-replicate : (n : ℕ) → length (replicate {A = Option ℕ} n none) ≡ n
length-replicate zero = refl
length-replicate (suc n) = omega (arith, length-replicate n)

pub new_feedback-Fits : (w : World) → Fits w (new_feedback w)
unfolding new_feedback
new_feedback-Fits w = record { slots = length-replicate (length w.backend_list); players = refl }

module _ (p : Platform) where
  length-load_slots :
      (dirs : List Text) (i : ℕ) (slots : List (Option ℕ)) (w : World)
      → length (load_slots p dirs i slots w).0 ≡ length slots
  unfolding load_slots
  length-load_slots dirs i [] w = refl
  length-load_slots dirs i (old ∷ slots) w = omega (arith, length-load_slots dirs (suc i) slots _)

  pub load_feedback-Fits :
      (dirs : List Text) (f : Feedback) (w u : World)
      → Fits u f
      → Fits u (load_feedback p dirs f w).0
  unfolding load_feedback
  load_feedback-Fits [] f w u v = v
  load_feedback-Fits (dir ∷ dirs) f w u v = record {
    slots = length-load_slots (dir ∷ dirs) 0 f.feedback_handles w ∙ v.slots;
    players = v.players;
  }
