-- ===== src/Dummies/Safety.antt =====
-- Runs of the dummy backends whose caller plays and unloads only what it has been handed.
use touch_feedback.Base.{
  ℕ, zero, suc, ◌+◌, ◌≡◌, refl, ◌∙◌, ap, sym, subst, Bool, true, Option, none, some, List, [], ◌∷◌,
  arith, Option-cases, inl, inr, ◌⊎◌,
}
use touch_feedback.Base.Text.{Text, codes}
use touch_feedback.Backend.{Call, loads, unloads, plays, PlaybackVolume}
use touch_feedback.Backend.Ledger.{same, held, Clean, IsTidy}
use touch_feedback.Dummies.{
  Directories, Strings, no_strings, allocate, free, unload_string, load_file, play_string,
}
use touch_feedback.Dummies.Plain
use touch_feedback.Dummies.Vibra
use touch_feedback.Dummies.Audio
use touch_feedback.Dummies.Replay.{
  Kind, plain, vibra, audio, load_of_kind, unload_of_kind, play_of_kind, handle_left, replay,
  dummies,
}
use touch_feedback.Dummies.Memory.{Owned, Owned-ext, allocate-Owned, free-Owned}

-- A load changes nothing and leaves a null handle, or allocates one string and leaves its address.
Loaded : Bool × Option (Option ℕ) × Strings → Strings → Type 0
Loaded r m =
    ((handle_left r.1 ≡ none) × (r.2 ≡ m))
    ⊎ ((text : Text) × (r.0 ≡ true) × (handle_left r.1 ≡ some m.next) × (r.2 ≡ (allocate text m).1))

load_file_lem :
    (dirs : Directories) (file dir : Text) (m : Strings)
    → Loaded (load_file dirs file dir (some none) m) m
unfolding Loaded load_file allocate
load_file_lem dirs file dir m = elim (Option-cases (dirs.size dir file)) [
  | inl missing ↦ rw (missing, load_file) (inl (refl, refl))
  | inr (zero, e) ↦ rw (e, load_file) (inl (refl, refl))
  | inr (suc n, e) ↦ rw (e, load_file) (inr (dirs.absolute_path dir, refl, refl, refl))
]

load_lem :
    (dirs : Directories) (k : Kind) (dir : Text) (m : Strings)
    → Loaded (load_of_kind dirs k dir m) m
unfolding Loaded Plain.load_handle Vibra.load_handle Audio.load_handle allocate
load_lem dirs plain dir m = inr (dirs.dir_name dir, refl, refl, refl)
load_lem dirs vibra dir m = load_file_lem dirs (codes "vibra.ivt") dir m
load_lem dirs audio dir m = load_file_lem dirs (codes "audio.wav") dir m

unload_lem : (k : Kind) (a : ℕ) (m : Strings) → unload_of_kind k a m ≡ free a m
unfolding Plain.unload_handle Vibra.unload_handle Audio.unload_handle unload_string
unload_lem plain a m = refl
unload_lem vibra a m = refl
unload_lem audio a m = refl

play_lem :
    (k : Kind) (a : ℕ) (volume : PlaybackVolume) (m : Strings) (text : Text)
    → m.content a ≡ some text
    → play_of_kind k a volume m ≡ some m
unfolding Plain.play Vibra.play Audio.play play_string
play_lem plain a volume m text e = rw (e, Plain.play) refl
play_lem vibra a volume m text e = rw (e, play_string) refl
play_lem audio a volume m text e = rw (e, play_string) refl

none-Owned : Owned (λ b a. 0) no_strings
none-Owned = record {
  fresh = λ a h. refl;
  live = λ b a h. absurd (omega arith);
  one = λ b c a h k. absurd (omega arith);
  found = λ a text h. cc;
}

module _ (dirs : Directories) (kind : ℕ → Kind) where
  -- What a load hands out, by the memory before it.
  load_handle_lem :
      (b : ℕ) (dir : Text) (calls : List Call) (m : Strings)
      → replay dirs kind calls ≡ some m
      → (dummies dirs kind).load_handle calls b dir
        ≡ ((load_of_kind dirs (kind b) dir m).0, handle_left (load_of_kind dirs (kind b) dir m).1)
  load_handle_lem b dir calls m e = rw (e, dummies) refl

  pub dummies-IsTidy : IsTidy (dummies dirs kind)
  unfolding Loaded
  dummies-IsTidy calls b dir failed = elim (Option-cases (replay dirs kind calls)) [
    | inl fault ↦ rw (fault, dummies) refl
    | inr (m, e) ↦
        let answer = load_handle_lem b dir calls m e in
        elim (load_lem dirs (kind b) dir m) [
          | inl (nothing, unchanged) ↦ rw answer nothing
          | inr (text, worked, handle, strings) ↦ cc (rw answer at failed, worked)
        ]
  ]

  loads-Owned :
      (b : ℕ) (dir : Text) (calls : List Call) (m : Strings)
      → replay dirs kind calls ≡ some m
      → Owned (held (dummies dirs kind) calls) m
      → Owned (held (dummies dirs kind) (loads b dir ∷ calls)) (load_of_kind dirs (kind b) dir m).2
  unfolding Loaded
  loads-Owned b dir calls m e v =
      let answer = ap (λ (r : Bool × Option ℕ). r.1) (load_handle_lem b dir calls m e) in
      let had = held (dummies dirs kind) calls in
      let has = held (dummies dirs kind) (loads b dir ∷ calls) in
      elim (load_lem dirs (kind b) dir m) [
        | inl (nothing, unchanged) ↦
            subst (Owned has) (sym unchanged)
              (Owned-ext had has m (λ c a. counted c a none (answer ∙ nothing) ∙ omega arith) v)
        | inr (text, worked, handle, strings) ↦
            subst (Owned has) (sym strings) (
              allocate-Owned had has b text m (λ c a. counted c a (some m.next) (answer ∙ handle))
                v)
      ]
    where
      counted :
          (c a : ℕ) (r : Option ℕ)
          → ((dummies dirs kind).load_handle calls b dir).1 ≡ r
          → held (dummies dirs kind) (loads b dir ∷ calls) c a
            ≡ held (dummies dirs kind) calls c a + same c a b r
      counted c a r h = ap (λ (r : Option ℕ). held (dummies dirs kind) calls c a + same c a b r) h

  -- If each handle that is played or unloaded was handed out and not given back, the calls run with
  -- no dangling pointer, and the strings in memory are exactly those that were handed out and not
  -- given back.
  pub replay-Owned :
      (calls : List Call)
      → Clean (dummies dirs kind) calls
      → (m : Strings) × (replay dirs kind calls ≡ some m) × Owned (held (dummies dirs kind) calls) m
  unfolding replay
  replay-Owned [] clean = (no_strings, refl, none-Owned)
  replay-Owned (loads b dir ∷ calls) clean =
      let (m, e, v) = replay-Owned calls clean in
      ((load_of_kind dirs (kind b) dir m).2, rw (e, replay) refl, loads-Owned b dir calls m e v)
  replay-Owned (unloads b a ∷ calls) clean =
      let (m, e, v) = replay-Owned calls clean.1 in
      let (u, f, w) =
        free-Owned _ (held (dummies dirs kind) (unloads b a ∷ calls)) b a m clean.0 (λ c d. refl)
          v in
      (u, rw (e, replay) (unload_lem (kind b) a m ∙ f), w)
  replay-Owned (plays b a volume ∷ calls) clean =
      let (m, e, v) = replay-Owned calls clean.1 in
      let there = (v.live b a clean.0).1 in
      (m, rw (e, replay) (play_lem (kind b) a volume m there.0 there.1), v)
