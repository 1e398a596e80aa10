-- ===== src/Configuration/Restart.antt =====
-- The volumes that the daemon reads when it starts, and those that it has after a change.
use touch_feedback.Base.{
  ℕ, zero, suc, ◌≤◌, ◌<◌, ◌≡◌, refl, ◌∙◌, sym, ap, Bool, true, false, ◌&&◌, Option, none, some,
  List, [], ◌∷◌, arith, ◌==◌, if◌then◌else◌, length, get_or, set, contains, Option-cases, inl, inr,
}
use touch_feedback.Base.Int.{pos}
use touch_feedback.Base.Text.{Text, text_eq, last_section}
use touch_feedback.Base.Dict.{Dict, lookup, insert, lookup-insert}
use touch_feedback.Backend.{PlaybackVolume}
use touch_feedback.World.{Platform, World}
use touch_feedback.Configuration.{
  GConf, GConfEntry, GConfValue, string_value, other_value, max_volume_priority,
  feedback_volume_dir, volume_id_dir, to_volume, emit_volume_changed, read_entries,
  get_volumes_of_dir, get_volumes, set_volume,
}
use touch_feedback.Configuration.Volumes.{
  volume_key, priority_key, emit_volume_changed-volume_key, emit_volume_changed-priority_key,
}

-- The text that an entry holds for a backend, whose name is the last part of the key.
abbrev entry_text : Option GConfEntry → Text → Option Text
entry_text none backend = none
entry_text (some entry) backend = elim entry.value [
  | none ↦ none
  | some (string_value t) ↦ if text_eq (last_section b'/' entry.key) backend then some t else none
  | some other_value ↦ none
]

abbrev or_else {ℓ} : {A : Type ℓ} → Option A → Option A → Option A
or_else none o = o
or_else (some x) o = some x

-- The text that the entries of a directory hold for a backend: the last one, if there are several.
abbrev pub text_in : List (Option GConfEntry) → Text → Option Text
text_in [] backend = none
text_in (e ∷ entries) backend = or_else (text_in entries backend) (entry_text e backend)

or_else-none {ℓ} : {A : Type ℓ} (o : Option A) → or_else o none ≡ o
or_else-none none = refl
or_else-none (some x) = refl

abbrev pub entries_of : GConf → Text → List (Option GConfEntry)
entries_of g dir = elim (g.all_entries dir) [ none ↦ [] | some entries ↦ entries ]

-- A volume that is set in one of the maps.
lookup-set :
    (maps : List (Dict PlaybackVolume)) (n m : ℕ) (backend c : Text) (v : PlaybackVolume)
    → n < length maps
    → lookup c (get_or (set maps n (insert backend v (get_or maps n []))) m [])
      ≡ (if m == n && text_eq backend c then some v else lookup c (get_or maps m []))
lookup-set [] n m backend c v lt = absurd (omega arith)
lookup-set (d ∷ maps) zero zero backend c v lt = lookup-insert backend c v d
lookup-set (d ∷ maps) zero (suc m) backend c v lt = ground arith
lookup-set (d ∷ maps) (suc n) zero backend c v lt = ground arith
lookup-set (d ∷ maps) (suc n) (suc m) backend c v lt =
    lookup-set maps n m backend c v (omega arith) ∙ ground arith

module _ (p : Platform) where
  abbrev pub volume_dir : ℕ → Text
  volume_dir zero = feedback_volume_dir
  volume_dir (suc n) = volume_id_dir p (suc n)

  abbrev pub key_of : ℕ → Text → Text
  key_of zero backend = volume_key p backend
  key_of (suc n) backend = priority_key p (suc n) backend

  -- The text that GConf holds for a backend and a priority.
  abbrev pub text_of : GConf → ℕ → Text → Option Text
  text_of g n backend = text_in (entries_of g (volume_dir n)) backend

  abbrev volume_of_text : Option Text → Option PlaybackVolume
  volume_of_text none = none
  volume_of_text (some t) = some (to_volume p t).0

  by_name :
      (b : Bool) (t : Text) (o : Option PlaybackVolume)
      → (if b then some (to_volume p t).0 else o)
        ≡ or_else (volume_of_text (if b then some t else none)) o
  by_name true t o = refl
  by_name false t o = refl

  -- An entry that is read before the others.
  later :
      (entries : List (Option GConfEntry)) (backend : Text) (text : Option Text)
      (d d' : Dict PlaybackVolume)
      → lookup backend (read_entries p entries d')
        ≡ or_else (volume_of_text (text_in entries backend)) (lookup backend d')
      → lookup backend d' ≡ or_else (volume_of_text text) (lookup backend d)
      → lookup backend (read_entries p entries d')
        ≡ or_else (volume_of_text (or_else (text_in entries backend) text)) (lookup backend d)
  later entries backend text d d' rest here = ground (arith, rest, here)

  lookup-read_entries :
      (entries : List (Option GConfEntry)) (backend : Text) (d : Dict PlaybackVolume)
      → lookup backend (read_entries p entries d)
        ≡ or_else (volume_of_text (text_in entries backend)) (lookup backend d)
  unfolding read_entries
  lookup-read_entries [] backend d = refl
  lookup-read_entries (none ∷ entries) backend d =
      later entries backend none d d (lookup-read_entries entries backend d) refl
  lookup-read_entries (some entry ∷ entries) backend d =
      from entry.value (λ d. lookup-read_entries entries backend d) refl
    where
      from :
          (v : Option GConfValue)
          → ((d : Dict PlaybackVolume)
              → lookup backend (read_entries p entries d)
                ≡ or_else (volume_of_text (text_in entries backend)) (lookup backend d))
          → entry.value ≡ v
          → lookup backend (read_entries p (some entry ∷ entries) d)
            ≡ or_else (volume_of_text (text_in (some entry ∷ entries) backend)) (lookup backend d)
      from none rest e = rw (e, read_entries) (later entries backend none d d (rest d) refl)
      from (some other_value) rest e =
          rw (e, read_entries) (later entries backend none d d (rest d) refl)
      from (some (string_value t)) rest e =
          let name = last_section b'/' entry.key in
          let d' = insert name (to_volume p t).0 d in
          rw (e, read_entries)
            (later entries backend (if text_eq name backend then some t else none) d d' (rest d') (
              lookup-insert name backend (to_volume p t).0 d
              ∙ by_name (text_eq name backend) t (lookup backend d)))

  lookup-get_volumes_of_dir :
      (g : GConf) (dir backend : Text)
      → lookup backend (get_volumes_of_dir p g dir)
        ≡ volume_of_text (text_in (entries_of g dir) backend)
  unfolding get_volumes_of_dir lookup
  lookup-get_volumes_of_dir g dir backend = elim (Option-cases (g.all_entries dir)) [
    | inl nothing ↦ rw (nothing, get_volumes_of_dir, entries_of) refl
    | inr (entries, e) ↦
        rw (e, get_volumes_of_dir, entries_of)
          (lookup-read_entries entries backend []
            ∙ or_else-none (volume_of_text (text_in entries backend)))
  ]

  -- What is read at the start is what GConf holds.
  lookup-get_volumes :
      (g : GConf) (n : ℕ) (backend : Text)
      → n ≤ max_volume_priority
      → lookup backend (get_or (get_volumes p (some g)) n []) ≡ volume_of_text (text_of g n backend)
  unfolding get_volumes get_volumes_of_dir lookup
  lookup-get_volumes g zero backend le = lookup-get_volumes_of_dir g feedback_volume_dir backend
  lookup-get_volumes g (suc zero) backend le =
      lookup-get_volumes_of_dir g (volume_id_dir p 1) backend
  lookup-get_volumes g (suc (suc zero)) backend le =
      lookup-get_volumes_of_dir g (volume_id_dir p 2) backend
  lookup-get_volumes g (suc (suc (suc n))) backend le = absurd (omega arith)

  -- The key of a backend's volume is read back, for the priority 0 too.
  emit_volume_changed-key_of :
      (n : ℕ) (backend text : Text)
      → n ≤ max_volume_priority
      → p.to_int (p.number n) ≡ some (pos n)
      → contains b'/' (p.number n) ≡ false
      → contains b'/' backend ≡ false
      → emit_volume_changed p (key_of n backend) text ≡ some (n, backend, (to_volume p text).0)
  emit_volume_changed-key_of zero backend text le num clean h =
      emit_volume_changed-volume_key p backend text h
  emit_volume_changed-key_of (suc n) backend text le num clean h =
      emit_volume_changed-priority_key p (suc n) backend text le num clean h

  length-get_volumes : (g : GConf) → length (get_volumes p (some g)) ≡ suc max_volume_priority
  unfolding get_volumes
  length-get_volumes g = refl

  by_change :
      (b : Bool) (t : Text) (o : Option Text)
      → (if b then some (to_volume p t).0 else volume_of_text o)
        ≡ volume_of_text (if b then some t else o)
  by_change true t o = refl
  by_change false t o = refl

  -- GConf has changed in one key, as far as the daemon reads it.
  abbrev pub Changed : GConf → GConf → ℕ → Text → Text → Type 0
  Changed g g' n backend text =
      (m : ℕ) (c : Text)
      → m ≤ max_volume_priority
      → text_of g' m c ≡ (if m == n && text_eq backend c then some text else text_of g m c)

  -- The change of a backend's volume for a priority of at most 2 while the daemon runs, and its start
  -- after the change, give the same volumes for all priorities and backends: the volumes that were
  -- read before, changed by the signal, are those that are read after. The priority's decimal text
  -- holds no slash and reads back as the same number.
  pub set_volume-get_volumes :
      (g g' : GConf) (n : ℕ) (backend text : Text) (w : World)
      → n ≤ max_volume_priority
      → p.to_int (p.number n) ≡ some (pos n)
      → contains b'/' (p.number n) ≡ false
      → contains b'/' backend ≡ false
      → Changed g g' n backend text
      → w.backend_volumes ≡ get_volumes p (some g)
      → (v : PlaybackVolume) × (w' : World) × (emit_volume_changed p (key_of n backend) text
          ≡ some (n, backend, v))
        × (set_volume (pos n) backend v w ≡ some w')
        × ((m : ℕ) (c : Text)
            → m ≤ max_volume_priority
            → lookup c (get_or w'.backend_volumes m [])
              ≡ lookup c (get_or (get_volumes p (some g')) m []))
  unfolding set_volume
  set_volume-get_volumes g g' n backend text w le num clean h changed e =
      let v = (to_volume p text).0 in
      let maps = w.backend_volumes in
      let lt : n < length maps = omega (arith, ap length e, length-get_volumes g) in
      (
        v,
        record w { backend_volumes = set maps n (insert backend v (get_or maps n [])) },
        emit_volume_changed-key_of n backend text le num clean h,
        ground (arith, lt),
        λ m c below.
            lookup-set maps n m backend c v lt
            ∙ ap (λ (o : Option PlaybackVolume). if m == n && text_eq backend c then some v else o)
                (ap (λ (l : List (Dict PlaybackVolume)). lookup c (get_or l m [])) e
                  ∙ lookup-get_volumes g m c below)
            ∙ by_change (m == n && text_eq backend c) text (text_of g m c)
            ∙ ap volume_of_text (sym (changed m c below))
            ∙ sym (lookup-get_volumes g' m c below),
      )
