-- ===== src/Configuration/Volumes.antt =====
-- From a volume key in GConf to the volume that a feedback is played with.
use touch_feedback.Base.{
  ℕ, zero, suc, ◌≤◌, ◌<◌, ◌≡◌, refl, ◌∙◌, ap, false, some, List, [], ◌∷◌, ◌++◌, arith, length,
  get_elem?, get_or, set, contains,
}
use touch_feedback.Base.Int.{ℤ, pos}
use touch_feedback.Base.Text.{Text, text_eq_refl, split, split_parts, split_absent, split-one}
use touch_feedback.Base.Dict.{Dict, insert, lookup-insert}
use touch_feedback.Backend.{PlaybackVolume}
use touch_feedback.World.{Platform, World}
use touch_feedback.Feedback.{volume_priority_prefix, volume_at}
use touch_feedback.Configuration.{
  max_volume_priority, key_path_start, to_volume, volume_target, volume_signal, priority_number,
  emit_volume_changed, set_volume,
}

module _ (p : Platform) where
  -- The key of a backend's volume, and that of its volume for a priority.
  abbrev pub volume_key : Text → Text
  volume_key backend = key_path_start ++ backend

  abbrev pub priority_key : ℕ → Text → Text
  priority_key n backend =
      key_path_start ++ (volume_priority_prefix ++ p.number n) ++ b'/' ∷ backend

  emit-key_path_start :
      (rest text : Text)
      → emit_volume_changed p (key_path_start ++ rest) text
        ≡ volume_signal p
            (volume_target p (split b'/' rest)).0
            (volume_target p (split b'/' rest)).1
            (to_volume p text)
  unfolding emit_volume_changed
  emit-key_path_start rest text = refl

  -- A text that is no volume gives the medium one.
  volume_signal-to_volume :
      (n : ℕ) (backend text : Text)
      → volume_signal p (pos n) backend (to_volume p text) ≡ some (n, backend, (to_volume p text).0)
  unfolding to_volume
  volume_signal-to_volume n backend text = ground arith

  -- A change of a backend's key is reported for the volume id 0 and that backend, with the volume
  -- that the text names, or the medium one if it names none.
  pub emit_volume_changed-volume_key :
      (backend text : Text)
      → contains b'/' backend ≡ false
      → emit_volume_changed p (volume_key backend) text ≡ some (0, backend, (to_volume p text).0)
  unfolding split volume_target
  emit_volume_changed-volume_key backend text h =
      emit-key_path_start backend text
      ∙ rw (split_absent b'/' backend h) (volume_signal-to_volume 0 backend text)

  -- The number of a priority that a name gives.
  priority_number-prefix :
      (n : ℕ) (t : Text)
      → n ≤ max_volume_priority
      → p.to_int t ≡ some (pos n)
      → priority_number p (volume_priority_prefix ++ t) ≡ pos n
  unfolding priority_number
  priority_number-prefix n t le num = rw num (ground arith)

  prefix-contains :
      (t : Text) → contains b'/' t ≡ false → contains b'/' (volume_priority_prefix ++ t) ≡ false
  prefix-contains t h = h

  volume_target-split :
      (rest part backend : Text)
      → split_parts b'/' rest ≡ (part, backend ∷ [])
      → volume_target p (split b'/' rest) ≡ (priority_number p part, backend)
  unfolding split volume_target
  volume_target-split rest part backend e = rw e

  -- A change of a backend's key for a priority of at most 2 is reported for that priority as the
  -- volume id, if the priority's decimal text holds no slash and reads back as the same number.
  pub emit_volume_changed-priority_key :
      (n : ℕ) (backend text : Text)
      → n ≤ max_volume_priority
      → p.to_int (p.number n) ≡ some (pos n)
      → contains b'/' (p.number n) ≡ false
      → contains b'/' backend ≡ false
      → emit_volume_changed p (priority_key n backend) text
        ≡ some (n, backend, (to_volume p text).0)
  emit_volume_changed-priority_key n backend text le num clean h =
      let part = volume_priority_prefix ++ p.number n in
      let rest = part ++ b'/' ∷ backend in
      let target =
        volume_target-split rest part backend
          (split-one b'/' part backend (prefix-contains (p.number n) clean) h) in
      emit-key_path_start rest text
      ∙ ap (λ (t : ℤ × Text). volume_signal p t.0 t.1 (to_volume p text)) target
      ∙ ap (λ (z : ℤ). volume_signal p z backend (to_volume p text))
          (priority_number-prefix n (p.number n) le num)
      ∙ volume_signal-to_volume n backend text

get_elem?-set_self :
    (xs : List (Dict PlaybackVolume)) (i : ℕ) (v : Dict PlaybackVolume)
    → i < length xs
    → get_elem? (set xs i v) i ≡ some v
get_elem?-set_self [] i v h = elim h [ ]
get_elem?-set_self (x ∷ xs) zero v h = refl
get_elem?-set_self (x ∷ xs) (suc i) v h = get_elem?-set_self xs i v (omega arith)

-- The state after `setVolume`.
abbrev with_volume : ℕ → Text → PlaybackVolume → World → World
with_volume n name v w = record w {
  backend_volumes = set w.backend_volumes n (insert name v (get_or w.backend_volumes n []));
}

module _ (p : Platform) where
  -- A volume that is set for a priority in the list's range is the one that a feedback of this
  -- priority is then played with on the backend of that name.
  pub volume_at-set_volume :
      (n i b : ℕ) (v : PlaybackVolume) (w w' : World)
      → n < length w.backend_volumes
      → get_elem? w.backend_list i ≡ some b
      → set_volume (pos n) (p.name b) v w ≡ some w'
      → volume_at p (pos n) i w' ≡ some v
  unfolding set_volume volume_at
  volume_at-set_volume n i b v w w' lt at e = ground (
    arith,
    get_elem?-set_self w.backend_volumes n (insert (p.name b) v (get_or w.backend_volumes n [])) lt,
    lookup-insert (p.name b) (p.name b) v (get_or w.backend_volumes n []),
    text_eq_refl (p.name b),
  )
