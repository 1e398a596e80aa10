-- ===== src/Plugins/Instance.antt =====
-- The one instance of the manager: the constructor, the destructor and `instance` of
-- src/lib/mfmanager.cpp. A manager is its address; what else the destructor does is in Plugins.antt.
use touch_feedback.Base.{
  ℕ, ◌≡◌, refl, Bool, true, false, Option, none, some, arith, ◌==◌, if◌then◌else◌,
}

pub record Managers : Type 0 where
  pub g_instance : Option ℕ
  pub alive : ℕ → Bool

unfoldable pub initial_managers : Managers
initial_managers = record { g_instance = none; alive = λ o. false }

-- The part of the destructor that concerns the instance.
unfoldable pub delete_manager : ℕ → Managers → Managers
delete_manager o s = record { g_instance = none; alive = λ q. if o == q then false else s.alive q }

-- The constructor: a manager that is there already is deleted.
unfoldable pub new_manager : ℕ → Managers → Managers
unfolding delete_manager
new_manager o s =
    let s' : Managers = elim s.g_instance [ none ↦ s | some old ↦ delete_manager old s ] in
    record { g_instance = some o; alive = λ q. if o == q then true else s'.alive q }

abbrev is_instance : Option ℕ → ℕ → Bool
is_instance none q = false
is_instance (some o) q = o == q

-- A manager is created, or one that is there is deleted.
pub data Step (s t : Managers) : Type 0 where
  creates : (o : ℕ) → t ≡ new_manager o s → Step s t
  deletes : (o : ℕ) → s.alive o ≡ true → t ≡ delete_manager o s → Step s t

pub data Reach : Managers → Type 0 where
  start : Reach initial_managers
  next : (s t : Managers) → Reach s → Step s t → Reach t

-- However managers are created and deleted, exactly the one that `instance` returns is there: never
-- are there two, and `instance` is null exactly if there is none.
Reach-alive : (s : Managers) → Reach s → (q : ℕ) → s.alive q ≡ is_instance s.g_instance q
unfolding initial_managers new_manager delete_manager
Reach-alive s start q = refl
Reach-alive t (next s _ r (creates o e)) q = rw e (ground (arith, Reach-alive s r q))
Reach-alive t (next s _ r (deletes o there e)) q =
    rw e (ground (arith, Reach-alive s r q, Reach-alive s r o, there))
