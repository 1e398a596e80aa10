-- ===== src/Plugins/Shutdown.antt =====
-- The destructor of MfManager: the cache is deleted and the backends are cleaned up.
use touch_feedback.Base.{
  ℕ, ◌≡◌, refl, ◌∙◌, none, some, List, [], ◌∷◌, arith, ◌==◌, if◌then◌else◌, length, contains,
  Option-cases, inl, inr,
}
use touch_feedback.Base.Text.{Text}
use touch_feedback.Base.Dict.{Dict}
use touch_feedback.Backend.{Connector, cleanup}
use touch_feedback.World.{Platform, World}
use touch_feedback.Handle.{delete}
use touch_feedback.Cache.{delete_entries, delete_cache, handle_key}
use touch_feedback.Cache.Invariant
use touch_feedback.Cache.Unloading.{listed, lookup-listed}
use touch_feedback.Plugins.{Manager, clean_up_backends, destroy_manager}
use touch_feedback.Plugins.Lists

abbrev pub cleaned : List ℕ → (ℕ → Connector) → ℕ → Connector
cleaned backends connectors c = if contains c backends then cleanup (connectors c) else connectors c

clean_up_backends_lem :
    (paths : List Text) (backends : List ℕ) (connectors : ℕ → Connector)
    → length paths ≡ length backends
    → (f : ℕ → Connector) × (clean_up_backends paths backends connectors ≡ some f)
      × ((c : ℕ) → f c ≡ cleaned backends connectors c)
unfolding clean_up_backends cleanup
clean_up_backends_lem [] [] connectors h = (connectors, refl, λ c. refl)
clean_up_backends_lem [] (b ∷ backends) connectors h = absurd (omega arith)
clean_up_backends_lem (path ∷ paths) [] connectors h = absurd (omega arith)
clean_up_backends_lem (path ∷ paths) (b ∷ backends) connectors h =
    let first : ℕ → Connector = λ c. if b == c then cleanup (connectors c) else connectors c in
    let rest = clean_up_backends_lem paths backends first (omega arith) in
    (rest.0, rest.1, λ c. ground (arith, rest.2 c))

object-delete_entries :
    (es : Dict ℕ) (w : World) (q : ℕ)
    → (delete_entries es w).object q ≡ (if listed q es then none else w.object q)
unfolding delete_entries delete
object-delete_entries [] w q = refl
object-delete_entries ((k, o) ∷ es) w q = ground (arith, object-delete_entries es (delete o w) q)

delete_entries_frame :
    (es : Dict ℕ) (w : World)
    → ((delete_entries es w).backend_list ≡ w.backend_list)
      × ((delete_entries es w).connector ≡ w.connector)
unfolding delete_entries delete
delete_entries_frame [] w = (refl, refl)
delete_entries_frame ((k, o) ∷ es) w = ground (arith, delete_entries_frame es (delete o w))

module _ (p : Platform) where
  pub delete_cache-none_left :
      (w : World) (r : ℕ → ℕ) (q : ℕ) → Invariant.Inv p w r → (delete_cache w).object q ≡ none
  unfolding delete_cache
  delete_cache-none_left w r q v = elim (Option-cases (w.object q)) [
    | inl e ↦ ground (arith, e, object-delete_entries w.feedback_handle_hash w q)
    | inr (h, e) ↦ ground (
      arith,
      object-delete_entries w.feedback_handle_hash w q,
      lookup-listed w.feedback_handle_hash (handle_key p w.backend_list h) q (v.cached q h e),
    )
  ]

  -- Where the manager's lists agree and the cache's invariant holds, the destructor reads no list
  -- out of its range. It leaves no handle at any address, an empty cache and no backend in the list,
  -- and every backend that was listed, and no other, is cleaned up: its timer is stopped and no
  -- attempt is under way.
  pub destroy_manager-none_left :
      (m : Manager) (r : ℕ → ℕ)
      → Lists.Inv m
      → Invariant.Inv p m.world r
      → (n : Manager) × (destroy_manager m ≡ some n)
        × ((o : ℕ) → n.world.object o ≡ none)
        × (n.world.feedback_handle_hash ≡ [])
        × (n.world.backend_list ≡ [])
        × ((c : ℕ) → n.world.connector c ≡ cleaned m.world.backend_list m.world.connector c)
  unfolding destroy_manager delete_cache
  destroy_manager-none_left m r lists v =
      let w = delete_cache m.world in
      let frame = delete_entries_frame m.world.feedback_handle_hash m.world in
      let up =
        clean_up_backends_lem m.backend_loader_list w.backend_list w.connector
          (ground (arith, frame.0, lists.backend_loaders)) in
      (
        record {
          world = record w { backend_list = []; connector = up.0 };
          source_list = [];
          backend_loader_list = m.backend_loader_list;
          source_loader_list = m.source_loader_list;
        },
        rw (up.1, destroy_manager) refl,
        (λ o. delete_cache-none_left m.world r o v),
        refl,
        refl,
        (λ c. up.2 c ∙ (λ i. cleaned (frame.0 i) (frame.1 i) c)),
      )
