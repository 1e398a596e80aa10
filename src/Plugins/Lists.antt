-- ===== src/Plugins/Lists.antt =====
-- What loading leaves in the manager's lists of backends, sources and loaders.
use touch_feedback.Base.{
  ℕ, ◌+◌, ◌≤◌, ◌≡◌, refl, ◌∙◌, ◌↔◌, false, List, [], ◌∷◌, ◌++◌, arith, length, length-append,
  Distinct, contains,
}
use touch_feedback.Base.Text.{Text, contains-append}
use touch_feedback.Base.Dict.{Dict}
use touch_feedback.Backend.{PlaybackVolume}
use touch_feedback.World.{Platform}
use touch_feedback.Plugins.{
  PluginFiles, Manager, load_backend_plugin, load_backend_files, load_backend_plugins,
  load_source_plugin, load_source_files, load_source_plugins, load_all_backends, init_manager,
  thread_count, lib_dir_prefix, sources_dir,
}

Distinct-append :
    (xs : List ℕ) (x : ℕ) → Distinct xs → contains x xs ≡ false → Distinct (xs ++ x ∷ [])
Distinct-append [] x d h = (refl, tt)
Distinct-append (y ∷ xs) x d h =
    ground (arith, Distinct-append xs x d.1, contains-append y xs (x ∷ []))

-- One loader for each backend and each source, none of them twice, and no more backends without a
-- thread than backends.
pub record Inv (m : Manager) : Type 0 where
  pub backends : Distinct m.world.backend_list
  pub sources : Distinct m.source_list
  pub backend_loaders : length m.backend_loader_list ≡ length m.world.backend_list
  pub source_loaders : length m.source_loader_list ≡ length m.source_list
  pub non_threaded : m.world.non_threaded_backend_count ≤ length m.world.backend_list

module _ (p : Platform) (files : PluginFiles) where
  load_backend_plugin-Inv :
      (dir name : Text) (m : Manager) → Inv m → Inv (load_backend_plugin p files dir name m)
  unfolding load_backend_plugin
  load_backend_plugin-Inv dir name m v = grind (arith, Distinct-append, length-append)

  load_source_plugin-Inv :
      (dir name : Text) (m : Manager) → Inv m → Inv (load_source_plugin p files dir name m)
  unfolding load_source_plugin
  load_source_plugin-Inv dir name m v = grind (arith, Distinct-append, length-append)

  load_backend_files-Inv :
      (dir : Text) (names : List Text) (m : Manager)
      → Inv m
      → Inv (load_backend_files p files dir names m)
  unfolding load_backend_files
  load_backend_files-Inv dir [] m v = v
  load_backend_files-Inv dir (name ∷ names) m v =
      load_backend_files-Inv dir names (load_backend_plugin p files dir name m)
        (load_backend_plugin-Inv dir name m v)

  load_source_files-Inv :
      (dir : Text) (names : List Text) (m : Manager)
      → Inv m
      → Inv (load_source_files p files dir names m)
  unfolding load_source_files
  load_source_files-Inv dir [] m v = v
  load_source_files-Inv dir (name ∷ names) m v =
      load_source_files-Inv dir names (load_source_plugin p files dir name m)
        (load_source_plugin-Inv dir name m v)

  load_backend_plugins-Inv :
      (dir : Text) (m : Manager) → Inv m → Inv (load_backend_plugins p files dir m)
  unfolding load_backend_plugins
  load_backend_plugins-Inv dir m v =
      ground (arith, load_backend_files-Inv dir (files.entry_list dir) m v)

  load_source_plugins-Inv :
      (dir : Text) (m : Manager) → Inv m → Inv (load_source_plugins p files dir m)
  unfolding load_source_plugins
  load_source_plugins-Inv dir m v =
      ground (arith, load_source_files-Inv dir (files.entry_list dir) m v)

  counted-Inv :
      (m : Manager)
      → Inv m
      → Inv (record m {
        world = record m.world { non_threaded_backend_count = length m.world.backend_list };
      })
  counted-Inv m v = ground arith

  load_all_backends-Inv : (m : Manager) → Inv m → Inv (load_all_backends p files m)
  unfolding load_all_backends
  load_all_backends-Inv m v =
      load_backend_plugins-Inv _ _ (counted-Inv _ (load_backend_plugins-Inv _ m v))

  load_source_plugin-world :
      (dir name : Text) (m : Manager) → (load_source_plugin p files dir name m).world ≡ m.world
  unfolding load_source_plugin
  load_source_plugin-world dir name m = ground arith

  load_source_files-world :
      (dir : Text) (names : List Text) (m : Manager)
      → (load_source_files p files dir names m).world ≡ m.world
  unfolding load_source_files
  load_source_files-world dir [] m = refl
  load_source_files-world dir (name ∷ names) m =
      load_source_files-world dir names (load_source_plugin p files dir name m)
      ∙ load_source_plugin-world dir name m

  load_source_plugins-world :
      (dir : Text) (m : Manager) → (load_source_plugins p files dir m).world ≡ m.world
  unfolding load_source_plugins
  load_source_plugins-world dir m =
      ground (arith, load_source_files-world dir (files.entry_list dir) m)

  thread_count_bounds :
      (backends non_threaded max_thread_count : ℕ)
      → (max_thread_count ≤ thread_count p files backends non_threaded max_thread_count)
        × (thread_count p files backends non_threaded max_thread_count ≤ max_thread_count + 2)
  unfolding thread_count
  thread_count_bounds backends non_threaded max_thread_count = ground arith

  -- From a manager whose lists agree, `init` leaves one in which no backend and no source is
  -- listed twice, each has one loader, and the backends without a thread are among the backends.
  -- It fails exactly if there is no backend, and the pool of threads does not shrink.
  pub init_manager-Inv :
      (theme : Text) (volumes : List (Dict PlaybackVolume)) (max_thread_count : ℕ) (m : Manager)
      → Inv m
      → Inv (init_manager p files theme volumes max_thread_count m).manager
        × (((init_manager p files theme volumes max_thread_count m).ok ≡ false) ↔ (
            (init_manager p files theme volumes max_thread_count m).manager.world.backend_list
            ≡ []))
        × (max_thread_count ≤ (init_manager p files theme volumes max_thread_count m).max_threads)
  unfolding init_manager
  init_manager-Inv theme volumes max_thread_count m v =
      let m0 : Manager = record m { world = record m.world { current_theme_name = theme } } in
      let m1 = load_all_backends p files m0 in
      let v1 = load_all_backends-Inv m0 (ground arith) in
      let dir = lib_dir_prefix ++ sources_dir in
      let v2 = load_source_plugins-Inv dir m1 v1 in
      let same = load_source_plugins-world dir m1 in
      ground (
        arith,
        v1,
        v2,
        same,
        thread_count_bounds (length (load_source_plugins p files dir m1).world.backend_list)
            (load_source_plugins p files dir m1).world.non_threaded_backend_count max_thread_count,
      )
