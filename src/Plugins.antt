-- ===== src/Plugins.antt =====
-- The parts of src/lib/mfmanager.cpp that load the plugins and take the manager up and down, and
-- its slots. `backendVolumes`, `backendList`, the theme and the cache stand in `World`.
pub mod Lists
pub mod Shutdown
pub mod Instance
use touch_feedback.Base.{
  ℕ, ◌-◌, ◌≤◌, Bool, true, false, not, ◌&&◌, Option, none, some, List, [], ◌∷◌, ◌++◌, ◌==◌, leb,
  ltb, if◌then◌else◌, is_empty, length, contains,
}
use touch_feedback.Base.Text.{Text, codes, starts_with, ends_with, contains_text}
use touch_feedback.Base.Dict.{Dict}
use touch_feedback.Backend.{PlaybackVolume, Connector, connecting_slot, cleanup}
use touch_feedback.World.{Platform, World}
use touch_feedback.Cache.{delete_cache, unload_handles_for_a_backend}

-- What the plugin directories hold: the files of a directory in the order of `entryList`, the object
-- that a file's loader instantiates, what it can be cast to, and the `init` of a source.
pub record PluginFiles : Type 0 where
  pub lib_dir_exists : Text → Bool
  pub entry_list : Text → List Text
  pub instance_of : Text → Option ℕ
  pub is_backend_base : ℕ → Bool
  pub is_source_base : ℕ → Bool
  pub source_init : ℕ → Bool

-- The loaders are kept by the path of their file.
pub record Manager : Type 0 where
  pub world : World
  pub open world use *
  pub source_list : List ℕ
  pub backend_loader_list : List Text
  pub source_loader_list : List Text

abbrev pub plugin_prefix : Text
plugin_prefix = codes "libmeegofeedback-"

abbrev pub plugin_suffix : Text
plugin_suffix = codes ".so"

abbrev pub lib_dir_prefix : Text
lib_dir_prefix = codes "/usr/lib/meegofeedbackd"

abbrev pub threaded_backends_dir : Text
threaded_backends_dir = codes "/threaded-backends"

abbrev pub non_threaded_backends_dir : Text
non_threaded_backends_dir = codes "/non-threaded-backends"

abbrev pub sources_dir : Text
sources_dir = codes "/sources"

abbrev pub max_threaded_backend_count : ℕ
max_threaded_backend_count = 2

-- `dir.filePath(fileName)`
abbrev pub file_path : Text → Text → Text
file_path dir name = dir ++ b'/' ∷ name

abbrev schedule_attempt : ℕ → (ℕ → Connector) → ℕ → Connector
schedule_attempt b connectors c = if b == c then connecting_slot (connectors c) else connectors c

-- A backend whose tests have passed: its first attempt to connect is scheduled, and it is listed.
unfoldable pub add_backend : ℕ → Text → Manager → Manager
unfolding connecting_slot
add_backend b path m = record m {
  world = record m.world {
    backend_list = m.world.backend_list ++ b ∷ [];
    connector = schedule_attempt b m.world.connector;
  };
  backend_loader_list = m.backend_loader_list ++ path ∷ [];
}

-- What `init` leaves: the manager, the pool's maximum, and who was told the device state, in
-- order. It fails if there is no backend.
pub record Started : Type 0 where
  pub manager : Manager
  pub max_threads : ℕ
  pub told_sources : List ℕ
  pub told_backends : List ℕ
  pub ok : Bool

module _ (p : Platform) (files : PluginFiles) where
  -- One round of the loop of `loadBackendPlugins`. A file that fails a test leaves no trace.
  unfoldable pub load_backend_plugin : Text → Text → Manager → Manager
  unfolding add_backend
  load_backend_plugin dir name m =
      if contains_text name plugin_prefix && ends_with name plugin_suffix
      then (elim (files.instance_of (file_path dir name)) [
        | none ↦ m
        | some b ↦
            if not (files.is_backend_base b)
            then m
            else if not (p.detect_hardware b)
            then m
            else if contains b m.world.backend_list
            then m
            else add_backend b (file_path dir name) m
      ])
      else m

  unfoldable pub load_backend_files : Text → List Text → Manager → Manager
  unfolding load_backend_plugin
  load_backend_files dir [] m = m
  load_backend_files dir (name ∷ names) m =
      load_backend_files dir names (load_backend_plugin dir name m)

  unfoldable pub load_backend_plugins : Text → Manager → Manager
  unfolding load_backend_files
  load_backend_plugins dir m =
      if files.lib_dir_exists dir then load_backend_files dir (files.entry_list dir) m else m

  -- One round of the loop of `loadSourcePlugins`.
  unfoldable pub load_source_plugin : Text → Text → Manager → Manager
  load_source_plugin dir name m =
      if starts_with name plugin_prefix && ends_with name plugin_suffix
      then (elim (files.instance_of (file_path dir name)) [
        | none ↦ m
        | some s ↦
            if not (files.is_source_base s)
            then m
            else if contains s m.source_list
            then m
            else if not (files.source_init s)
            then m
            else record m {
              source_list = m.source_list ++ s ∷ [];
              source_loader_list = m.source_loader_list ++ file_path dir name ∷ [];
            }
      ])
      else m

  unfoldable pub load_source_files : Text → List Text → Manager → Manager
  unfolding load_source_plugin
  load_source_files dir [] m = m
  load_source_files dir (name ∷ names) m =
      load_source_files dir names (load_source_plugin dir name m)

  unfoldable pub load_source_plugins : Text → Manager → Manager
  unfolding load_source_files
  load_source_plugins dir m =
      if files.lib_dir_exists dir then load_source_files dir (files.entry_list dir) m else m

  -- `qBound(0, backends - nonThreaded, maxThreadedBackendCount)`; the pool's maximum only grows.
  unfoldable pub thread_count : ℕ → ℕ → ℕ → ℕ
  thread_count backends non_threaded max_thread_count =
      let threaded = backends - non_threaded in
      let target =
        if leb threaded max_threaded_backend_count then threaded else max_threaded_backend_count in
      if ltb max_thread_count target then target else max_thread_count

  -- Both backend directories.
  unfoldable pub load_all_backends : Manager → Manager
  unfolding load_backend_plugins
  load_all_backends m =
      let m1 = load_backend_plugins (lib_dir_prefix ++ non_threaded_backends_dir) m in
      let m2 : Manager = record m1 {
        world = record m1.world { non_threaded_backend_count = length m1.world.backend_list };
      } in
      load_backend_plugins (lib_dir_prefix ++ threaded_backends_dir) m2

  unfoldable pub init_manager : Text → List (Dict PlaybackVolume) → ℕ → Manager → Started
  init_manager theme volumes max_thread_count m =
      let m1 =
        load_all_backends (record m { world = record m.world { current_theme_name = theme } }) in
      let m2 = load_source_plugins (lib_dir_prefix ++ sources_dir) m1 in
      if is_empty m1.world.backend_list
      then record {
        manager = m1;
        max_threads = max_thread_count;
        told_sources = [];
        told_backends = [];
        ok = false;
      }
      else record {
        manager = record m2 { world = record m2.world { backend_volumes = volumes } };
        max_threads =
            thread_count (length m2.world.backend_list) m2.world.non_threaded_backend_count
              max_thread_count;
        told_sources = m2.source_list;
        told_backends = m2.world.backend_list;
        ok = true;
      }

-- The loop of the destructor over the backends: as many rounds as there are loaders. `none` is an
-- access out of the backend list's range.
unfoldable pub clean_up_backends : List Text → List ℕ → (ℕ → Connector) → Option (ℕ → Connector)
unfolding cleanup
clean_up_backends [] backends connectors = some connectors
clean_up_backends (path ∷ paths) [] connectors = none
clean_up_backends (path ∷ paths) (b ∷ backends) connectors =
    clean_up_backends paths backends (λ c. if b == c then cleanup (connectors c) else connectors c)

-- The destructor.
unfoldable pub destroy_manager : Manager → Option Manager
unfolding clean_up_backends delete_cache
destroy_manager m =
    let w = delete_cache m.world in
    elim (clean_up_backends m.backend_loader_list w.backend_list w.connector) [
      | none ↦ none
      | some connectors ↦ some (record {
        world = record w { backend_list = []; connector = connectors };
        source_list = [];
        backend_loader_list = m.backend_loader_list;
        source_loader_list = m.source_loader_list;
      })
    ]

-- The slots: the state, and the theme of the signal `themeChanged` if it is emitted.
-- `loadTheme`
unfoldable pub load_theme : Text → World → World × Option Text
load_theme theme_name w = (record w { current_theme_name = theme_name }, some theme_name)

-- `loadHandlesForABackend`; a null sender is `none`.
unfoldable pub load_handles_for_a_backend : Option ℕ → World → World × Option Text
load_handles_for_a_backend none w = (w, none)
load_handles_for_a_backend (some b) w = (w, some w.current_theme_name)

-- `backendConnected`
unfoldable pub backend_connected : Option ℕ → World → World × Option Text
unfolding load_handles_for_a_backend
backend_connected none w = (w, none)
backend_connected (some b) w = load_handles_for_a_backend (some b) w

-- `backendDisconnected`
unfoldable pub backend_disconnected : Option ℕ → World → World
backend_disconnected none w = w
backend_disconnected (some b) w = unload_handles_for_a_backend b w
