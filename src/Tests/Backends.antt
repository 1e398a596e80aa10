-- ===== src/Tests/Backends.antt =====
-- The theorems on the backends' connections, the volumes, the plugins and the sessions' setups at
-- concrete inputs.
use touch_feedback.Base.{
  ℕ, ◌≤◌, ◌+◌, ◌≡◌, refl, ◌↔◌, true, false, Option, some, [], ◌∷◌, arith, ◌==◌, if◌then◌else◌,
  length,
}
use touch_feedback.Base.Int.{pos}
use touch_feedback.Base.Text.{codes}
use touch_feedback.Backend.{
  Connector, connected, disconnected, new_connector, connecting, connection_done, try_connect,
  volume_low,
}
use touch_feedback.Backend.Schedule.{wait, Grows, failed_rounds, failed_rounds-Grows}
use touch_feedback.Backend.Reconnect.{
  lost, Reach, here, next, Inv, Reach-Inv, Runs, is_active, Reach-recovers,
}
use touch_feedback.Base.Dict.{insert}
use touch_feedback.World.{World}
use touch_feedback.Theme.{done}
use touch_feedback.Feedback.{volume_at}
use touch_feedback.Configuration.{emit_volume_changed, to_volume, set_volume}
use touch_feedback.Configuration.Volumes.{
  priority_key, emit_volume_changed-priority_key, volume_at-set_volume,
}
use touch_feedback.Plugins.{PluginFiles, Manager, init_manager}
use touch_feedback.Plugins.Lists
use touch_feedback.Plugins.Lists.{init_manager-Inv}
use touch_feedback.Session.Exclusion
use touch_feedback.Session.Exclusion.{System, waiting, loading, finished, begins, Reach-setup}
use touch_feedback.Session.{setup, setup_begin}
use touch_feedback.Tests.Sessions.{phone}
use touch_feedback.Tests.Data.{demo, two_backends}

failed_rounds-Grows_example :
    Grows (failed_rounds 2 new_connector).timer (failed_rounds 5 new_connector).timer
    × ((failed_rounds 5 new_connector).timer ≡ some (wait (new_connector.failed_connections + 4)))
    × ((failed_rounds 5 new_connector).attempt ≡ false)
failed_rounds-Grows_example = failed_rounds-Grows 1 4 new_connector (omega arith)

dropped : Connector
dropped = try_connect (record new_connector { current_state = disconnected })

dropped-Reach : Reach new_connector dropped
unfolding dropped
dropped-Reach = next here (lost disconnected refl)

Reach-Inv_example : Inv dropped
Reach-Inv_example = Reach-Inv dropped dropped-Reach

Reach-recovers_example :
    ((d : Connector) × Runs dropped d × (d.current_state ≡ connected))
    × (((connection_done false dropped).0.current_state ≡ connecting)
        × (is_active (connection_done false dropped).0.timer ≡ true))
unfolding dropped try_connect
Reach-recovers_example = Reach-recovers dropped dropped-Reach refl

emit_volume_changed-priority_key_example :
    emit_volume_changed demo (priority_key demo 2 (codes "audio")) (codes "low")
    ≡ some (2, codes "audio", (to_volume demo (codes "low")).0)
emit_volume_changed-priority_key_example =
    emit_volume_changed-priority_key demo 2 (codes "audio") (codes "low") (omega arith) refl refl
      refl

louder : Option World
louder = set_volume (pos 1) (demo.name 4) volume_low two_backends

abbrev after_louder : World
after_louder = record two_backends {
  backend_volumes = [] ∷ ((demo.name 4, volume_low) ∷ []) ∷ [] ∷ [];
}

volume_at-set_volume_example : volume_at demo (pos 1) 1 after_louder ≡ some volume_low
unfolding set_volume insert
volume_at-set_volume_example =
    volume_at-set_volume demo 1 1 4 volume_low two_backends after_louder (omega arith) refl refl

abbrev pub plugin_files : PluginFiles
plugin_files = record {
  lib_dir_exists = λ dir. true;
  entry_list =
      λ dir. codes "libmeegofeedback-a.so" ∷ codes "notes.txt" ∷ codes "libmeegofeedback-b.so" ∷ [];
  instance_of = λ path. some (length path);
  is_backend_base = λ o. true;
  is_source_base = λ o. true;
  source_init = λ o. true;
}

abbrev pub no_plugins : Manager
no_plugins = record {
  world = record two_backends { backend_list = []; non_threaded_backend_count = 0 };
  source_list = [];
  backend_loader_list = [];
  source_loader_list = [];
}

init_manager-Inv_example :
    Lists.Inv (init_manager demo plugin_files (codes "blue") [] 1 no_plugins).manager
    × (((init_manager demo plugin_files (codes "blue") [] 1 no_plugins).ok ≡ false) ↔ (
        (init_manager demo plugin_files (codes "blue") [] 1 no_plugins).manager.world.backend_list
        ≡ []))
    × (1 ≤ (init_manager demo plugin_files (codes "blue") [] 1 no_plugins).max_threads)
init_manager-Inv_example =
    init_manager-Inv demo plugin_files (codes "blue") [] 1 no_plugins (omega arith)

abbrev all_waiting : System
all_waiting = record { setup_in_progress = false; phase = λ i. waiting }

abbrev first_loading : System
first_loading = record {
  setup_in_progress = true;
  phase = λ j. if 0 == j then loading else waiting;
}

first_loading-Reach : Exclusion.Reach first_loading
unfolding setup_begin
first_loading-Reach =
    Exclusion.next all_waiting first_loading (Exclusion.start all_waiting refl (λ i e. cc))
      (begins 0 true refl refl refl)

abbrev first : ℕ
first = 0

Reach-setup_example :
    (first ≡ first)
    × (setup demo 2 first_loading.setup_in_progress phone two_backends
        ≡ done (true, false, phone, two_backends))
Reach-setup_example =
    Reach-setup first_loading first first demo 2 phone two_backends first_loading-Reach refl refl
