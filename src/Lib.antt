-- ===== src/Lib.antt =====
-- Touch feedback daemon.
--
-- The daemon plays tactile and audible feedback for the applications of a handset. A client
-- connects to the daemon's local socket and names itself (src/daemon/mfconnection.cpp); its
-- connection creates a session (src/lib/mfsession.cpp), which creates one feedback
-- (src/lib/mffeedback.cpp) for each feedback of the theme. A feedback holds one handle
-- (src/lib/mffeedbackhandle.cpp) for each backend. The manager (src/lib/mfmanager.cpp) loads the
-- backends, which are plugins (src/lib/mfbackendbase.cpp), shares the handles through a cache,
-- and keeps the volumes that the configuration reports (src/daemon/mfconfiguration.cpp).
--
-- Files
-- - Base and Base/*: shared helpers: Boolean tests (Tests), lists over the native numbers
--   (Lists), signed integers (Int), QString as a list of characters (Text), QMap and QHash
--   (Dict).
-- - Backend: src/lib/mfbackendbase.cpp. `Connector` has the fields of MfBackendBase;
--   `try_connect` is tryConnect, `connecting_slot` connectingSlot, `connection_done`
--   connectionDone, and the wrappers carry the names of the source. Backend/Schedule: the waiting
--   times. Backend/Reconnect: the steps between turns of the event loop. Backend/Ledger: what a
--   plugin has handed out and not been given back, by the calls made to it.
-- - World: the state that the objects of lib share: the fields of the manager, the handles by
--   address, the connections of the backends, and the calls that were made to the plugins, in
--   order.
-- - Handle: src/lib/mffeedbackhandle.cpp, each method under its name; `delete` is the destructor.
--   Handle/Ledger: which handles own what the plugins have handed out.
-- - Cache: the cache in src/lib/mfmanager.cpp (searchFromCache, addToCache, removeFromCache,
--   deleteCache, unloadHandlesForABackend). Cache/Invariant: what holds of it between two calls.
--   Cache/Unloading: what unloadHandlesForABackend leaves. Cache/Keys: the keys as text.
--   Cache/Printing: printCache.
-- - Feedback: src/lib/mffeedback.cpp. `load_feedback` is load, with `load_handle` for loadHandle
--   and `release` for the part that gives up a handle; `destroy_feedback` is the destructor and
--   `play_feedback` the slot play. Feedback/LoadHandle, Feedback/Release, Feedback/References,
--   Feedback/Playing: the proofs. Feedback/Keeping: what every operation keeps that the calls of
--   a handle keep; Feedback/Owning, Feedback/Fitting and
--   Feedback/Later: three such properties. Feedback/Placing: the slots and the backends.
-- - Theme: src/lib/mfutil.cpp: getThemeInheritanceChain, getFeedbackDirsOfATheme,
--   findFeedbackFallbackPaths, getFeedbackDirLists and what they call. Theme/Chain,
--   Theme/Fallback, Theme/Names, Theme/Order, Theme/Default: the proofs.
-- - Configuration: src/daemon/mfconfiguration.cpp and mfconfiguration_p.cpp, and setVolume of
--   src/lib/mfmanager.cpp. Configuration/Volumes, Configuration/Restart: the
--   proofs.
-- - Session: src/lib/mfsession.cpp. Session/Exclusion: the flag that is shared by all sessions.
--   Session/Counts, Session/References: the pointers of a session's feedbacks. Session/Ends: the
--   end of setup. Session/Reloading: what themeChanged does. Session/Keeping, Session/Fitting, Session/Placing: as for feedbacks.
--   Session/Knowing: which feedbacks a session has.
-- - Plugins: init, the destructor, the loading of plugins and the slots of src/lib/mfmanager.cpp.
--   Plugins/Lists, Plugins/Shutdown: the proofs. Plugins/Instance: the static gInstance.
-- - System: the sessions of all clients over one manager, as a step relation whose steps are the
--   calls that the event loop makes in src/lib, in any order. System/Counts, System/Invariant,
--   System/Steps: the invariant. System/Outcomes, System/Placing, System/Memory,
--   System/Ending: what follows; System/Ending has the deletions at the end of `main`.
--   System/Themes: the signal themeChanged, which waits for each session, as a step relation of its
--   own; System/Loading, System/Following: the proofs. System/Staying: a lemma on all events.
-- - Dummies: meegofeedback-dummy/mfbackenddummy.cpp (Dummies/Plain),
--   meegofeedback-dummy-vibra/mfbackenddummyvibra.cpp (Dummies/Vibra) and
--   meegofeedback-dummy-audio/mfbackenddummyaudio.cpp (Dummies/Audio), over the strings that they
--   allocate. Dummies/Replay: the three as plugins of one daemon. Dummies/Memory, Dummies/Safety:
--   the proofs.
-- - Log: src/lib/mflog.cpp; Log/Filter: the proof. Config: src/lib/mfconfig.cpp; Config/Reads: the
--   proof. Probes: timeStamping and checkProcess of src/lib/mfutil.cpp; Probes/Answers: the proofs.
-- - Connection: src/daemon/mfconnection.cpp. Connection/States, Connection/Handshake,
--   Connection/Requests: the proofs.
-- - Clients: all connections with their sessions and requests, over the manager, as a step relation:
--   onNewConnection of src/daemon/mfserver.cpp, and the calls that the event loop makes in
--   src/daemon/mfconnection.cpp and, by its sessions, in src/lib. A request is a queued signal
--   startPlay. Clients/Reading: what a read does to a session. Clients/Sessions, Clients/Moves,
--   Clients/Refines: the events as those of System. Clients/Invariant, Clients/Steps,
--   Clients/Requests: what holds of each client. Clients/Leaving, Clients/Serving: runs.
-- - Daemon/CmdLine, Daemon/Server, Daemon/DeviceState, Daemon/Signals, Daemon/Main: the files of
--   src/daemon of those names, mfTempDir of src/lib/mfutil.cpp, and src/daemon/main.cpp.
--   Daemon/Sockets: onSignal and retranslate of src/daemon/mfsignalhandler.cpp, with the sockets.
--   Daemon/Logging: the start of `main`. Daemon/Catching, Daemon/Exits: the proofs.
-- - Tests/*: the theorems at concrete inputs, and runs.
--
-- State is passed explicitly: an operation takes the state and returns the new one, and a pointer
-- is an address that reads as null once its object is deleted. A signal that is emitted is a
-- returned value. `Option` stands for an access out of a list's range or a failed call, as the
-- definition says, and `Outcome` for a search that may end the process.
--
-- Parameters, since the code is not in the repository: Qt's conversions between text and numbers
-- (`Qt`), what a plugin answers (`Plugin`, `PluginFiles`), the file system and the themes' files
-- (`Platform`, `Directories`, `Processes`), GConf (`GConf`), the settings (`Settings`), and the
-- socket with its stream (`SocketApi`). What a theorem relies on of them is among its hypotheses.
--
-- Bounds and fuel. The numbers that the source counts with are small and the model does not wrap
-- them. `get_theme_inheritance_chain` recurses on fuel, and the length of the chain is enough; a
-- cycle of themes uses up any fuel, as the source recurses without end. `fetch_loop` runs on
-- fuel, and one more than the bytes that are available is enough. All other loops are structural.
--
-- Not modelled: the debug output (printHash, printData, printFallbackPaths) and writeTimestamp,
-- which are input and output; the builds with MF_RECONNECTION_TESTING or
-- MF_THEME_TESTING; the connections of signals to slots, other than by what the slots do; count
-- and blockAll of the signal handler and stringListFromGSList, which the daemon does not call; a
-- write of only a part of a signal's number, which counts as one that fails; the threads of a
-- player, whose calls stand in the order in which the threads start; and the mutexes of the log.
pub mod Base
pub mod Backend
pub mod World
pub mod Handle
pub mod Cache
pub mod Feedback
pub mod Theme
pub mod Configuration
pub mod Session
pub mod Plugins
pub mod Connection
pub mod System
pub mod Clients
pub mod Dummies
pub mod Log
pub mod Config
pub mod Probes
pub mod Daemon
mod Tests
