-- ===== src/Lib.antt =====
-- The decision logic of the Windows runner of the CentroidX HMI (centroid-hmi/windows/runner): the
-- parts with no Win32 in them, which decide when a renderer is dead, what is done about it, when an
-- engine may be rebuilt, and what the log says of it; the window that owns these parts and drives
-- them; and how the runner starts, and ends when a thread faults. Beside it, the paths that the Linux
-- ports give CEF, and what a start may delete of what the run before left
-- (packages/webview_cef/common/cef_cache_paths.cc), and the plugin that shows a video in the embedded
-- Linux port (packages/media_kit_video_elinux/elinux).
--
-- The parts and how they interact. FlutterWindow owns one of each. A timer ticks the watchdog, which
-- sends probes and counts those that no frame answers; a loss that is inferred so, or that is
-- observed (the sentinel device, a storm of EGL errors on stderr, failed raster probes), is declared
-- to it, and its Action says whether to report, restart the engine in place, or exit. A restart, and
-- a rebuild that the session policy asks for after a remote connect, go through the gate, which holds
-- them back while an engine starts. Dart liveness judges the stamps of the UI isolate; the throttle
-- thins the lines that a lost context would repeat; the diagnosis formats the loss report.
--
-- Which file models which part:
--   GpuWatchdog     gpu_watchdog.h, gpu_watchdog.cpp (GpuWatchdog: OnStarted, OnTick, OnRendererLost,
--                   DeclareLoss as declare_loss with note_episode and respond, OnFramePresented,
--                   OnDeviceLossHint, SetJudgeable, ConsumeJudgementHoldExpired, Disable, BackoffMs;
--                   ParseWatchdogEnabled and ParseProbeIntervalMs in GpuWatchdog/Environment)
--   GpuDiagnosis    gpu_diagnosis.h, gpu_diagnosis.cpp (ClassifyRemovedReason, the Describe functions
--                   in Names and Words, ParseLossAction in Action, FormatDuration in Duration,
--                   FormatLossReport in Report)
--   RebuildGate     engine_rebuild_gate.h, engine_rebuild_gate.cpp (EngineRebuildGate: EngineCreated,
--                   StartupComplete, StartupBlocking, Release, Request, Poll)
--   SessionPolicy   session_rebuild_policy.h, session_rebuild_policy.cpp (SessionRebuildPolicy)
--   DartLiveness    dart_liveness.h, dart_liveness.cpp (DartLiveness: EpochStarted, OnStamp, Evaluate)
--   EglStorm        egl_storm_detector.h, egl_storm_detector.cpp (EglStormDetector: OnBytes, OnLine)
--   LogThrottle     log_throttle.h, log_throttle.cpp (LogThrottle: Record as log_record, Reset)
--   DragDrop        drag_drop_lifetime.h, drag_drop_lifetime.cpp (DragDropLifetimeModel)
--   Shutdown        shutdown_policy.h, shutdown_policy.cpp (ShutdownPolicy)
--   LogRotation     log_rotation.h, log_rotation.cpp (ExtensionDot, GenerationPath, PlanRotation)
--   CrashHandler    crash_handler.cpp with the latch of crash_record.h: ReportAndDie as report_and_die and
--                   advance, and the handlers as Faults; Steps has the histories
--   Runner          main.cpp (wWinMain) in Main; output_target.cpp, path_utils.cpp and DefaultLogPath in
--                   Target; RedirectIOToFile, the consoles and RotateLogs of utils.cpp in Redirect;
--                   runner_log.cpp in Sidecar
--   WindowPlacement window_placement.h, window_placement.cpp (RestoredWindowBounds)
--   Host            flutter_window.h, flutter_window.cpp (FlutterWindow): Engine has CreateController,
--                   DestroyController, PerformEngineRebuild, RequestEngineRebuild, Actions the timer,
--                   Dispatch and ApplyAction, Channel OnRunnerChannelCall with Arguments, Messages
--                   OnCreate, OnDestroy, OnFramePresented and MessageHandler, TimerThread
--                   OnWatchdogTimerThread, Environment the constructor; Kept, Lives, Requests, Handlers,
--                   Replies and Ticks carry the invariant through them, to the histories of Histories
--   CefCache        packages/webview_cef/common/cef_cache_paths.h, cef_cache_paths.cc (the path helpers,
--                   RootCacheCandidates, ResolveCachePaths; IsChromiumSocketDir and PlanSingletonSweep in
--                   Sweep)
--   CacheHost       packages/webview_cef/common/cef_cache_paths_host.cc: Sockets has UnixSocketAnswers, Trees
--                   RemoveTreeAt, Directories EnsureWritableDirectory and FindSocketDirs, Sweeps
--                   ClearStaleSingletonState and PrepareCefCachePaths; Stale and Gone say what was seen of
--                   what is deleted
--   CrashRecord     crash_record.h, crash_record.cpp (CleanTypeName)
--   VideoGeometry   packages/media_kit_video_elinux/elinux/video_geometry.h, video_geometry.cc (the size at
--                   which a video is rendered, its stride and its buffer; ParseNullableInt in Numbers)
--   MediaVideo      packages/media_kit_video_elinux/elinux: Output has video_output.cc, Values and Plugin
--                   media_kit_video_elinux_plugin.cc, Library mpv_library.cc; Texture and Leaving hold the
--                   invariant, Owned, Creation, Stopping and Called carry it through the operations, and
--                   Histories to every order of them
--   CString         EqualsIgnoreCase of gpu_watchdog.cpp and gpu_diagnosis.cpp
--   Formats         the C and C++ library's formatting, a parameter
--   Common          shared names, Boolean tests, lists, machine words and signed integers
--
-- A class is a record of its private fields, a method a function from the record to the record and
-- what the method returns; children named Trace hold the events of a history and the fold of the
-- methods over it, and children named Describe the log lines. Modules named Tests run them.
--
-- The window. A handler is a function from a World, the answers that Win32, Direct3D and the engine
-- give while it runs, and a Host, the members of FlutterWindow, to the Host after it. What the window
-- asks of the outside is a trace of Effects in the Host, newest first. The clock readings of one
-- handler are taken to be one reading. A handler that posts a message leaves an Effect, and the
-- message is a step of its own, which may come at any time: the histories of Host/Histories allow
-- every order of messages, calls, frame callbacks and timer callbacks, with any World each. A frame
-- callback needs one that the engine holds, and a call of the Dart side an engine. A power, display
-- or session message is one that the engine and its plugins did not consume first.
--
-- The start of the runner. A World holds the answers of Windows while wWinMain runs, and what the
-- runner does to the outside is a list of Effects, the first first; a deletion or a move of a log that
-- Windows refuses leaves no Effect, and the rotation goes on. A crash is a history of threads:
-- one that faults enters ReportAndDie at the latch, and each further statement of it is a step, until
-- a thread terminates the process.
--
-- The CEF cache on a host. Os holds the answers of the system calls, and the deletions are a trace;
-- the plan is that of CefCache. A recursive removal works on a tree of entries, each with what the
-- host allows of it, where a link is a leaf; it is structural and needs no fuel.
--
-- The video plugin. An object of VideoOutput stands in a store under its address, and the registrar
-- of the embedder holds textures whose callbacks name an address: a texture is registered, or leaves
-- until the render thread is done with it, with the object that the closure of UnregisterTexture
-- keeps. Every function runs under the output's lock or on the platform thread, and is one step; a
-- history takes the steps of the three threads in any order. The registrar never gives an id that it
-- still holds.
--
-- Numbers. Clock readings and counters of unsigned types are numbers, with the wrap of a 32 or 64 bit
-- word written where the source adds or subtracts without a guard (u32, u64, sub64); the form now > t
-- ? now - t : 0 is elapsed. An int counter that only grows by one per event is a number without a
-- bound, and an int of a configuration that is only compared with 0 or a count is a number. Text that
-- is searched or parsed is a list of bytes, and text that is printed is a String. Loops are recursion
-- on the list or on the number of rounds; the only fuel is the depth of DragDrop.release, whose
-- second level finds the registration cleared and does not go deeper, and the rounds of append_parts
-- in CrashRecord, for which the number of bytes is enough (CrashRecord/Bounds).
--
-- Not modelled: strtol, std::to_string, snprintf and stream formatting, the arithmetic on doubles,
-- the environment and the probe for a writable directory (parameters); in FlutterWindow the handler
-- for an exception thrown by an action, the texts of its log lines, StringArg, the reload of fonts
-- and the child window; the device probe, the stderr interposer and the window class, which are Win32
-- and Direct3D calls; of the crash handlers the walk to a thrown type and the writing of a minidump;
-- the texts of crash records, one snprintf each; the embedded Linux runner and the
-- CEF plugin, which are copies of other projects; libmpv and the embedder's registrar, which answer
-- by a World; and everything written in Dart.
mod Common
pub mod CString
pub mod GpuDiagnosis
pub mod GpuWatchdog
pub mod Formats
pub mod RebuildGate
pub mod Runner
pub mod SessionPolicy
pub mod DartLiveness
pub mod EglStorm
pub mod LogThrottle
pub mod MediaVideo
pub mod DragDrop
pub mod Shutdown
pub mod LogRotation
pub mod Host
pub mod CacheHost
pub mod CefCache
pub mod CrashHandler
pub mod CrashRecord
pub mod VideoGeometry
pub mod WindowPlacement
