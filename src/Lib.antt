-- ===== src/Lib.antt =====
-- The AppCenter agent: a Windows service, written in Go, that takes commands from a server, installs
-- software, keeps itself up to date and offers remote support.
--
-- How the parts work together. A heartbeat (internal/heartbeat) asks the server for work; the loop of
-- cmd/service/core.go hands the commands of its reply to the task queue (internal/queue), which runs
-- them one at a time through executeCommand: download (internal/downloader), check of the hash
-- (pkg/utils), installer (internal/installer). The same reply may offer an update of the agent
-- (internal/updater), which is staged and later applied by a second program (cmd/update-helper). A
-- WebSocket (internal/wsconn) takes the place of the heartbeat while it is connected, a long poll tells
-- of work in between, and requests for remote support go to a session manager
-- (internal/remotesupport). The installed software is scanned and reported (internal/inventory); the
-- user's tray program talks to the service over a named pipe; all of this is logged (pkg/utils).
--
-- Which file models which part:
--   Queue: internal/queue/taskqueue.go and processCommands of cmd/service/core.go. The state is the
--     record TaskQueue with the maps of TaskQueue; add_command(s), next_runnable, handle_failure,
--     handle_success, process_one and consume_apps_changed are the methods, process_commands is the
--     loop. One call of ProcessOne takes a Round: the clock, the jitter and the executor's answer.
--   RemoteSupport: internal/remotesupport/session.go and vnc.go. The record SessionManager is what
--     the mutex guards; HandleRequest, HandleEndSignal and EndSession are threads (Thread) that
--     `advance` moves from one lock or call to the next, so that every interleaving is a run.
--   Execute: executeCommand and findExistingDownloadPath of cmd/service/core.go, internal/installer.
--   Downloader, Files: internal/downloader/downloader.go, and VerifyFileHash of pkg/utils/hash.go.
--   Updater: internal/updater: StageIfNeeded (stage_if_needed), ApplyIfPending (apply_if_pending), and
--     the comparison of versions in Updater/Version.
--   UpdateHelper: cmd/update-helper/main_windows.go, its `main` and replaceFile.
--   Config: internal/config: the record, Default, Validate, ApplyDefaults, Load and EnsureExists.
--   WebSocket: internal/wsconn/client.go: connect_and_serve and run turn what the network does in each
--     attempt into the list of the client's events.
--   Heartbeat: internal/heartbeat/heartbeat.go: sendOnce (send_once) and maybeAttachServices;
--     Heartbeat/Signal: internal/heartbeat/signal.go, whose Start is a list of waits and triggers.
--   RuntimeUpdate: internal/runtimeupdate/manager.go: ensureFile (ensure_file) and replaceFile;
--     RuntimeUpdate/Loop: Start and UpdateConfig (take_turn, update_config), syncOnce, fetchManifest.
--   Service: cmd/service/core.go. Service itself: applyServerConfig, handleRSRequest, configInt.
--     Service/SelfUpdate: extractSelfUpdateChanges, applySelfUpdateChanges, the handler of a
--     broadcast, and the first calls for a result of the heartbeat. Service/Announcements:
--     handleAnnouncementPush with internal/announcement/tracker.go. Service/Requests: the parsers of
--     payloads. Service/Pipe: buildIPCHandler (handle_ipc). Service/Bootstrap: bootstrapAgent.
--     Service/Sending: reportFn and sendWSInventoryHash. Service/Loop: the select loop of runAgent,
--     with the scans of executeFn; one step is one event, and serve a list of them.
--   Inventory: internal/inventory/inventory.go, the record Manager and its methods.
--     Inventory/Scanner: scanner_windows.go, the scan of the registry. Inventory/Appx and AppxCache:
--     scanner_windows_appx.go, the packages, their names, and the cache in memory and on disk.
--   Client: internal/api/client.go: each method is an Endpoint, request_of is the request that it
--     sends, and receive is what postJSON and getJSON make of the reply.
--   Sessions: the choice and the order of sessions in internal/remotesupport/process_windows.go, and
--     GetLoggedInSessions of internal/system.
--   Logger: pkg/utils/logger.go, the rotating writer.
--   Api, Json: messages of internal/api/client.go, and decoded JSON objects.
--   Common: numbers, texts, lists, maps and sorting.
--
-- Conventions. Go's int is an integer without bound, since the program does no arithmetic near 2^63
-- but for the numbers of a version, whose bound is in `atoi`, and a few products that wrap around in
-- 64 bits. Times are numbers of nanoseconds (of seconds in WebSocket and Heartbeat/Signal). A map is
-- an association list; a file system maps paths to bytes, and paths are compared as texts. Errors are
-- results: `none`, a flag, or a constructor of the result's type. A file that can be opened is written to
-- its end, but for downloads, the log and pending_update.json, whose writes may break off.
-- SHA-256 and YAML are parameters, and so is the server, a function from the request to its reply.
--
-- Bounds. process_commands runs on fuel; max_retries times the number of tasks, and one more, is
-- enough, since every round that runs a task uses up one of its attempts. All other loops are
-- recursion on the list that they walk. decimal prints with 20 digits, and 64 bits need 19.
--
-- Not modelled: time-outs of processes; the limiter of downloads, which delays, or fails at a read that
-- exceeds its burst, which is then a body that breaks off; errors of the disk where a part's comment
-- says so; the calls of Windows (registry, sessions, tokens, message boxes, named pipes, tray, facts
-- about the machine), whose answers are inputs; the system profile of the heartbeat and the ticker of
-- its Start; and the start of the goroutines of the service. Messages of the WebSocket are modelled one
-- by one and are no events of the service's loop.
pub mod Api
pub mod Client
pub mod Common
pub mod Config
pub mod Downloader
pub mod Execute
pub mod Files
pub mod Heartbeat
pub mod Inventory
pub mod Json
pub mod Logger
pub mod Queue
pub mod RemoteSupport
pub mod RuntimeUpdate
pub mod Service
pub mod Sessions
pub mod UpdateHelper
pub mod Updater
pub mod WebSocket
