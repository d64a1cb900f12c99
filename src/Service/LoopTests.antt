-- ===== src/Service/LoopTests.antt =====
-- A run of the service's loop: a scan on a kick, then a result of the heartbeat with one task.
use appcenter_agent.Common.{
  ℕ, String, ◌≡◌, refl, true, false, Option, none, some, List, [], ◌∷◌, pos, length, nat_eq, int_eq,
  string_eq,
}
use appcenter_agent.Common.Dict.{lookup, insert, delete}
use appcenter_agent.Common.Sort.{sort}
use appcenter_agent.Common.Text.{append, trim_left, trim_right, trim_space}
use appcenter_agent.Api.{Command}
use appcenter_agent.Json.{number}
use appcenter_agent.Files.{Bytes}
use appcenter_agent.Config.{Config, default_config}
use appcenter_agent.Queue.{
  add_command, add_commands, is_runnable, precedes, next_runnable, handle_success, process_one,
  complete, process_loop, ExecutionResult, new_task_queue, pending_count, process_commands,
}
use appcenter_agent.Inventory.{
  SoftwareItem, SubmitRequest, returned, new_manager, force_scan, scan_if_needed, compute_hash,
  name_less, sync_if_requested, get_submit_payload,
}
use appcenter_agent.Updater.Tests.{toy_hash, update_server, storage, fresh}
use appcenter_agent.Service.SelfUpdate.{World, apply_when_idle, stage, on_poll_result}
use appcenter_agent.Service.Loop.{
  Agent, Found, Poll, kicked, polled, Next, goes_on, ended, restarting, crashed, out_of_fuel,
  send_hash, serve, step, scans, after_update, after_scan, after_commands, configured, announce,
}
use appcenter_agent.Service.Sending.{send_ws_inventory_hash}
use appcenter_agent.Service.{set_websocket, runtime_of, apply_server_config, handle_rs_request}
use appcenter_agent.Updater.{stage_if_needed, apply_if_pending}
use appcenter_agent.Service.Soundness.{Keeps, served}

abbrev toy_encode : Config → Bytes
toy_encode c = 1 ∷ []

abbrev first_name : List SoftwareItem → String
first_name [] = "0123456789abcdef"
first_name (item ∷ items) = append "0123456789abcdef" item.name

abbrev vlc : SoftwareItem
vlc = record {
  name = "VLC";
  version = "3.0";
  publisher = "";
  install_date = "";
  estimated_size_kb = pos 0;
  architecture = "";
}

abbrev started : Agent
started = record {
  service = record {
    scan_interval_min = pos 10;
    store_tray_enabled = false;
    remote_support_enabled = true;
    config = default_config;
    files = [];
    ws_started = false;
    runtime = record { base_url = ""; interval_min = pos 60; jitter_sec = pos 300 };
  };
  disk = fresh;
  inventory = record {
    last_hash = "0123456789abcdefVLC";
    last_items = vlc ∷ [];
    scan_interval_min = pos 10;
    last_scan_time = some 1;
  };
  board = record { tracker = []; boxes = []; acks = [] };
  queue = new_task_queue (pos 3);
  sent = record { hash = ""; at = none };
  ws_active = true;
}

abbrev world : Config → World
world config = record {
  server = update_server;
  sha256 = toy_hash;
  io = storage;
  now = 0;
  starts = true;
  cfg = config;
  cfg_path = "c.yaml";
  service_exe = "svc.exe";
}

abbrev task : Command
task = record {
  task_id = pos 7;
  action = "install";
  app_id = pos 7;
  app_name = "app";
  app_version = "";
  download_url = "/files/app.msi";
  file_hash = "00";
  file_size_bytes = pos 10;
  install_args = "";
  force_update = true;
  priority = pos 5;
}

abbrev succeeds : Command → ExecutionResult × Option String
succeeds c = (
  record {
    exit_code = pos 0;
    installed_version = "";
    download_duration_sec = pos 1;
    install_duration_sec = pos 1;
    message = "";
  },
  none,
)

abbrev poll : Poll
poll = record {
  result = record {
    server_time = 0;
    config = ("inventory_scan_interval_min", number (pos 30)) ∷ [];
    commands = task ∷ [];
    inventory_sync_required = true;
    remote_support_request = none;
    remote_support_end = none;
  };
  has_config = true;
  pending_announcements = [];
  world = world;
  writable = true;
  now = 6;
  found = (vlc ∷ [], 6);
  rounds = λ i. record {
    now = i;
    jitter = 0;
    cancelled = false;
    execute = succeeds;
    consumed = false;
    failed_at = i;
  };
  installed = λ i. (vlc ∷ vlc ∷ [], 9);
}

abbrev found : Found
found = (vlc ∷ [], 5)

first_scan : force_scan first_name (vlc ∷ []) 1 new_manager ≡ returned true started.inventory
unfolding force_scan new_manager compute_hash name_less
first_scan = refl

served_example :
    Keeps first_name toy_encode "c.yaml"
      (serve first_name toy_encode "c.yaml" (kicked true found) (polled poll ∷ []) started)
served_example =
    served first_name toy_encode "c.yaml" (vlc ∷ []) 1 (kicked true found) (polled poll ∷ [])
      started refl first_scan

-- the number of items that are submitted, and of tasks that are reported
abbrev numbers_of : Next → Option (ℕ × ℕ × Option SubmitRequest)
numbers_of (goes_on a calls) =
    some (length a.inventory.last_items, length calls.reports, calls.submitted)
numbers_of ended = none
numbers_of (restarting call) = none
numbers_of crashed = none
numbers_of out_of_fuel = none

one_task :
    numbers_of (serve first_name toy_encode "c.yaml" (kicked true found) (polled poll ∷ []) started)
    ≡ some (
      2,
      1,
      some
          (record { inventory_hash = "0123456789abcdefVLC"; software_count = 1; items = vlc ∷ [] }),
    )
unfolding serve step send_hash scans force_scan scan_if_needed after_update after_scan
    after_commands configured announce set_websocket runtime_of compute_hash name_less sort
    new_manager sync_if_requested get_submit_payload apply_server_config handle_rs_request
    on_poll_result apply_when_idle stage stage_if_needed apply_if_pending send_ws_inventory_hash
    trim_space trim_left trim_right lookup insert delete new_task_queue add_command add_commands
    pending_count is_runnable precedes next_runnable handle_success process_one complete
    process_loop process_commands
one_task = refl
