-- ===== src/Heartbeat/Tests.antt =====
-- Runs of the sender, and each theorem at an input that meets its hypotheses.
use appcenter_agent.Common.{
  ◌++◌, All, ℕ, suc, ◌^◌, ◌*◌, ◌≤◌, String, ◌≡◌, refl, true, false, Option, none, some, List, [],
  ◌∷◌, arith, pos, nat_eq, int_eq, string_eq, length,
}
use appcenter_agent.Client.{SignalResponse}
use appcenter_agent.Queue.{new_task_queue, consume_apps_changed, minute}
use appcenter_agent.Heartbeat.{
  ServiceItem, Sender, need_collect, maybe_attach_services, HeartbeatRequest, HeartbeatResponse,
  Station, send_once,
}
use appcenter_agent.Heartbeat.Services.{unchanged_collects_again}
use appcenter_agent.Heartbeat.Signal as Signal
use appcenter_agent.Heartbeat.Signal.{
  poll_error, answered, ws_active, InBounds, start, listen, next_backoff, get_elem?, errors, wait,
  on_signal, min, signal_waits,
}
use appcenter_agent.Heartbeat.Sending.{send_once_lem}

abbrev spooler : ServiceItem
spooler = record {
  name = "Spooler";
  display_name = "";
  status = "running";
  startup_type = "auto";
  pid = pos 4;
  run_as = "";
  description = "";
}

-- a stand-in for the hash
abbrev toy_hash : List ServiceItem → String
toy_hash [] = "none"
toy_hash (r ∷ rs) = r.name

abbrev reporting : Sender
reporting = record {
  services_enabled = true;
  services_sync_needed = false;
  services_interval_min = pos 10;
  services_last_sent = some 0;
  services_last_hash = "Spooler";
  triggered = false;
  ws_active = false;
}

first_report :
    (maybe_attach_services toy_hash
      (record reporting { services_last_hash = "" })
      5
      (some (spooler ∷ []))).0
    ≡ record { services_hash = "Spooler"; services = some (spooler ∷ []) }
unfolding maybe_attach_services need_collect
first_report = refl

unchanged_collects_again_example :
    ((maybe_attach_services toy_hash reporting (10 * minute) (some (spooler ∷ []))).1 ≡ reporting)
    × (need_collect
          (maybe_attach_services toy_hash reporting (10 * minute) (some (spooler ∷ []))).1
          (11 * minute)
        ≡ true)
unchanged_collects_again_example =
    unchanged_collects_again toy_hash reporting (10 * minute) (11 * minute) (spooler ∷ [])
      (omega arith) refl refl refl

abbrev station : Station
station = record {
  sender = reporting;
  queue = record (new_task_queue (pos 3)) { apps_changed = true; installed = (pos 7, "1.2") ∷ [] };
  results = [];
}

abbrev unreachable : HeartbeatRequest → Option HeartbeatResponse
unreachable req = none

send_once_lem_example :
    let r = send_once toy_hash 5 8 "h" none unreachable station in
    (r.0.apps_changed ≡ (consume_apps_changed station.queue).0.0)
    × (r.0.installed_apps ≡ (consume_apps_changed station.queue).0.1)
    × (r.0.inventory_hash ≡ "h")
    × ((consume_apps_changed r.1.queue).0 ≡ (false, []))
    × (length r.1.results ≤ 8)
    × (unreachable r.0 ≡ none → r.1.results ≡ station.results)
send_once_lem_example = send_once_lem toy_hash 5 8 "h" none unreachable station (omega arith)

-- two errors, a signal, and the WebSocket
abbrev rounds : List Signal.Round
rounds =
    poll_error ∷ poll_error ∷ answered (record { status = "signal"; reason = "" }) ∷ ws_active ∷ []

abbrev timeout : SignalResponse
timeout = record { status = "timeout"; reason = "" }

signal_waits_example :
    All InBounds (start rounds)
    × (start (rounds ++ (answered timeout ∷ rounds))
        ≡ start (rounds ++ (answered timeout ∷ [])) ++ start rounds)
    × ((k : ℕ) → get_elem? (start (errors (suc k) rounds)) k ≡ some (wait (min (2 * 2 ^ k) 60)))
signal_waits_example = signal_waits rounds rounds timeout

waits : start rounds ≡ wait 2 ∷ wait 4 ∷ on_signal ∷ wait 5 ∷ []
unfolding start listen next_backoff
waits = refl
