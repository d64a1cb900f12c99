-- ===== src/Service/Loop.antt =====
-- The select loop of runAgent in cmd/service/core.go: one event, and what the agent does for it. The
-- configuration's file and the files of the updates are kept apart. What the outside answers during
-- an event is part of the event; messages of the WebSocket come in between, as their own functions.
use appcenter_agent.Common.{
  ℕ, zero, suc, ◌+◌, ◌*◌, String, Bool, true, false, Option, none, some, List, [], ◌∷◌,
  if◌then◌else◌, ℤ, ◌==◌, nat_eq, int_eq, string_eq, length,
}
use appcenter_agent.Api.{TaskStatusRequest, RemoteSupportRequest, RemoteSupportEnd}
use appcenter_agent.Json.{JsonObject}
use appcenter_agent.Files.{Bytes}
use appcenter_agent.Config.{Config}
use appcenter_agent.Queue.{TaskQueue, Round, pending_count, process_commands}
use appcenter_agent.Heartbeat.{PollResult}
use appcenter_agent.Inventory.{
  SoftwareItem, SubmitRequest, Manager, Scan, panicked, returned, force_scan, scan_if_needed,
  sync_if_requested,
}
use appcenter_agent.Updater.{Disk, HelperCall}
use appcenter_agent.Service.{Service, apply_server_config, handle_rs_request}
use appcenter_agent.Service.SelfUpdate.{World, on_poll_result}
use appcenter_agent.Service.Announcements.{Board, handle_announcement_push}
use appcenter_agent.Service.Sending.{HashSent, send_ws_inventory_hash}

-- what the loop reads and changes
pub record Agent : Type 0 where
  pub service : Service
  pub disk : Disk
  pub inventory : Manager
  pub board : Board
  pub queue : TaskQueue
  pub sent : HashSent
  pub ws_active : Bool

-- what a scan finds, and when
abbrev pub Found : Type 0
Found = List SoftwareItem × ℕ

-- a result of the heartbeat, with the announcements that wait and what the outside answers
pub record Poll : Type 0 where
  pub result : PollResult
  pub has_config : Bool
  pub pending_announcements : List JsonObject
  pub world : Config → World
  pub writable : Bool
  pub now : ℕ
  pub found : Found
  pub rounds : ℕ → Round
  -- the scan after each task that succeeds
  pub installed : ℕ → Found

pub data Event : Type 0 where
  cancelled : Event
  restart_requested : String → Event
  kicked : Bool → Found → Event
  ticked : Bool → Found → Event
  polled : Poll → Event

-- the calls that leave the loop
pub record Calls : Type 0 where
  pub hash : Option String
  pub request : Option RemoteSupportRequest
  pub end_signal : Option RemoteSupportEnd
  pub submitted : Option SubmitRequest
  pub reports : List (ℤ × TaskStatusRequest)

abbrev pub no_calls : Calls
no_calls = record { hash = none; request = none; end_signal = none; submitted = none; reports = [] }

-- the loop goes on, returns nil, returns ErrUpdateRestart, with the helper or for a request, panics in
-- a scan, or runs out of fuel
pub data Next : Type 0 where
  goes_on : Agent → Calls → Next
  ended : Next
  restarting : Option HelperCall → Next
  crashed : Next
  out_of_fuel : Next

module _ (digest : List SoftwareItem → String) (encode : Config → Bytes) (cfg_path : String) where
  unfoldable pub send_hash : Bool → Bool → ℕ → Agent → Next
  unfolding send_ws_inventory_hash
  send_hash sends force now a =
      let r = send_ws_inventory_hash a.ws_active sends force now a.inventory.last_hash a.sent in
      goes_on (record a { sent = r.1 }) (record no_calls { hash = r.0 })

  -- the hash after a scan; one that a scan has brought is sent in any case
  abbrev pub after_ws_scan : Bool → Bool → ℕ → Agent → Scan → Next
  after_ws_scan sends forced now a panicked = crashed
  after_ws_scan sends forced now a (returned scanned m) =
      send_hash sends (if scanned then true else forced) now (record a { inventory = m })

  -- the scans of executeFn after the tasks that succeeded
  abbrev pub succeeded : List (ℤ × TaskStatusRequest) → ℕ
  succeeded [] = 0
  succeeded ((id, r) ∷ reports) =
      let rest = succeeded reports in if r.status == "success" then suc rest else rest

  abbrev pub then_scan : (Manager → Option Manager) → Scan → Option Manager
  then_scan f panicked = none
  then_scan f (returned scanned m) = f m

  unfoldable pub scans : ℕ → (ℕ → Found) → Manager → Option Manager
  unfolding force_scan
  scans zero installed m = some m
  scans (suc n) installed m =
      then_scan (scans n installed) (force_scan digest (installed n).0 (installed n).1 m)

  unfoldable pub announce : ℕ → List JsonObject → Board → Board
  unfolding handle_announcement_push
  announce now [] b = b
  announce now (payload ∷ payloads) b =
      announce now payloads (handle_announcement_push now payload b)

  abbrev pub finish : Agent → Calls → Option Manager → Next
  finish a calls none = crashed
  finish a calls (some m) = goes_on (record a { inventory = m }) calls

  -- processCommands, and the scans that its tasks lead to
  unfoldable pub after_commands :
      Poll → Agent → Calls → Option (TaskQueue × List (ℤ × TaskStatusRequest)) → Next
  unfolding scans
  after_commands p a calls none = out_of_fuel
  after_commands p a calls (some (q, reports)) =
      finish (record a { queue = q }) (record calls { reports = reports })
        (scans (succeeded reports) p.installed a.inventory)

  abbrev pub fuel_for : Poll → Agent → ℕ
  fuel_for p a = suc (a.queue.max_retries * (pending_count a.queue + length p.result.commands))

  -- what the answer asks of the sessions and of the inventory
  abbrev pub poll_calls : Poll → Service → Manager → Calls
  poll_calls p s m = record {
    hash = none;
    request = handle_rs_request p.result.remote_support_request s;
    end_signal = p.result.remote_support_end;
    submitted = sync_if_requested p.result.inventory_sync_required m;
    reports = [];
  }

  unfoldable pub after_scan : Poll → Agent → Scan → Next
  unfolding after_commands sync_if_requested handle_rs_request
  after_scan p a panicked = crashed
  after_scan p a (returned scanned m) =
      after_commands p (record a { inventory = m }) (poll_calls p a.service m)
        (process_commands (fuel_for p a) p.result.commands p.rounds a.queue)

  abbrev pub given : Bool → JsonObject → Option JsonObject
  given has_config config = if has_config then some config else none

  -- applyServerConfig, which may set the interval of the scans
  unfoldable pub configured : Poll → Disk → Agent → Agent
  unfolding apply_server_config announce
  configured p disk a =
      let s =
        apply_server_config encode p.writable cfg_path (given p.has_config p.result.config)
          (record a.service { scan_interval_min = a.inventory.scan_interval_min }) in
      record a {
        service = s;
        disk = disk;
        inventory = record a.inventory { scan_interval_min = s.scan_interval_min };
        board = announce p.now p.pending_announcements a.board;
      }

  unfoldable pub after_update : Poll → Agent → Option HelperCall × Disk → Next
  unfolding after_scan configured scan_if_needed
  after_update p a (some call, disk) = restarting (some call)
  after_update p a (none, disk) =
      let a' = configured p disk a in
      after_scan p a' (scan_if_needed digest p.found.0 p.found.1 a'.inventory)

  -- one round of the loop
  unfoldable pub step : Event → Agent → Next
  unfolding after_update on_poll_result force_scan scan_if_needed
  step cancelled a = ended
  step (restart_requested reason) a = restarting none
  step (kicked sends found) a =
      if a.ws_active
      then after_ws_scan sends true found.1 a (force_scan digest found.0 found.1 a.inventory)
      else goes_on a no_calls
  step (ticked sends found) a =
      if a.ws_active
      then after_ws_scan sends false found.1 a (scan_if_needed digest found.0 found.1 a.inventory)
      else goes_on a no_calls
  step (polled p) a = after_update p a (
      on_poll_result (p.world a.service.config) (pending_count a.queue)
        (given p.has_config p.result.config) a.disk)

  abbrev pub then_round : (Agent → Next) → Next → Next
  then_round f (goes_on a calls) = f a
  then_round f ended = ended
  then_round f (restarting call) = restarting call
  then_round f crashed = crashed
  then_round f out_of_fuel = out_of_fuel

  -- the rounds for these events, and what the last of them leads to
  unfoldable pub serve : Event → List Event → Agent → Next
  unfolding step
  serve e [] a = step e a
  serve e (next ∷ events) a = then_round (serve next events) (step e a)
