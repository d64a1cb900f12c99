-- ===== src/Service/Soundness.antt =====
-- Every round of the service's loop ends, and keeps the agent sound.
use appcenter_agent.Common.{
  ℕ, zero, suc, String, ◌≡◌, refl, sym, subst, ◌≢◌, Bool, true, false, Option, none, some, List, [],
  ◌∷◌, arith, if◌then◌else◌, ℤ, pos, is_positive, nat_eq, int_eq, string_eq,
}
use appcenter_agent.Common.Dict.{lookup}
use appcenter_agent.Api.{TaskStatusRequest}
use appcenter_agent.Json.{Json, JsonObject, null, flag, number, text, other}
use appcenter_agent.Files.{Bytes}
use appcenter_agent.Config.{Config}
use appcenter_agent.Queue.{TaskQueue, new_task_queue, pending_count, process_commands}
use appcenter_agent.Queue.Invariant.{WellFormed, new_task_queue-WellFormed}
use appcenter_agent.Queue.Loop.{Ends, process_commands-Ends}
use appcenter_agent.Inventory.{
  SoftwareItem, SubmitRequest, Manager, new_manager, Scan, panicked, returned, force_scan,
  scan_if_needed, sync_if_requested,
}
use appcenter_agent.Inventory.Scanning.{
  IsCurrent, CrashOr, new_manager-IsCurrent, manager_of, store_scan-CrashOr, scan_if_needed-CrashOr,
  Filled, sync-Filled,
}
use appcenter_agent.Updater.{Disk, HelperCall}
use appcenter_agent.Service.{Service, apply_server_config, set_scan_interval}
use appcenter_agent.Service.SelfUpdate.{on_poll_result}
use appcenter_agent.Service.Loop.{
  Agent, Found, Poll, Event, cancelled, restart_requested, kicked, ticked, polled, Calls, Next,
  goes_on, ended, restarting, crashed, out_of_fuel, send_hash, after_ws_scan, succeeded, then_scan,
  scans, finish, after_commands, fuel_for, poll_calls, after_scan, given, configured, after_update,
  step, then_round, serve,
}

module _ (digest : List SoftwareItem → String) (encode : Config → Bytes) (cfg_path : String) where
  -- the queue is well formed, the hash is that of the items, and the interval is positive
  abbrev pub IsSound : Agent → Type 0
  IsSound a = WellFormed a.queue × IsCurrent digest a.inventory

  abbrev pub Submits : Option SubmitRequest → Type 0
  Submits none = Unit
  Submits (some p) = Filled digest p

  -- a round that goes on leads to a sound agent, and none runs out of fuel
  abbrev pub Keeps : Next → Type 0
  Keeps (goes_on a calls) = IsSound a × Submits calls.submitted
  Keeps ended = Unit
  Keeps (restarting call) = Unit
  Keeps crashed = Unit
  Keeps out_of_fuel = ⊥

  if-Keeps : (b : Bool) (s t : Next) → Keeps s → Keeps t → Keeps (if b then s else t)
  if-Keeps true s t h k = h
  if-Keeps false s t h k = k

  abbrev queue_or : TaskQueue → Option (TaskQueue × List (ℤ × TaskStatusRequest)) → TaskQueue
  queue_or q none = q
  queue_or q (some r) = r.0

  send-Keeps :
      (sends force : Bool) (now : ℕ) (a : Agent)
      → IsSound a
      → Keeps (send_hash digest encode cfg_path sends force now a)
  unfolding send_hash
  send-Keeps sends force now a h = (h, tt)

  current : (m : Manager) → CrashOr digest (some m) → IsCurrent digest m
  unfolding CrashOr
  current m h = h

  ws_scan-Keeps :
      (sends forced : Bool) (now : ℕ) (a : Agent) (s : Scan)
      → IsSound a
      → CrashOr digest (manager_of s)
      → Keeps (after_ws_scan digest encode cfg_path sends forced now a s)
  ws_scan-Keeps sends forced now a panicked h c = tt
  ws_scan-Keeps sends forced now a (returned scanned m) h c =
      send-Keeps sends (if scanned then true else forced) now (record a { inventory = m })
        (h.0, current m c)

  scans-CrashOr :
      (n : ℕ) (installed : ℕ → Found) (m : Manager)
      → IsCurrent digest m
      → CrashOr digest (scans digest encode cfg_path n installed m)
  unfolding scans CrashOr
  scans-CrashOr zero installed m h = h
  scans-CrashOr (suc n) installed m h =
      by_scan (force_scan digest (installed n).0 (installed n).1 m)
        (store_scan-CrashOr digest (installed n).0 (installed n).1 m h) (scans-CrashOr n installed)
    where
      by_scan :
          (s : Scan)
          → CrashOr digest (manager_of s)
          → ((k : Manager)
              → IsCurrent digest k
              → CrashOr digest (scans digest encode cfg_path n installed k))
          → CrashOr digest
              (then_scan digest encode cfg_path (scans digest encode cfg_path n installed) s)
      by_scan panicked c f = tt
      by_scan (returned scanned k) c f = f k c

  finish-Keeps :
      (a : Agent) (calls : Calls) (o : Option Manager)
      → WellFormed a.queue
      → Submits calls.submitted
      → CrashOr digest o
      → Keeps (finish digest encode cfg_path a calls o)
  unfolding CrashOr
  finish-Keeps a calls none h s c = tt
  finish-Keeps a calls (some m) h s c = ((h, c), s)

  none-some : (r : TaskQueue × List (ℤ × TaskStatusRequest)) → none ≢ some r
  none-some r e = cc

  commands-Keeps :
      (p : Poll) (a : Agent) (calls : Calls) (r : Option (TaskQueue × List (ℤ × TaskStatusRequest)))
      → IsCurrent digest a.inventory
      → Submits calls.submitted
      → Ends p.rounds r
      → Keeps (after_commands digest encode cfg_path p a calls r)
  unfolding after_commands
  commands-Keeps p a calls none h s (q, reports, e, ok, last) = absurd (none-some (q, reports) e)
  commands-Keeps p a calls (some (q, reports)) h s (q', reports', e, ok, last) =
      finish-Keeps (record a { queue = q }) (record calls { reports = reports })
        (scans digest encode cfg_path (succeeded digest encode cfg_path reports) p.installed
          a.inventory)
        (subst (λ o. WellFormed (queue_or q o)) (sym e) ok) s
        (scans-CrashOr (succeeded digest encode cfg_path reports) p.installed a.inventory h)

  sync-Submits :
      (required : Bool) (m : Manager)
      → IsCurrent digest m
      → (o : Option SubmitRequest) → sync_if_requested required m ≡ o
      → Submits o
  sync-Submits required m h none e = tt
  sync-Submits required m h (some p) e = sync-Filled digest required m h e

  scan-Keeps :
      (p : Poll) (a : Agent) (s : Scan)
      → WellFormed a.queue
      → CrashOr digest (manager_of s)
      → Keeps (after_scan digest encode cfg_path p a s)
  unfolding after_scan
  scan-Keeps p a panicked h c = tt
  scan-Keeps p a (returned scanned m) h c =
      commands-Keeps p (record a { inventory = m })
        (poll_calls digest encode cfg_path p a.service m)
        (process_commands (fuel_for digest encode cfg_path p a) p.result.commands p.rounds a.queue)
        (current m c)
        (sync-Submits p.result.inventory_sync_required m (current m c)
          (sync_if_requested p.result.inventory_sync_required m) refl)
        (process_commands-Ends (fuel_for digest encode cfg_path p a) p.result.commands p.rounds
          a.queue h (omega arith))

  interval-positive :
      (o : Option Json) (interval : ℤ)
      → is_positive interval ≡ true
      → is_positive (set_scan_interval o interval) ≡ true
  interval-positive none interval h = h
  interval-positive (some null) interval h = h
  interval-positive (some (flag b)) interval h = h
  interval-positive (some (text t)) interval h = h
  interval-positive (some other) interval h = h
  interval-positive (some (number n)) interval h = ground arith

  applied-positive :
      (writable : Bool) (config : Option JsonObject) (s : Service)
      → is_positive s.scan_interval_min ≡ true
      → is_positive (apply_server_config encode writable cfg_path config s).scan_interval_min ≡ true
  unfolding apply_server_config
  applied-positive writable none s h = h
  applied-positive writable (some m) s h =
      interval-positive (lookup "inventory_scan_interval_min" m) s.scan_interval_min h

  configured-IsSound :
      (p : Poll) (disk : Disk) (a : Agent)
      → IsSound a
      → IsSound (configured digest encode cfg_path p disk a)
  unfolding configured IsCurrent
  configured-IsSound p disk a h = (
    h.0,
    (
      applied-positive p.writable (given digest encode cfg_path p.has_config p.result.config)
          (record a.service { scan_interval_min = a.inventory.scan_interval_min }) h.1.0,
      h.1.1,
    ),
  )

  update-Keeps :
      (p : Poll) (a : Agent) (r : Option HelperCall × Disk)
      → IsSound a
      → Keeps (after_update digest encode cfg_path p a r)
  unfolding after_update
  update-Keeps p a (some call, disk) h = tt
  update-Keeps p a (none, disk) h =
      let a' = configured digest encode cfg_path p disk a in
      let h' = configured-IsSound p disk a h in
      scan-Keeps p a' (scan_if_needed digest p.found.0 p.found.1 a'.inventory) h'.0
        (scan_if_needed-CrashOr digest p.found.0 p.found.1 a'.inventory h'.1)

  step-Keeps : (e : Event) (a : Agent) → IsSound a → Keeps (step digest encode cfg_path e a)
  unfolding step
  step-Keeps cancelled a h = tt
  step-Keeps (restart_requested reason) a h = tt
  step-Keeps (kicked sends found) a h =
      if-Keeps a.ws_active _ _
        (ws_scan-Keeps sends true found.1 a (force_scan digest found.0 found.1 a.inventory) h
          (store_scan-CrashOr digest found.0 found.1 a.inventory h.1))
        (h, tt)
  step-Keeps (ticked sends found) a h =
      if-Keeps a.ws_active _ _
        (ws_scan-Keeps sends false found.1 a (scan_if_needed digest found.0 found.1 a.inventory) h
          (scan_if_needed-CrashOr digest found.0 found.1 a.inventory h.1))
        (h, tt)
  step-Keeps (polled p) a h =
      update-Keeps p a
        (on_poll_result (p.world a.service.config) (pending_count a.queue)
          (given digest encode cfg_path p.has_config p.result.config) a.disk)
        h

  serve-Keeps :
      (e : Event) (events : List Event) (a : Agent)
      → IsSound a
      → Keeps (serve digest encode cfg_path e events a)
  unfolding serve
  serve-Keeps e [] a h = step-Keeps e a h
  serve-Keeps e (next ∷ events) a h =
      later (step digest encode cfg_path e a) (step-Keeps e a h) (serve-Keeps next events)
    where
      later :
          (r : Next)
          → Keeps r
          → ((a : Agent) → IsSound a → Keeps (serve digest encode cfg_path next events a))
          → Keeps (then_round digest encode cfg_path (serve digest encode cfg_path next events) r)
      later (goes_on a calls) k f = f a k.0
      later ended k f = tt
      later (restarting call) k f = tt
      later crashed k f = tt
      later out_of_fuel k f = k

  -- From an agent as runAgent starts it, with a new queue for three attempts and a new inventory
  -- after a scan that did not panic, the service's loop, through any events and whatever is
  -- answered to it, never runs out of fuel. Whenever it goes on, its queue is well formed, the
  -- interval of its inventory is positive, the inventory is empty or has the hash of its items,
  -- and what the round submits carries the hash of its own items, their number, and at least one
  -- item.
  pub served :
      (items : List SoftwareItem) (now : ℕ) (e : Event) (events : List Event) (a : Agent)
      → a.queue ≡ new_task_queue (pos 3)
      → force_scan digest items now new_manager ≡ returned true a.inventory
      → Keeps (serve digest encode cfg_path e events a)
  served items now e events a q m = serve-Keeps e events a (
    subst WellFormed (sym q) (new_task_queue-WellFormed (pos 3)),
    current a.inventory (
        subst (λ s. CrashOr digest (manager_of s)) m
          (store_scan-CrashOr digest items now new_manager (new_manager-IsCurrent digest))),
  )
