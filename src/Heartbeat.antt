-- ===== src/Heartbeat.antt =====
-- internal/heartbeat/heartbeat.go. What the service gathers about the host, its sessions and its
-- profile is left out of the request; the hash of a list of services, the SHA-256 of its JSON text,
-- is the parameter `hash_services`. Times are nanoseconds, and `none` is Go's zero time.
pub mod Services
pub mod Signal
pub mod Sending
pub mod Tests
use appcenter_agent.Common.{
  ℕ, zero, suc, ◌+◌, ◌-◌, ◌*◌, ◌/◌, ◌%◌, ◌^◌, ◌≤◌, ◌<◌, String, ◌≡◌, refl, sym, ap, ◌∙◌, subst, ◌≢◌,
  ◌↔◌, ◌⊎◌, inl, inr, Bool, true, false, not, ◌&&◌, ◌||◌, Option, none, some, List, [], ◌∷◌, ◌++◌,
  map, arith, eq_iff, ltb, leb, if◌then◌else◌, ltb→lt, lt→ltb, leb→le, tests, Bool-cases,
  Option-cases, is_some, ℤ, pos, negsuc, int_beq, int_ltb, is_positive, int_beq_iff, int_ltb_irrefl,
  int_ltb_asymm, int_ltb_neg_trans, int_ltb_antisymm, HasEq, ◌==◌, nat_eq, int_eq, string_eq,
  is_blank, or_empty, first_non_blank, length, keep_if, head?, length-append, All, All-mono,
  All-map, All-of_map, All-keep_if, All-of_keep_if, All-both,
}
use appcenter_agent.Common.Dict.{
  Dict, lookup, contains, values, keys, Distinct, insert, delete, lookup-insert, lookup-delete,
  contains-insert, lookup-insert_self, lookup-delete_self, contains-delete, Distinct-insert,
  Distinct-delete, All-insert, All-delete, All-lookup, lookup_own,
}
use appcenter_agent.Common.Sort.{
  place, sort, All-place, All-sort, head-sort-All, head-sort-none, head-sort-min,
}
use appcenter_agent.Api.{
  Command, TaskStatusRequest, InstalledApp, RemoteSupportRequest, RemoteSupportEnd,
}
use appcenter_agent.Common.Text.{
  codes, is_space, trim_left, trim_right, trim_space, trim_slashes, lower_code, lowered, same_codes,
  same_codes_refl, append, starts_with_slash, resolve_url, join,
}
use appcenter_agent.Json.{
  Json, JsonObject, null, flag, number, text, other, get_text, text_or_empty,
}
use appcenter_agent.Queue.{TaskQueue, consume_apps_changed, minute}

pub record ServiceItem : Type 0 where
  pub name : String
  pub display_name : String
  pub status : String
  pub startup_type : String
  pub pid : ℤ
  pub run_as : String
  pub description : String

-- the fields of a Sender that change
pub record Sender : Type 0 where
  pub services_enabled : Bool
  pub services_sync_needed : Bool
  pub services_interval_min : ℤ
  pub services_last_sent : Option ℕ
  pub services_last_hash : String
  pub triggered : Bool
  pub ws_active : Bool

unfoldable pub new_sender : Sender
new_sender = record {
  services_enabled = false;
  services_sync_needed = false;
  services_interval_min = pos 10;
  services_last_sent = none;
  services_last_hash = "";
  triggered = false;
  ws_active = false;
}

-- TriggerNow: the channel holds one trigger
unfoldable pub trigger_now : Sender → Sender
trigger_now s = record s { triggered = true }

unfoldable pub set_ws_active : Bool → Sender → Sender
set_ws_active active s = record s { ws_active = active }

-- what the request says of the services
pub record ServicesPart : Type 0 where
  pub services_hash : String
  pub services : Option (List ServiceItem)

-- time.Duration(intervalMin) * time.Minute, as a word of 64 bits; from 2 ^ 63 on it is negative
abbrev pub interval_of : ℤ → ℕ
interval_of (pos zero) = 10 * minute
interval_of (pos (suc n)) = suc n * minute % 2 ^ 64
interval_of (negsuc n) = 10 * minute

abbrev pub is_due : ℕ → ℕ → Option ℕ → Bool
is_due now interval none = true
is_due now interval (some sent) = if ltb interval (2 ^ 63) then leb interval (now - sent) else true

unfoldable pub need_collect : Sender → ℕ → Bool
need_collect s now =
    s.services_sync_needed
    || is_blank s.services_last_hash
    || is_due now (interval_of s.services_interval_min) s.services_last_sent

abbrev pub attach_rows :
    (List ServiceItem → String) → Sender → ℕ → Option (List ServiceItem) → ServicesPart × Sender
attach_rows hash_services s now none =
    (record { services_hash = s.services_last_hash; services = none }, s)
attach_rows hash_services s now (some rows) =
    let items = keep_if (λ r. not (is_blank r.name)) rows in
    let hash = hash_services items in
    if s.services_sync_needed || not (hash == s.services_last_hash)
    then (
      record { services_hash = hash; services = some items },
      record s { services_last_hash = hash; services_last_sent = some now },
    )
    else (record { services_hash = hash; services = none }, s)

-- maybeAttachServices; `rows` is what CollectServices would return at this moment
unfoldable pub maybe_attach_services :
    (List ServiceItem → String) → Sender → ℕ → Option (List ServiceItem) → ServicesPart × Sender
unfolding need_collect
maybe_attach_services hash_services s now rows =
    if not s.services_enabled
    then (record { services_hash = ""; services = none }, s)
    else if not (need_collect s now)
    then (record { services_hash = s.services_last_hash; services = none }, s)
    else attach_rows hash_services s now rows

pub record HeartbeatRequest : Type 0 where
  pub apps_changed : Bool
  pub installed_apps : List InstalledApp
  pub inventory_hash : String
  pub services_part : ServicesPart

pub record HeartbeatResponse : Type 0 where
  pub server_time : Option ℕ
  pub config : JsonObject
  pub commands : List Command
  pub remote_support_request : Option RemoteSupportRequest
  pub remote_support_end : Option RemoteSupportEnd

pub record PollResult : Type 0 where
  pub server_time : ℕ
  pub config : JsonObject
  pub commands : List Command
  pub inventory_sync_required : Bool
  pub remote_support_request : Option RemoteSupportRequest
  pub remote_support_end : Option RemoteSupportEnd

abbrev pub flag_or : Bool → Option Json → Bool
flag_or default (some (flag b)) = b
flag_or default _ = default

abbrev pub positive_or : ℤ → Option Json → ℤ
positive_or default (some (number n)) = if is_positive n then n else default
positive_or default _ = default

-- what the sender takes from the configuration of a response
unfoldable pub take_config : JsonObject → Sender → Sender
take_config config s = record s {
  services_enabled = flag_or s.services_enabled (lookup "service_monitoring_enabled" config);
  services_sync_needed = flag_or s.services_sync_needed (lookup "services_sync_required" config);
  services_interval_min =
      positive_or s.services_interval_min (lookup "inventory_scan_interval_min" config);
}

abbrev pub time_or : ℕ → Option ℕ → ℕ
time_or now none = now
time_or now (some t) = t

abbrev pub poll_result : ℕ → HeartbeatResponse → PollResult
poll_result now resp = record {
  server_time = time_or now resp.server_time;
  config = resp.config;
  commands = resp.commands;
  inventory_sync_required = flag_or false (lookup "inventory_sync_required" resp.config);
  remote_support_request = resp.remote_support_request;
  remote_support_end = resp.remote_support_end;
}

-- the channel of results, which holds `capacity` of them; more are dropped
abbrev pub offer : ℕ → List PollResult → PollResult → List PollResult
offer capacity results r = if ltb (length results) capacity then results ++ (r ∷ []) else results

-- What a heartbeat reads and changes.
pub record Station : Type 0 where
  pub sender : Sender
  pub queue : TaskQueue
  pub results : List PollResult

abbrev pub request_of : ServicesPart → String → Bool × List InstalledApp → HeartbeatRequest
request_of part inventory_hash (changed, apps) = record {
  apps_changed = changed;
  installed_apps = if changed then apps else [];
  inventory_hash = inventory_hash;
  services_part = part;
}

abbrev pub on_reply :
    ℕ → ℕ → Sender → TaskQueue → List PollResult → Option HeartbeatResponse → Station
unfolding take_config
on_reply now capacity s q results none = record { sender = s; queue = q; results = results }
on_reply now capacity s q results (some resp) = record {
  sender = take_config resp.config s;
  queue = q;
  results = offer capacity results (poll_result now resp);
}

-- sendOnce: the request and what holds after the reply, `none` for an error
unfoldable pub send_once :
    (List ServiceItem → String)
    → ℕ
    → ℕ
    → String
    → Option (List ServiceItem)
    → (HeartbeatRequest → Option HeartbeatResponse)
    → Station
    → HeartbeatRequest × Station
unfolding maybe_attach_services on_reply
send_once hash_services now capacity inventory_hash rows server st =
    let (apps, q) = consume_apps_changed st.queue in
    let (part, s) = maybe_attach_services hash_services st.sender now rows in
    let req = request_of part inventory_hash apps in
    (req, on_reply now capacity s q st.results (server req))
