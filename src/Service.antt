-- ===== src/Service.antt =====
-- What cmd/service/core.go does with the configuration that the server sends, and with its requests
-- for remote support.
pub mod SelfUpdate
pub mod Restarts
pub mod Announcements
pub mod Requests
pub mod Pipe
pub mod Answers
pub mod Bootstrap
pub mod Sending
pub mod Tracking
pub mod Credentials
pub mod Quiet
pub mod UpdateTests
pub mod MessageTests
pub mod Admission
pub mod Loop
pub mod Soundness
pub mod LoopTests
pub mod Policy
pub mod Tests
use Prim.Native.Char.{Char, code}
use appcenter_agent.Common.{
  ℕ, zero, suc, ◌+◌, ◌-◌, ◌*◌, ◌/◌, ◌%◌, ◌^◌, ◌≤◌, ◌<◌, String, ◌≡◌, refl, sym, ap, ◌∙◌, subst, ◌≢◌,
  ◌↔◌, ◌⊎◌, inl, inr, Bool, true, false, not, ◌&&◌, ◌||◌, Option, none, some, List, [], ◌∷◌, ◌++◌,
  map, arith, eq_iff, ltb, leb, if◌then◌else◌, ltb→lt, lt→ltb, leb→le, tests, Bool-cases,
  Option-cases, is_some, ℤ, pos, negsuc, int_beq, int_ltb, is_positive, int_beq_iff, int_ltb_irrefl,
  int_ltb_asymm, int_ltb_neg_trans, int_ltb_antisymm, HasEq, ◌==◌, nat_eq, int_eq, string_eq,
  is_blank, or_empty, first_non_blank, length, keep_if, head?, length-append, All, All-mono,
  All-map, All-of_map, All-keep_if, All-of_keep_if, All-both,
}
use appcenter_agent.Common.Dict.{
  Dict, lookup, contains, values, keys, Distinct, insert, delete, lookup-insert, lookup-delete,
  contains-insert, lookup-insert_self, lookup-delete_self, contains-delete, Distinct-insert,
  Distinct-delete, All-insert, All-delete, All-lookup, lookup_own,
}
use appcenter_agent.Common.Sort.{
  place, sort, All-place, All-sort, head-sort-All, head-sort-none, head-sort-min,
}
use appcenter_agent.Api.{
  Command, TaskStatusRequest, InstalledApp, RemoteSupportRequest, RemoteSupportEnd,
}
use appcenter_agent.Common.Text.{
  codes, is_space, trim_left, trim_right, trim_space, trim_slashes, lower_code, lowered, same_codes,
  same_codes_refl, append, starts_with_slash, resolve_url, join,
}
use appcenter_agent.Json.{
  Json, JsonObject, null, flag, number, text, other, get_text, text_or_empty,
}
use appcenter_agent.Files.{Bytes, Files, verify_file_hash}
use appcenter_agent.Config.{Config, save}
use appcenter_agent.RuntimeUpdate.{RuntimeConfig, normalize_config}
use appcenter_agent.Updater.Version.{is_digit, value}

-- What applyServerConfig reads and changes: the scan interval of the inventory, the two flags that
-- are shared between goroutines, the configuration and its file, whether the WebSocket client was
-- started, which happens once, and the configuration of the runtime updates.
pub record Service : Type 0 where
  pub scan_interval_min : ℤ
  pub store_tray_enabled : Bool
  pub remote_support_enabled : Bool
  pub config : Config
  pub files : Files
  pub ws_started : Bool
  pub runtime : RuntimeConfig

-- strconv.Atoi
abbrev pub all_digits : List ℕ → Bool
all_digits [] = true
all_digits (c ∷ s) = is_digit c && all_digits s

abbrev pub natural : List ℕ → Option ℕ
natural [] = none
natural (c ∷ s) = if all_digits (c ∷ s) then some (value 0 (c ∷ s)) else none

abbrev pub negated : ℕ → ℤ
negated zero = pos 0
negated (suc n) = negsuc n

abbrev pub signed_below : Bool → ℕ → Option ℕ → Option ℤ
signed_below minus bound none = none
signed_below minus bound (some n) =
    if ltb n bound then some (if minus then negated n else pos n) else none

abbrev pub parse_int : List ℕ → Option ℤ
parse_int [] = none
parse_int (c ∷ s) =
    if c == 45
    then signed_below true (2 ^ 63 + 1) (natural s)
    else if c == 43
    then signed_below false (2 ^ 63) (natural s)
    else signed_below false (2 ^ 63) (natural (c ∷ s))

abbrev pub int_or : ℤ → Option ℤ → ℤ
int_or default none = default
int_or default (some n) = n

abbrev pub int_value : ℤ → Option Json → ℤ
int_value default (some (number n)) = n
int_value default (some (text s)) = int_or default (parse_int (codes (trim_space s)))
int_value default _ = default

-- configInt
unfoldable pub config_int : JsonObject → String → ℤ → ℤ
config_int m key default = int_value default (lookup key m)

unfoldable pub runtime_update_base_url : String → String
runtime_update_base_url server_url =
    append (trim_slashes (trim_space server_url)) "/uploads/agent_runtime"

-- SetScanInterval
abbrev pub set_scan_interval : Option Json → ℤ → ℤ
set_scan_interval (some (number n)) interval = if is_positive n then n else interval
set_scan_interval _ interval = interval

abbrev pub flag_of : Option Json → Option Bool
flag_of (some (flag b)) = some b
flag_of _ = none

abbrev pub flag_or : Bool → Option Bool → Bool
flag_or default none = default
flag_or default (some b) = b

-- SetEnabled of the tray supervisor: the calls that are made
unfoldable pub tray_calls : Bool → Option Bool → List Bool
tray_calls enabled none = []
tray_calls enabled (some b) = if b then true ∷ [] else if enabled then false ∷ [] else []

abbrev pub with_websocket : Bool → Config → Config
with_websocket b c = record c { websocket = record c.websocket { enabled = b } }

-- the branch on websocket_enabled
abbrev pub set_websocket : (Config → Bytes) → Bool → String → Option Bool → Service → Service
unfolding save
set_websocket encode writable path none s = s
set_websocket encode writable path (some b) s =
    if b && not s.config.websocket.enabled
    then record s {
      config = with_websocket true s.config;
      files = (save encode writable path (with_websocket true s.config) s.files).1;
      ws_started = true;
    }
    else if not b && s.config.websocket.enabled
    then record s {
      config = with_websocket false s.config;
      files = (save encode writable path (with_websocket false s.config) s.files).1;
    }
    else s

abbrev pub runtime_of : Config → JsonObject → RuntimeConfig
unfolding config_int runtime_update_base_url normalize_config
runtime_of c m = normalize_config (record {
  base_url = runtime_update_base_url c.server.url;
  interval_min = config_int m "runtime_update_interval_min" (pos 60);
  jitter_sec = config_int m "runtime_update_jitter_sec" (pos 300);
})

-- applyServerConfig without the calls of the tray supervisor
unfoldable pub apply_server_config :
    (Config → Bytes) → Bool → String → Option JsonObject → Service → Service
unfolding set_websocket runtime_of
apply_server_config encode writable path none s = s
apply_server_config encode writable path (some m) s =
    let s' = set_websocket encode writable path (flag_of (lookup "websocket_enabled" m)) s in
    record s' {
      scan_interval_min =
          set_scan_interval (lookup "inventory_scan_interval_min" m) s.scan_interval_min;
      store_tray_enabled = flag_or s.store_tray_enabled (flag_of (lookup "store_tray_enabled" m));
      remote_support_enabled =
          flag_or s.remote_support_enabled (flag_of (lookup "remote_support_enabled" m));
      runtime = runtime_of s'.config m;
    }

-- handleRSRequest: the request that the session manager is given
unfoldable pub handle_rs_request :
    Option RemoteSupportRequest → Service → Option RemoteSupportRequest
handle_rs_request none s = none
handle_rs_request (some req) s = if s.remote_support_enabled then some req else none
