-- ===== src/Config.antt =====
-- internal/config: config.go and runtime_overrides.go. YAML is the parameter pair `encode` and
-- `decode`; the environment and the registry are read into `Overrides`.
pub mod Loading
pub mod Tests
use appcenter_agent.Common.{
  ℕ, zero, suc, ◌+◌, ◌-◌, ◌*◌, ◌/◌, ◌%◌, ◌^◌, ◌≤◌, ◌<◌, String, ◌≡◌, refl, sym, ap, ◌∙◌, subst, ◌≢◌,
  ◌↔◌, ◌⊎◌, inl, inr, Bool, true, false, not, ◌&&◌, ◌||◌, Option, none, some, List, [], ◌∷◌, ◌++◌,
  map, arith, eq_iff, ltb, leb, if◌then◌else◌, ltb→lt, lt→ltb, leb→le, tests, Bool-cases,
  Option-cases, is_some, ℤ, pos, negsuc, int_beq, int_ltb, is_positive, int_beq_iff, int_ltb_irrefl,
  int_ltb_asymm, int_ltb_neg_trans, int_ltb_antisymm, HasEq, ◌==◌, nat_eq, int_eq, string_eq,
  is_blank, or_empty, first_non_blank, length, keep_if, head?, length-append, All, All-mono,
  All-map, All-of_map, All-keep_if, All-of_keep_if, All-both,
}
use appcenter_agent.Common.Dict.{
  Dict, lookup, contains, values, keys, Distinct, insert, delete, lookup-insert, lookup-delete,
  contains-insert, lookup-insert_self, lookup-delete_self, contains-delete, Distinct-insert,
  Distinct-delete, All-insert, All-delete, All-lookup, lookup_own,
}
use appcenter_agent.Common.Sort.{
  place, sort, All-place, All-sort, head-sort-All, head-sort-none, head-sort-min,
}
use appcenter_agent.Api.{
  Command, TaskStatusRequest, InstalledApp, RemoteSupportRequest, RemoteSupportEnd,
}
use appcenter_agent.Common.Text.{
  codes, is_space, trim_left, trim_right, trim_space, trim_slashes, lower_code, lowered, same_codes,
  same_codes_refl,
}
use appcenter_agent.Json.{
  Json, JsonObject, null, flag, number, text, other, get_text, text_or_empty,
}
use appcenter_agent.Files.{Bytes, Files}

pub record ServerConfig : Type 0 where
  pub url : String
  pub verify_ssl : Bool

pub record AgentConfig : Type 0 where
  pub version : String
  pub uuid : String
  pub secret_key : String

pub record HeartbeatConfig : Type 0 where
  pub interval_sec : ℤ

pub record WebSocketConfig : Type 0 where
  pub enabled : Bool
  pub url : String
  pub reconnect_min_sec : ℤ
  pub reconnect_max_sec : ℤ

pub record SystemProfileConfig : Type 0 where
  pub report_interval_min : ℤ

pub record RemoteSupportConfig : Type 0 where
  pub enabled : Bool
  pub approval_timeout_sec : ℤ

pub record DownloadConfig : Type 0 where
  pub temp_dir : String
  pub bandwidth_limit_kbps : ℤ

pub record InstallConfig : Type 0 where
  pub timeout_sec : ℤ
  pub enable_auto_cleanup : Bool

pub record UpdateConfig : Type 0 where
  pub auto_apply : Bool
  pub service_name : String
  pub helper_path : String

pub record LoggingConfig : Type 0 where
  pub level : String
  pub file : String
  pub max_size_mb : ℤ
  pub max_backups : ℤ

pub record Config : Type 0 where
  pub server : ServerConfig
  pub agent : AgentConfig
  pub heartbeat : HeartbeatConfig
  pub websocket : WebSocketConfig
  pub system_profile : SystemProfileConfig
  pub remote_support : RemoteSupportConfig
  pub download : DownloadConfig
  pub install : InstallConfig
  pub update : UpdateConfig
  pub logging : LoggingConfig

-- Default
abbrev pub default_config : Config
default_config = record {
  server = record { url = "http://10.6.100.170:8000"; verify_ssl = false };
  agent = record { version = "0.0.0"; uuid = ""; secret_key = "" };
  heartbeat = record { interval_sec = pos 60 };
  websocket = record {
    enabled = false;
    url = "";
    reconnect_min_sec = pos 2;
    reconnect_max_sec = pos 60;
  };
  system_profile = record { report_interval_min = pos 720 };
  remote_support = record { enabled = false; approval_timeout_sec = pos 30 };
  download = record {
    temp_dir = "C:\\ProgramData\\AppCenter\\downloads";
    bandwidth_limit_kbps = pos 1024;
  };
  install = record { timeout_sec = pos 1800; enable_auto_cleanup = true };
  update = record {
    auto_apply = true;
    service_name = "AppCenterAgent";
    helper_path = "C:\\Program Files\\AppCenter\\appcenter-update-helper.exe";
  };
  logging = record {
    level = "info";
    file = "C:\\ProgramData\\AppCenter\\logs\\agent.log";
    max_size_mb = pos 10;
    max_backups = pos 5;
  };
}

abbrev pub is_negative : ℤ → Bool
is_negative n = int_ltb n (pos 0)

-- Validate: whether it returns no error
unfoldable pub validate : Config → Bool
validate c =
    not (is_blank c.server.url)
    && is_positive c.heartbeat.interval_sec
    && is_positive c.download.bandwidth_limit_kbps
    && is_positive c.install.timeout_sec
    && is_positive c.logging.max_size_mb
    && is_positive c.logging.max_backups
    && not (is_blank c.agent.version)
    && not (is_negative c.system_profile.report_interval_min)
    && is_positive c.remote_support.approval_timeout_sec
    && not (is_negative c.websocket.reconnect_min_sec)
    && not (is_negative c.websocket.reconnect_max_sec)

abbrev pub or_default : ℤ → ℤ → ℤ
or_default n default = if n == pos 0 then default else n

unfoldable pub apply_defaults : Config → Config
apply_defaults c = record c {
  update = record (c.update) {
    service_name = first_non_blank c.update.service_name "AppCenterAgent";
  };
  system_profile = record {
    report_interval_min = or_default c.system_profile.report_interval_min (pos 720);
  };
  remote_support = record (c.remote_support) {
    approval_timeout_sec = or_default c.remote_support.approval_timeout_sec (pos 30);
  };
  websocket = record (c.websocket) {
    reconnect_min_sec = or_default c.websocket.reconnect_min_sec (pos 2);
    reconnect_max_sec = or_default c.websocket.reconnect_max_sec (pos 60);
  };
}

-- APPCENTER_SERVER_URL and APPCENTER_SECRET_KEY, and the values ServerURL and SecretKey of the
-- installer's registry key, each empty where it is missing
pub record Overrides : Type 0 where
  pub env_server_url : String
  pub env_secret_key : String
  pub registry_server_url : String
  pub registry_secret_key : String

abbrev pub override : String → String → Config → Config
override url secret c = record c {
  server = record (c.server) { url = first_non_blank url c.server.url };
  agent = record (c.agent) { secret_key = first_non_blank secret c.agent.secret_key };
}

-- ApplyRuntimeOverrides: the environment first, then the registry
unfoldable pub apply_runtime_overrides : Overrides → Config → Config
apply_runtime_overrides o c =
    override o.registry_server_url o.registry_secret_key
      (override o.env_server_url o.env_secret_key c)

abbrev pub finish : Overrides → Config → Option Config
unfolding validate apply_defaults apply_runtime_overrides
finish o c =
    let c' = apply_runtime_overrides o (apply_defaults c) in if validate c' then some c' else none

abbrev pub settled : Overrides → Option Config → Option Config
unfolding finish
settled o none = none
settled o (some c) = finish o c

abbrev pub loaded : (Bytes → Option Config) → Overrides → Option Bytes → Option Config
unfolding settled
loaded decode o none = none
loaded decode o (some b) = settled o (decode b)

-- Load, `none` for an error
unfoldable pub load : (Bytes → Option Config) → Overrides → String → Files → Option Config
unfolding loaded
load decode o path files = loaded decode o (lookup path files)

-- EnsureExists: whether it succeeds, where `writable` tells whether the folder and the file can be
-- made, and the files after it
unfoldable pub ensure_exists : (Config → Bytes) → Bool → String → Files → Bool × Files
ensure_exists encode writable path files =
    if contains path files
    then (true, files)
    else if writable
    then (true, insert path (encode default_config) files)
    else (false, files)

-- Save of a configuration
unfoldable pub save : (Config → Bytes) → Bool → String → Config → Files → Bool × Files
save encode writable path c files =
    if writable then (true, insert path (encode c) files) else (false, files)
