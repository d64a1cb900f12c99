-- ===== src/Service/Tests.antt =====
-- Runs of the service's configuration, and each theorem at an input that meets its hypotheses.
use appcenter_agent.Common.{
  ◌≡◌, refl, true, false, some, [], ◌∷◌, pos, negsuc, nat_eq, int_eq, string_eq,
}
use appcenter_agent.Common.Dict.{lookup}
use appcenter_agent.Api.{RemoteSupportRequest}
use appcenter_agent.Common.Text.{trim_left, trim_right, trim_space}
use appcenter_agent.Json.{JsonObject, flag, text}
use appcenter_agent.Files.{Bytes}
use appcenter_agent.Config.{Config, default_config}
use appcenter_agent.Service.{Service, config_int, apply_server_config}

minutes_from_text : config_int (("m", text " -12 ") ∷ []) "m" (pos 60) ≡ negsuc 11
unfolding config_int lookup trim_space trim_left trim_right
minutes_from_text = refl

abbrev fresh : Service
fresh = record {
  scan_interval_min = pos 10;
  store_tray_enabled = false;
  remote_support_enabled = true;
  config = default_config;
  files = [];
  ws_started = false;
  runtime = record { base_url = ""; interval_min = pos 60; jitter_sec = pos 300 };
}

abbrev patch : JsonObject
patch = ("remote_support_enabled", flag false) ∷ ("websocket_enabled", flag true) ∷ []

abbrev toy_encode : Config → Bytes
toy_encode c = 1 ∷ []

websocket_is_started :
    (apply_server_config toy_encode true "config.yaml" (some patch) fresh).ws_started ≡ true
unfolding apply_server_config lookup
websocket_is_started = refl

abbrev asked : RemoteSupportRequest
asked = record {
  session_id = pos 1;
  admin_name = "admin";
  reason = "";
  requested_at = "";
  timeout_at = "";
  requires_approval = true;
}
