-- ===== src/Service/MessageTests.antt =====
-- Runs of the announcements, the named pipe, the credentials and the inventory hash.
use appcenter_agent.Common.{
  String, ◌≡◌, refl, inl, true, false, Option, none, some, List, [], ◌∷◌, pos, nat_eq, int_eq,
  string_eq,
}
use appcenter_agent.Common.Dict.{lookup, insert, delete}
use appcenter_agent.Common.Text.{codes, trim_left, trim_right, trim_space}
use appcenter_agent.Json.{JsonObject, number, text, get_text}
use appcenter_agent.Files.{Bytes}
use appcenter_agent.Config.{Config, default_config, save}
use appcenter_agent.Client.{
  Codec, Reply, no_reply, reply, RegisterResponse, MessageResponse, Result, ok, receive, request_of,
  get_store as get_store_endpoint, request_store_install as request_install,
}
use appcenter_agent.Service.Announcements.{handle_announcement_push, close_box, show}
use appcenter_agent.Service.Tracking.{Event, pushed, closed, run, empty_board}
use appcenter_agent.Service.Pipe.{Request, Station, handle_ipc}
use appcenter_agent.Service.Answers.{Answered, answers}
use appcenter_agent.Service.Bootstrap.{
  Environment, bootstrap_agent, take_reply, resolve_config_path, resolve_writable_config_path,
}
use appcenter_agent.Service.Credentials.{Startup, bootstrap-Startup}
use appcenter_agent.Service.Sending.{HashSent, send_ws_inventory_hash}

abbrev notice : JsonObject
notice =
    ("announcement_id", number (pos 5)) ∷ ("title", text "Hi") ∷ ("priority", text "critical") ∷ []

-- the same announcement twice, and one of its boxes closed
abbrev twice : List Event
twice = pushed 0 notice ∷ pushed 1 notice ∷ closed true (pos 5) ∷ []

-- a box is open whose announcement is no longer tracked
forgotten : run twice empty_board ≡ record { tracker = []; boxes = pos 5 ∷ []; acks = pos 5 ∷ [] }
unfolding run handle_announcement_push lookup insert delete trim_space trim_left trim_right show
    close_box get_text
forgotten = refl

abbrev reader : Codec
reader = record { as_text = λ b. ""; decode_error = λ b. none }

abbrev station : Station
station = record {
  started_at = "";
  pending_tasks = 0;
  agent_version = "1.0.0";
  agent_uuid = "u";
  support = none;
  remote_support_enabled = true;
}

abbrev asks : Request
asks = record { action = "Install_From_Store"; app_id = pos 3 }

abbrev refused_reply : Reply
refused_reply = reply 404 "404 Not Found" []

abbrev decode_message : Bytes → Option MessageResponse
decode_message b = none

abbrev decode_bytes : Bytes → Option Bytes
decode_bytes b = some b

answers_example : Answered (
    handle_ipc "error" station
      (receive reader decode_bytes
        (request_of "amd64" "https://s" "u" "k" get_store_endpoint)
        no_reply)
      (λ id.
        receive reader decode_message
          (request_of "amd64" "https://s" "u" "k" (request_install id))
          refused_reply)
      asks)
answers_example =
    answers Bytes "error" refl reader decode_bytes decode_message "amd64" "https://s" "u" "k"
      station asks no_reply (λ id. refused_reply)

abbrev toy_encode : Config → Bytes
toy_encode c = codes c.agent.secret_key

abbrev on_windows : Environment
on_windows = record { config_variable = ""; windows = true }

abbrev registrar : String → String → Result RegisterResponse
registrar uuid version = ok (record { status = "ok"; message = ""; secret_key = "k" })

bootstrap-Startup_example :
    Startup toy_encode
      (resolve_config_path on_windows)
      default_config
      []
      (bootstrap_agent toy_encode true on_windows registrar (some "u") default_config [])
bootstrap-Startup_example =
    bootstrap-Startup toy_encode on_windows (inl refl) registrar (some "u") default_config []

-- on another system the secret is written to a file that the next start does not load
abbrev elsewhere : Environment
elsewhere = record { config_variable = ""; windows = false }

lost_secret :
    lookup
      (resolve_config_path elsewhere)
      (bootstrap_agent toy_encode true elsewhere registrar (some "u") default_config []).files
    ≡ none
unfolding bootstrap_agent resolve_config_path resolve_writable_config_path lookup insert take_reply
    save
lost_secret = refl

abbrev nothing_sent : HashSent
nothing_sent = record { hash = ""; at = none }

sent : (send_ws_inventory_hash true true true 7 "ab" nothing_sent).0 ≡ some "ab"
unfolding send_ws_inventory_hash trim_space trim_left trim_right
sent = refl
