-- ===== src/Client.antt =====
-- The HTTP client of internal/api/client.go: the request of each call, and what becomes of the reply.
-- net/http answers with an input; encoding/json's decoding and Go's conversion of bytes to a text are
-- parameters, and so is the payload's encoding, which is left out: a payload is kept as its fields.
pub mod Credentials
use appcenter_agent.Common.{
  ℕ, zero, suc, ◌+◌, ◌-◌, ◌*◌, ◌/◌, ◌%◌, ◌^◌, ◌≤◌, ◌<◌, String, ◌≡◌, refl, sym, ap, ◌∙◌, subst, ◌≢◌,
  ◌↔◌, ◌⊎◌, inl, inr, Bool, true, false, not, ◌&&◌, ◌||◌, Option, none, some, List, [], ◌∷◌, ◌++◌,
  map, arith, eq_iff, ltb, leb, if◌then◌else◌, nat_beq, ltb→lt, lt→ltb, leb→le, tests, Bool-cases,
  Option-cases, is_some, ℤ, pos, negsuc, int_beq, int_ltb, is_positive, int_beq_iff, int_ltb_irrefl,
  int_ltb_asymm, int_ltb_neg_trans, int_ltb_antisymm, HasEq, ◌==◌, nat_eq, int_eq, string_eq,
  is_blank, or_empty, first_non_blank, length, keep_if, head?, length-append, All, All-mono,
  All-map, All-of_map, All-keep_if, All-of_keep_if, All-both,
}
use appcenter_agent.Common.Dict.{
  Dict, lookup, contains, values, keys, Distinct, insert, delete, lookup-insert, lookup-delete,
  contains-insert, lookup-insert_self, lookup-delete_self, contains-delete, Distinct-insert,
  Distinct-delete, All-insert, All-delete, All-lookup, lookup_own,
}
use appcenter_agent.Common.Sort.{
  place, sort, All-place, All-sort, head-sort-All, head-sort-none, head-sort-min,
}
use appcenter_agent.Api.{
  Command, TaskStatusRequest, InstalledApp, RemoteSupportRequest, RemoteSupportEnd,
}
use appcenter_agent.Common.Text.{
  codes, is_space, trim_left, trim_right, trim_space, trim_slashes, lower_code, lowered, same_codes,
  same_codes_refl, append, starts_with_slash, resolve_url, join,
}
use appcenter_agent.Json.{
  Json, JsonObject, null, flag, number, text, other, get_text, text_or_empty,
}
use appcenter_agent.Files.{Bytes, Files, verify_file_hash}
use appcenter_agent.Execute.Names.{show_int}
use appcenter_agent.Heartbeat.{HeartbeatRequest}
use appcenter_agent.Inventory.{SubmitRequest}

-- HTTPError
pub record HttpError : Type 0 where
  pub method : String
  pub url : String
  pub status_code : ℕ
  pub status : String
  pub detail : String
  pub body : String

abbrev pub status_text : HttpError → String
status_text e =
    if is_blank e.status then append "HTTP " (show_int (pos e.status_code)) else e.status

-- "%s %s: %s (%s)"
abbrev pub with_reason : HttpError → String → String → String
with_reason e reason msg =
    append e.method
      (append " " (append e.url (append ": " (append reason (append " (" (append msg ")"))))))

-- Error
unfoldable pub error_text : HttpError → String
error_text e =
    if not (is_blank e.detail)
    then with_reason e e.detail (status_text e)
    else if not (is_blank e.body)
    then with_reason e e.body (status_text e)
    else append e.method (append " " (append e.url (append " failed: " (status_text e))))

-- RegisterRequest
pub record RegisterRequest : Type 0 where
  pub uuid : String
  pub hostname : String
  pub os_version : String
  pub platform : String
  pub arch : String
  pub distro : String
  pub distro_version : String
  pub agent_version : String
  pub cpu_model : String
  pub ram_gb : ℤ
  pub disk_free_gb : ℤ

-- what Register takes of system.HostInfo
pub record HostInfo : Type 0 where
  pub hostname : String
  pub os_version : String
  pub cpu_model : String
  pub ram_gb : ℤ
  pub disk_free_gb : ℤ

-- RegisterResponse, without the configuration, which nothing reads
pub record RegisterResponse : Type 0 where
  pub status : String
  pub message : String
  pub secret_key : String

-- MessageResponse
pub record MessageResponse : Type 0 where
  pub status : String
  pub message : String

-- SignalResponse
pub record SignalResponse : Type 0 where
  pub status : String
  pub reason : String

pub data Payload : Type 0 where
  registration : RegisterRequest → Payload
  heartbeat : HeartbeatRequest → Payload
  task_status : TaskStatusRequest → Payload
  inventory : SubmitRequest → Payload
  no_fields : Payload
  approval : Bool → ℤ → Payload
  vnc_ready : Payload
  ended_by : String → Payload

pub record HttpRequest : Type 0 where
  pub method : String
  pub url : String
  pub headers : Dict String String
  pub payload : Option Payload

-- the methods of Client, with their arguments
pub data Endpoint : Type 0 where
  register : String → String → HostInfo → Endpoint
  send_heartbeat : HeartbeatRequest → Endpoint
  report_task_status : ℤ → TaskStatusRequest → Endpoint
  get_store : Endpoint
  submit_inventory : SubmitRequest → Endpoint
  request_store_install : ℤ → Endpoint
  approve_remote_session : ℤ → Bool → ℤ → Endpoint
  report_remote_ready : ℤ → Endpoint
  report_remote_ended : ℤ → String → Endpoint
  wait_for_signal : ℤ → Endpoint

abbrev pub credentials : String → String → Dict String String
credentials uuid secret = ("X-Agent-UUID", uuid) ∷ ("X-Agent-Secret", secret) ∷ []

-- the request of postJSON
abbrev pub post_json : String → String → Payload → Dict String String → HttpRequest
post_json base_url path payload headers = record {
  method = "POST";
  url = append base_url path;
  headers = ("Content-Type", "application/json") ∷ headers;
  payload = some payload;
}

-- the request of getJSON and of WaitForSignal
abbrev pub get_json : String → String → Dict String String → HttpRequest
get_json base_url path headers = record {
  method = "GET";
  url = append base_url path;
  headers = headers;
  payload = none;
}

abbrev pub remote_support_path : ℤ → String → String
remote_support_path session_id action =
    append "/api/v1/agent/remote-support/" (append (show_int session_id) action)

abbrev pub registration_of : String → String → String → HostInfo → RegisterRequest
registration_of goarch uuid version info = record {
  uuid = uuid;
  hostname = info.hostname;
  os_version = info.os_version;
  platform = "windows";
  arch = goarch;
  distro = "windows";
  distro_version = "";
  agent_version = version;
  cpu_model = info.cpu_model;
  ram_gb = info.ram_gb;
  disk_free_gb = info.disk_free_gb;
}

-- the request of each method, from the base address and the agent's credentials
unfoldable pub request_of : String → String → String → String → Endpoint → HttpRequest
request_of goarch base uuid secret (register id version info) =
    post_json base "/api/v1/agent/register" (registration (registration_of goarch id version info))
      []
request_of goarch base uuid secret (send_heartbeat body) =
    post_json base "/api/v1/agent/heartbeat" (heartbeat body) (credentials uuid secret)
request_of goarch base uuid secret (report_task_status id body) =
    post_json base (append "/api/v1/agent/task/" (append (show_int id) "/status"))
      (task_status body) (credentials uuid secret)
request_of goarch base uuid secret get_store =
    get_json base "/api/v1/agent/store" (credentials uuid secret)
request_of goarch base uuid secret (submit_inventory body) =
    post_json base "/api/v1/agent/inventory" (inventory body) (credentials uuid secret)
request_of goarch base uuid secret (request_store_install id) =
    post_json base (append "/api/v1/agent/store/" (append (show_int id) "/install")) no_fields
      (credentials uuid secret)
request_of goarch base uuid secret (approve_remote_session id approved monitors) =
    post_json base (remote_support_path id "/approve") (approval approved monitors)
      (credentials uuid secret)
request_of goarch base uuid secret (report_remote_ready id) =
    post_json base (remote_support_path id "/ready") vnc_ready (credentials uuid secret)
request_of goarch base uuid secret (report_remote_ended id by) =
    post_json base (remote_support_path id "/ended") (ended_by by) (credentials uuid secret)
request_of goarch base uuid secret (wait_for_signal timeout) =
    get_json base (append "/api/v1/agent/signal?timeout=" (show_int timeout))
      (credentials uuid secret)

-- NewClient: the base address
unfoldable pub base_url : String → String
base_url server_url = trim_slashes server_url

-- what net/http answers with: an error, or a status and a body
pub data Reply : Type 0 where
  no_reply : Reply
  reply : ℕ → String → Bytes → Reply

-- the fields of an error's body, and how bytes become a text
pub record ErrorBody : Type 0 where
  pub detail : String
  pub message : String

pub record Codec : Type 0 where
  pub as_text : Bytes → String
  pub decode_error : Bytes → Option ErrorBody

pub data Result {ℓ} (A : Type ℓ) : Type ℓ where
  ok : A → Result A
  http_error : HttpError → Result A
  failed : Result A

abbrev pub take : ℕ → Bytes → Bytes
take zero bytes = []
take (suc n) [] = []
take (suc n) (b ∷ bytes) = b ∷ take n bytes

abbrev pub max_body : ℕ
max_body = 64 * 1024

abbrev pub detail_of : Option ErrorBody → String
detail_of none = ""
detail_of (some e) = first_non_blank e.detail e.message

-- httpErrorFromResponse
unfoldable pub http_error_from_response : Codec → String → String → ℕ → String → Bytes → HttpError
unfolding trim_space
http_error_from_response codec method url code status bytes =
    let b = take max_body bytes in
    record {
      method = method;
      url = url;
      status_code = code;
      status = status;
      detail = if nat_beq (length b) 0 then "" else detail_of (codec.decode_error b);
      body = trim_space (codec.as_text b);
    }

abbrev pub decoded {ℓ} : {A : Type ℓ} → Option A → Result A
decoded none = failed
decoded (some a) = ok a

-- the rest of postJSON, getJSON and WaitForSignal
unfoldable pub receive {ℓ} :
    {A : Type ℓ} → Codec → (Bytes → Option A) → HttpRequest → Reply → Result A
receive codec decode req no_reply = failed
receive codec decode req (reply code status bytes) =
    if leb 300 code
    then http_error (http_error_from_response codec req.method req.url code status bytes)
    else decoded (decode bytes)
