-- ===== src/Service/Requests.antt =====
-- What the payloads of the WebSocket ask for: parseCommandsFromPayload, parseRSRequestFromPayload
-- and parseRSEndFromPayload of cmd/service/core.go. Decoding one JSON value into a record of the API is
-- encoding/json's part, the parameter `decode`.
use appcenter_agent.Common.{
  String, Option, none, some, List, [], ◌∷◌, if◌then◌else◌, ℤ, is_positive, nat_eq, int_eq,
  string_eq,
}
use appcenter_agent.Common.Dict.{lookup}
use appcenter_agent.Api.{Command, RemoteSupportRequest, RemoteSupportEnd}
use appcenter_agent.Json.{Json, JsonObject, null}

-- payload[key], where null counts as missing
unfoldable pub present : JsonObject → String → Option Json
present payload key = not_null (lookup key payload)
  where
    not_null : Option Json → Option Json
    not_null none = none
    not_null (some null) = none
    not_null (some v) = some v

abbrev pub or_then : Option Json → Option Json → Option Json
or_then none second = second
or_then (some v) second = some v

abbrev pub decoded {ℓ} : {A : Type ℓ} → (Json → Option A) → Option Json → Option A
decoded decode none = none
decoded decode (some v) = decode v

abbrev pub or_no_commands : Option (List Command) → List Command
or_no_commands none = []
or_no_commands (some commands) = commands

-- parseCommandsFromPayload
unfoldable pub parse_commands_from_payload :
    (Json → Option (List Command)) → JsonObject → List Command
unfolding present
parse_commands_from_payload decode payload =
    or_no_commands
      (decoded decode (or_then (present payload "commands") (present payload "pending_commands")))

-- a value of the payload, or else the payload itself
abbrev pub decoded_or_self {ℓ} :
    {A : Type ℓ} → (Json → Option A) → (JsonObject → Option A) → JsonObject → Option Json → Option A
decoded_or_self decode decode_self payload none = decode_self payload
decoded_or_self decode decode_self payload (some v) = decode v

abbrev pub with_session {ℓ} : {A : Type ℓ} → (A → ℤ) → Option A → Option A
with_session session_id none = none
with_session session_id (some a) = if is_positive (session_id a) then some a else none

-- parseRSRequestFromPayload
unfoldable pub parse_rs_request_from_payload :
    (Json → Option RemoteSupportRequest)
    → (JsonObject → Option RemoteSupportRequest)
    → JsonObject
    → Option RemoteSupportRequest
unfolding present
parse_rs_request_from_payload decode decode_self [] = none
parse_rs_request_from_payload decode decode_self (entry ∷ payload) =
    with_session (λ r. r.session_id)
      (decoded_or_self decode decode_self (entry ∷ payload) (
        or_then (present (entry ∷ payload) "remote_support_request")
          (present (entry ∷ payload) "pending_rs_request")))

-- parseRSEndFromPayload
unfoldable pub parse_rs_end_from_payload :
    (Json → Option RemoteSupportEnd)
    → (JsonObject → Option RemoteSupportEnd)
    → JsonObject
    → Option RemoteSupportEnd
unfolding present
parse_rs_end_from_payload decode decode_self [] = none
parse_rs_end_from_payload decode decode_self (entry ∷ payload) =
    with_session (λ r. r.session_id)
      (decoded_or_self decode decode_self (entry ∷ payload) (
        or_then (present (entry ∷ payload) "remote_support_end")
          (present (entry ∷ payload) "pending_rs_end")))
