-- ===== src/WebSocket/Tests.antt =====
-- Runs of the client.
use appcenter_agent.Common.{
  String, ◌≡◌, refl, true, false, none, some, List, [], ◌∷◌, pos, nat_eq, int_eq, string_eq,
}
use appcenter_agent.Common.Dict.{lookup}
use appcenter_agent.Common.Text.{trim_right, trim_slashes}
use appcenter_agent.Json.{JsonObject, flag}
use appcenter_agent.WebSocket.{
  Message, Client, Event, auth_sent, hello_sent, pong_sent, connected, disconnected, server_hello,
  signal, wait, Attempt, dispatch, message_loop, connect_and_serve, run, derive_ws_url, new_client,
}
use appcenter_agent.WebSocket.Protocol.{offline, IsOrderly, run-IsOrderly}

address_is_derived : derive_ws_url "https://host/" "" ≡ "wss://host/api/v1/agent/ws"
unfolding derive_ws_url trim_slashes trim_right
address_is_derived = refl

abbrev message : String → JsonObject → Message
message kind payload = record { id = "m"; kind = kind; payload = payload }

abbrev refused : Attempt
refused = record {
  dial = false;
  auth_written = true;
  auth_reply = none;
  hello_written = true;
  hello_reply = none;
  incoming = [];
  cancelled = false;
}

abbrev pinged : Attempt
pinged = record {
  dial = true;
  auth_written = true;
  auth_reply = some (message "server.auth.result" (("ok", flag true) ∷ []));
  hello_written = true;
  hello_reply = some (message "server.hello" []);
  incoming =
      record { message = some (message "server.ping" []); writable = true }
      ∷ record { message = some (message "server.signal" []); writable = true }
      ∷ [];
  cancelled = false;
}

abbrev client : Client
unfolding new_client derive_ws_url trim_slashes trim_right
client = new_client "http://host" "" (pos 0) (pos 5)

abbrev events : List Event
events =
    disconnected
    ∷ wait 2
    ∷ disconnected
    ∷ wait 4
    ∷ disconnected
    ∷ wait 5
    ∷ auth_sent
    ∷ hello_sent
    ∷ server_hello []
    ∷ connected
    ∷ pong_sent "m"
    ∷ signal
    ∷ disconnected
    ∷ wait 2
    ∷ []

backoff_grows_and_resets : run client 2 (refused ∷ refused ∷ refused ∷ pinged ∷ []) ≡ events
unfolding run client connect_and_serve message_loop dispatch lookup
backoff_grows_and_resets = refl

run-IsOrderly_example : IsOrderly offline (run client 2 (refused ∷ pinged ∷ []))
run-IsOrderly_example = run-IsOrderly client 2 (refused ∷ pinged ∷ [])
