-- ===== src/WebSocket.antt =====
-- internal/wsconn/client.go. What the network and the server do in one attempt to connect is an
-- `Attempt`; what the client does is the list of its events. Times are in seconds, and the jitter of
-- a wait is left out. Every callback is set.
pub mod Protocol
pub mod Tests
use Prim.Native.Char.{Char, code}
use appcenter_agent.Common.{
  ℕ, zero, suc, ◌+◌, ◌-◌, ◌*◌, ◌/◌, ◌%◌, ◌^◌, ◌≤◌, ◌<◌, String, ◌≡◌, refl, sym, ap, ◌∙◌, subst, ◌≢◌,
  ◌↔◌, ◌⊎◌, inl, inr, Bool, true, false, not, ◌&&◌, ◌||◌, Option, none, some, List, [], ◌∷◌, ◌++◌,
  map, arith, eq_iff, ltb, leb, if◌then◌else◌, ltb→lt, lt→ltb, leb→le, tests, Bool-cases,
  Option-cases, is_some, ℤ, pos, negsuc, int_beq, int_ltb, is_positive, int_beq_iff, int_ltb_irrefl,
  int_ltb_asymm, int_ltb_neg_trans, int_ltb_antisymm, HasEq, ◌==◌, nat_eq, int_eq, string_eq,
  is_blank, or_empty, first_non_blank, length, keep_if, head?, length-append, All, All-mono,
  All-map, All-of_map, All-keep_if, All-of_keep_if, All-both,
}
use appcenter_agent.Common.Dict.{
  Dict, lookup, contains, values, keys, Distinct, insert, delete, lookup-insert, lookup-delete,
  contains-insert, lookup-insert_self, lookup-delete_self, contains-delete, Distinct-insert,
  Distinct-delete, All-insert, All-delete, All-lookup, lookup_own,
}
use appcenter_agent.Common.Sort.{
  place, sort, All-place, All-sort, head-sort-All, head-sort-none, head-sort-min,
}
use appcenter_agent.Api.{
  Command, TaskStatusRequest, InstalledApp, RemoteSupportRequest, RemoteSupportEnd,
}
use appcenter_agent.Common.Text.{
  codes, is_space, trim_left, trim_right, trim_space, trim_slashes, lower_code, lowered, same_codes,
  same_codes_refl, append, starts_with_slash, resolve_url, join,
}
use appcenter_agent.Json.{
  Json, JsonObject, null, flag, number, text, other, get_text, text_or_empty,
}

pub record Message : Type 0 where
  pub id : String
  pub kind : String
  pub payload : JsonObject

pub record Client : Type 0 where
  pub ws_url : String
  pub reconnect_min : ℕ
  pub reconnect_max : ℕ

-- a text behind a prefix, or as it is
abbrev pub behind : String → String → String → String
behind String.[] s whole = s
behind (String.◌∷◌ p ps) String.[] whole = whole
behind (String.◌∷◌ p ps) (String.◌∷◌ c s) whole =
    let rest = behind ps s whole in if code p == code c then rest else whole

abbrev pub has_prefix : String → String → Bool
has_prefix String.[] s = true
has_prefix (String.◌∷◌ p ps) String.[] = false
has_prefix (String.◌∷◌ p ps) (String.◌∷◌ c s) = code p == code c && has_prefix ps s

abbrev pub with_scheme : String → String
with_scheme base =
    if has_prefix "https://" base
    then append "wss://" (behind "https://" base base)
    else append "ws://" (behind "http://" base base)

unfoldable pub derive_ws_url : String → String → String
derive_ws_url server_url ws_url =
    if is_blank ws_url
    then append (with_scheme (trim_slashes server_url)) "/api/v1/agent/ws"
    else ws_url

abbrev pub positive_or : ℤ → ℕ → ℕ
positive_or (pos zero) default = default
positive_or (pos (suc n)) default = suc n
positive_or (negsuc n) default = default

unfoldable pub new_client : String → String → ℤ → ℤ → Client
unfolding derive_ws_url
new_client server_url ws_url min_sec max_sec = record {
  ws_url = derive_ws_url server_url ws_url;
  reconnect_min = positive_or min_sec 2;
  reconnect_max = positive_or max_sec 60;
}

-- what the client does: messages that it writes, callbacks, and the waits of Run
pub data Event : Type 0 where
  auth_sent : Event
  hello_sent : Event
  pong_sent : String → Event
  connected : Event
  disconnected : Event
  server_hello : JsonObject → Event
  signal : Event
  server_command : JsonObject → Event
  rs_request : JsonObject → Event
  rs_end : JsonObject → Event
  config_patch : JsonObject → Event
  inventory_sync_required : JsonObject → Event
  broadcast_restart : JsonObject → Event
  broadcast_self_update : JsonObject → Event
  announcement_push : JsonObject → Event
  wait : ℕ → Event

-- a read of the message loop, and whether a write right after it would succeed
pub record Incoming : Type 0 where
  pub message : Option Message
  pub writable : Bool

pub record Attempt : Type 0 where
  pub dial : Bool
  pub auth_written : Bool
  pub auth_reply : Option Message
  pub hello_written : Bool
  pub hello_reply : Option Message
  pub incoming : List Incoming
  -- whether the context is done when the attempt is over
  pub cancelled : Bool

-- the callbacks of the switch on the type of a message, but for a ping
unfoldable pub dispatch : Message → List Event
dispatch msg =
    if msg.kind == "server.signal"
    then signal ∷ []
    else if msg.kind == "server.hello"
    then server_hello msg.payload ∷ []
    else if msg.kind == "server.command.dispatch"
    then server_command msg.payload ∷ []
    else if msg.kind == "server.rs.request"
    then rs_request msg.payload ∷ []
    else if msg.kind == "server.rs.end"
    then rs_end msg.payload ∷ []
    else if msg.kind == "server.config.patch"
    then config_patch msg.payload ∷ []
    else if msg.kind == "server.inventory.sync_required"
    then inventory_sync_required msg.payload ∷ []
    else if msg.kind == "server.broadcast.restart"
    then broadcast_restart msg.payload ∷ []
    else if msg.kind == "server.broadcast.self_update"
    then broadcast_self_update msg.payload ∷ []
    else if msg.kind == "server.announcement.push"
    then announcement_push msg.payload ∷ []
    else []

-- one message; `rest` is what follows if the loop goes on
abbrev pub on_message : Message → Bool → List Event → List Event
unfolding dispatch
on_message msg writable rest =
    if msg.kind == "server.ping"
    then (if writable then pong_sent msg.id ∷ rest else [])
    else dispatch msg ++ rest

abbrev pub on_read : Option Message → Bool → List Event → List Event
unfolding on_message
on_read none writable rest = []
on_read (some msg) writable rest = on_message msg writable rest

-- the loop ends with the first error of a read or of a pong
unfoldable pub message_loop : List Incoming → List Event
unfolding on_read
message_loop [] = []
message_loop (i ∷ rest) = on_read i.message i.writable (message_loop rest)

abbrev pub flag_of : Option Json → Bool
flag_of (some (flag b)) = b
flag_of _ = false

abbrev pub is_authenticated : Message → Bool
is_authenticated msg =
    if msg.kind == "server.auth.result"
    then flag_of (lookup "ok" msg.payload)
    else msg.kind == "server.auth.ok"

-- an error, and the events
abbrev pub Served : Type 0
Served = Bool × List Event

abbrev pub before : Event → Served → Served
before e (failed, es) = (failed, e ∷ es)

abbrev pub greeting : Message → List Event
greeting msg = if msg.kind == "server.hello" then server_hello msg.payload ∷ [] else []

-- the end of a connection is an error only if the context is done
abbrev pub on_hello : Attempt → Option Message → Served
unfolding message_loop
on_hello a none = (true, [])
on_hello a (some msg) = (a.cancelled, greeting msg ++ (connected ∷ message_loop a.incoming))

abbrev pub on_auth : Attempt → Option Message → Served
unfolding on_hello
on_auth a none = (true, [])
on_auth a (some msg) =
    if not (is_authenticated msg)
    then (true, [])
    else if not a.hello_written
    then (true, [])
    else before hello_sent (on_hello a a.hello_reply)

unfoldable pub connect_and_serve : Attempt → Served
unfolding on_auth
connect_and_serve a =
    if not a.dial || not a.auth_written
    then (true, [])
    else before auth_sent (on_auth a a.auth_reply)

abbrev pub min : ℕ → ℕ → ℕ
min a b = if leb a b then a else b

-- Run for a series of attempts, from a backoff on
unfoldable pub run : Client → ℕ → List Attempt → List Event
unfolding connect_and_serve
run c backoff [] = []
run c backoff (a ∷ rest) =
    let again_failed = run c (min (backoff * 2) c.reconnect_max) rest in
    let again_served = run c c.reconnect_min rest in
    if a.cancelled
    then (connect_and_serve a).1
    else if (connect_and_serve a).0
    then (connect_and_serve a).1 ++ (disconnected ∷ wait backoff ∷ again_failed)
    else (connect_and_serve a).1 ++ (disconnected ∷ wait c.reconnect_min ∷ again_served)
