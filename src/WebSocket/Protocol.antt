-- ===== src/WebSocket/Protocol.antt =====
-- The order of the client's events.
use appcenter_agent.Common.{
  ℕ, ◌*◌, ◌≡◌, refl, sym, ap, ◌∙◌, inl, inr, Bool, true, false, not, ◌||◌, Option, none, some, List,
  [], ◌∷◌, ◌++◌, if◌then◌else◌, Bool-cases, ◌==◌, nat_eq, int_eq, string_eq,
}
use appcenter_agent.WebSocket.{
  min, Message, Client, Event, auth_sent, hello_sent, connected, disconnected, server_hello, signal,
  server_command, rs_request, rs_end, config_patch, inventory_sync_required, broadcast_restart,
  broadcast_self_update, announcement_push, wait, Incoming, Attempt, dispatch, on_message, on_read,
  message_loop, is_authenticated, greeting, on_hello, on_auth, connect_and_serve, run,
}

-- where a client stands with its server
pub data Stage : Type 0 where
  offline : Stage
  authenticating : Stage
  greeting_sent : Stage
  greeted : Stage
  online : Stage

-- The protocol: which event may come at which stage, and the stage after it.
abbrev pub next_stage : Stage → Event → Option Stage
next_stage offline auth_sent = some authenticating
next_stage offline disconnected = some offline
next_stage offline (wait n) = some offline
next_stage authenticating hello_sent = some greeting_sent
next_stage authenticating disconnected = some offline
next_stage greeting_sent (server_hello p) = some greeted
next_stage greeting_sent connected = some online
next_stage greeting_sent disconnected = some offline
next_stage greeted connected = some online
next_stage greeted disconnected = some offline
next_stage online auth_sent = none
next_stage online hello_sent = none
next_stage online connected = none
next_stage online (wait n) = none
next_stage online disconnected = some offline
next_stage online _ = some online
next_stage _ _ = none

abbrev pub stage_after : Option Stage → List Event → Option Stage
stage_after none es = none
stage_after (some s) [] = some s
stage_after (some s) (e ∷ es) = stage_after (next_stage s e) es

after-append :
    (o : Option Stage) (es fs : List Event)
    → stage_after o (es ++ fs) ≡ stage_after (stage_after o es) fs
after-append none [] fs = sym (stuck fs)
  where
    stuck : (fs : List Event) → stage_after none fs ≡ none
    stuck fs = refl
after-append none (e ∷ es) fs = refl
after-append (some s) [] fs = refl
after-append (some s) (e ∷ es) fs = after-append (next_stage s e) es fs

-- events that may come at any time while the client is online
IsQuiet : List Event → Type 0
IsQuiet es = stage_after (some online) es ≡ some online

nothing-IsQuiet : IsQuiet []
unfolding IsQuiet
nothing-IsQuiet = refl

branch-IsQuiet :
    (b : Bool) (e : Event) (es : List Event)
    → next_stage online e ≡ some online
    → IsQuiet es
    → IsQuiet (if b then e ∷ [] else es)
unfolding IsQuiet
branch-IsQuiet true e es h q = ap (λ o. stage_after o []) h
branch-IsQuiet false e es h q = q

dispatch-IsQuiet : (m : Message) → IsQuiet (dispatch m)
unfolding dispatch
dispatch-IsQuiet m =
    (branch-IsQuiet (m.kind == "server.signal") signal _ refl (
      branch-IsQuiet (m.kind == "server.hello") (server_hello m.payload) _ refl (
        branch-IsQuiet (m.kind == "server.command.dispatch") (server_command m.payload) _ refl (
          branch-IsQuiet (m.kind == "server.rs.request") (rs_request m.payload) _ refl (
            branch-IsQuiet (m.kind == "server.rs.end") (rs_end m.payload) _ refl (
              branch-IsQuiet (m.kind == "server.config.patch") (config_patch m.payload) _ refl (
                branch-IsQuiet (m.kind == "server.inventory.sync_required")
                  (inventory_sync_required m.payload) _ refl
                  (branch-IsQuiet (m.kind == "server.broadcast.restart")
                    (broadcast_restart m.payload) _ refl
                    (branch-IsQuiet (m.kind == "server.broadcast.self_update")
                      (broadcast_self_update m.payload) _ refl
                      (branch-IsQuiet (m.kind == "server.announcement.push")
                        (announcement_push m.payload) _ refl nothing-IsQuiet))))))))))

message-IsQuiet :
    (m : Message) (writable : Bool) (rest : List Event)
    → IsQuiet rest
    → IsQuiet (on_message m writable rest)
unfolding on_message IsQuiet
message-IsQuiet m writable rest q = elim (Bool-cases (m.kind == "server.ping")) [
  | inl e ↦ elim (Bool-cases writable) [ inl e' ↦ rw (e, e') q | inr e' ↦ rw (e, e') refl ]
  | inr e ↦ rw e (
      after-append (some online) (dispatch m) rest
      ∙ ap (λ o. stage_after o rest) (dispatch-IsQuiet m)
      ∙ q)
]

read-IsQuiet :
    (o : Option Message) (writable : Bool) (rest : List Event)
    → IsQuiet rest
    → IsQuiet (on_read o writable rest)
unfolding on_read IsQuiet
read-IsQuiet none writable rest q = refl
read-IsQuiet (some m) writable rest q = message-IsQuiet m writable rest q

loop-IsQuiet : (is : List Incoming) → IsQuiet (message_loop is)
unfolding message_loop on_read IsQuiet
loop-IsQuiet [] = refl
loop-IsQuiet (i ∷ rest) = read-IsQuiet i.message i.writable (message_loop rest) (loop-IsQuiet rest)

-- Events that keep to the protocol from a stage on.
abbrev pub IsOrderly : Stage → List Event → Type 0
IsOrderly s es = (t : Stage) × (stage_after (some s) es ≡ some t)

greeting-IsOrderly :
    (m : Message) (es : List Event)
    → IsQuiet es
    → IsOrderly greeting_sent (greeting m ++ (connected ∷ es))
unfolding IsQuiet
greeting-IsOrderly m es q = elim (Bool-cases (m.kind == "server.hello")) [
  | inl e ↦ rw e (online, q)
  | inr e ↦ rw e (online, q)
]

hello-IsOrderly : (a : Attempt) (o : Option Message) → IsOrderly greeting_sent (on_hello a o).1
unfolding on_hello
hello-IsOrderly a none = (greeting_sent, refl)
hello-IsOrderly a (some m) =
    greeting-IsOrderly m (message_loop a.incoming) (loop-IsQuiet a.incoming)

auth-IsOrderly : (a : Attempt) (o : Option Message) → IsOrderly authenticating (on_auth a o).1
unfolding on_auth
auth-IsOrderly a none = (authenticating, refl)
auth-IsOrderly a (some m) = elim (Bool-cases (is_authenticated m)) [
  | inl e ↦ elim (Bool-cases a.hello_written) [
    | inl e' ↦ rw (e, e') (hello-IsOrderly a a.hello_reply)
    | inr e' ↦ rw (e, e') (authenticating, refl)
  ]
  | inr e ↦ rw e (authenticating, refl)
]

serve-IsOrderly : (a : Attempt) → IsOrderly offline (connect_and_serve a).1
unfolding connect_and_serve
serve-IsOrderly a = elim (Bool-cases (not a.dial || not a.auth_written)) [
  | inl e ↦ rw e (offline, refl)
  | inr e ↦ rw e (auth-IsOrderly a a.auth_reply)
]

both-IsOrderly :
    (s : Stage) (b : Bool) (x y : List Event)
    → IsOrderly s x
    → IsOrderly s y
    → IsOrderly s (if b then x else y)
both-IsOrderly s true x y p q = p
both-IsOrderly s false x y p q = q

-- whatever the stage, a client that loses its connection is offline
drops : (s : Stage) → next_stage s disconnected ≡ some offline
drops offline = refl
drops authenticating = refl
drops greeting_sent = refl
drops greeted = refl
drops online = refl

after_attempt-IsOrderly :
    (es fs : List Event) (n : ℕ)
    → IsOrderly offline es
    → IsOrderly offline fs
    → IsOrderly offline (es ++ (disconnected ∷ wait n ∷ fs))
after_attempt-IsOrderly es fs n p q = (
  q.0,
  after-append (some offline) es (disconnected ∷ wait n ∷ fs)
      ∙ ap (λ o. stage_after o (disconnected ∷ wait n ∷ fs)) p.1
      ∙ ap (λ o. stage_after o (wait n ∷ fs)) (drops p.0)
      ∙ q.1,
)

-- Whatever the network and the server do in a series of attempts, the client greets the server
-- only after it has sent its credentials, reports that it is connected only after both, hands
-- out pushes and answers pings only while connected, apart from the server hello of the
-- handshake, and reports each loss of the connection before it waits and tries again.
pub run-IsOrderly :
    (c : Client) (backoff : ℕ) (attempts : List Attempt)
    → IsOrderly offline (run c backoff attempts)
unfolding run
run-IsOrderly c backoff [] = (offline, refl)
run-IsOrderly c backoff (a ∷ rest) =
    let es = (connect_and_serve a).1 in
    let later = run c (min (backoff * 2) c.reconnect_max) rest in
    let after_error = es ++ (disconnected ∷ wait backoff ∷ later) in
    let after_end = es ++ (disconnected ∷ wait c.reconnect_min ∷ run c c.reconnect_min rest) in
    both-IsOrderly offline a.cancelled es
      (if (connect_and_serve a).0 then after_error else after_end) (serve-IsOrderly a)
      (both-IsOrderly offline (connect_and_serve a).0 after_error after_end
        (after_attempt-IsOrderly es later backoff (serve-IsOrderly a)
          (run-IsOrderly c (min (backoff * 2) c.reconnect_max) rest))
        (after_attempt-IsOrderly es (run c c.reconnect_min rest) c.reconnect_min (serve-IsOrderly a)
          (run-IsOrderly c c.reconnect_min rest)))
